-- ===== src/Validation.antt =====
-- crates/nomiso-core/src/validate.rs: what a request on memories must satisfy before it reaches the
-- store.
pub mod Accepted
pub mod Search
mod Tests
use nomiso.Prelude.{
  ℕ, Bool, true, false, ◌||◌, ◌&&◌, not, List, Option, none, some, ◌==◌, ltb, any, is_empty,
  is_some, is_some_and, length,
}
use nomiso.Prelude.Text.{Text, trim, utf8_len}
use nomiso.Errors.{
  Result, ok, err, invalid_op, payload_too_large, dimension_mismatch, conflict, refuse_if, ◌>>=◌,
  ◌>>◌,
}
use nomiso.Host.{Host}
use nomiso.Scope
use nomiso.Scope.{ScopePath}
use nomiso.Embeddings.{Float, EmbeddingIdentity, is_finite, in_unit}
use nomiso.Memories.{
  Category, trace, Content, PutRequest, SupersedeRequest, SearchQuery, ReadRequest, ForgetRequest,
  attrs_bytes, memory_key,
}

pub record Limits : Type 0 where
  pub max_content_bytes : ℕ
  pub max_attrs_bytes : ℕ
  pub max_search_limit : ℕ
  pub embedding_dim : ℕ
  pub max_read_ids : ℕ

-- `Limits::default`
abbrev pub default_limits : Limits
default_limits = record {
  max_content_bytes = 8192;
  max_attrs_bytes = 4096;
  max_search_limit = 32;
  embedding_dim = 1536;
  max_read_ids = 64;
}

-- `i64::MAX`
abbrev pub i64_max : ℕ
i64_max = 9223372036854775807

abbrev searchable : Category → Bool
searchable trace = false
searchable _ = true

unfoldable pub validate_content : Host → Content → Category → Limits → Result (Unit {0})
validate_content h content category limits = do
  refuse_if (ltb limits.max_content_bytes (utf8_len content.text))
      (payload_too_large "content.text")
  refuse_if (ltb limits.max_attrs_bytes (attrs_bytes h content)) (payload_too_large "content.attrs")
  refuse_if (searchable category && is_empty (trim content.text))
      (invalid_op "content.text must be non-empty for this category")

unfoldable pub validate_interval_after_defaults : ℕ → Option ℕ → Result (Unit {0})
validate_interval_after_defaults from until =
    refuse_if (is_some_and until (λ u. ltb u from)) (invalid_op "valid_until must be >= valid_from")

unfoldable pub validate_interval : ℕ → Option ℕ → Option ℕ → Result (Unit {0})
validate_interval now from none = ok tt
validate_interval now (some f) (some u) = validate_interval_after_defaults f (some u)
validate_interval now none (some u) = validate_interval_after_defaults now (some u)

unfoldable pub validate_confidence : Option Float → Result (Unit {0})
validate_confidence c =
    refuse_if (is_some_and c (λ v. not (in_unit v))) (invalid_op "confidence must be in [0, 1]")

unfoldable pub validate_embedding : Option (List Float) → Limits → Result (Unit {0})
validate_embedding none limits = ok tt
validate_embedding (some v) limits = do
  refuse_if (is_empty v) (invalid_op "embedding must not be empty when provided")
  refuse_if (not (length v == limits.embedding_dim))
      (dimension_mismatch limits.embedding_dim (length v))
  refuse_if (any (λ x. not (is_finite x)) v)
      (invalid_op "embedding must contain only finite floats")

-- The parts of `validate_put_shape` under an `if let`.
check_from : Option ℕ → Option ℕ → Result (Unit {0})
check_from none until = ok tt
check_from (some from) until = validate_interval_after_defaults from until

check_identity : Option EmbeddingIdentity → Limits → Result (Unit {0})
check_identity none limits = ok tt
check_identity (some id) limits =
    refuse_if (not (id.dimension == limits.embedding_dim))
      (dimension_mismatch limits.embedding_dim id.dimension)

check_key : Option Text → Result (Unit {0})
check_key none = ok tt
check_key (some key) =
    refuse_if (is_empty (trim key) || ltb 256 (utf8_len key))
      (invalid_op "idempotency_key must be non-blank and at most 256 bytes")

unfoldable pub validate_put_shape : Host → PutRequest → Limits → Result ScopePath
unfolding check_from check_identity check_key
validate_put_shape h req limits = do
  scope ← Scope.parse req.scope
  validate_content h req.content req.category limits
  check_from req.valid_from req.valid_until
  validate_confidence req.confidence
  validate_embedding req.embedding limits
  check_identity req.embedding_identity limits
  check_key req.idempotency_key
  ok scope

unfoldable pub validate_put : Host → ℕ → PutRequest → Limits → Result ScopePath
validate_put h now req limits = do
  scope ← validate_put_shape h req limits
  validate_interval now req.valid_from req.valid_until
  ok scope

unfoldable pub validate_supersede : Host → ℕ → SupersedeRequest → Limits → Result ScopePath
validate_supersede h now req limits = do
  refuse_if (is_empty (trim (memory_key req.prior_id))) (invalid_op "prior_id is required")
  refuse_if (req.expected_version == 0 || ltb i64_max req.expected_version)
      (invalid_op "expected_version must be in 1..=i64::MAX")
  refuse_if (is_some req.new.idempotency_key)
      (invalid_op "keyed supersede is not supported; reconcile the prior version before retrying")
  validate_put h now req.new limits

check_limit : Option ℕ → Limits → Result (Unit {0})
check_limit none limits = ok tt
check_limit (some lim) limits = do
  refuse_if (lim == 0) (invalid_op "limit must be >= 1")
  refuse_if (ltb limits.max_search_limit lim) (payload_too_large "limit exceeds max_search_limit")

unfoldable pub validate_search : SearchQuery → Limits → Result ScopePath
unfolding check_limit
validate_search req limits = do
  scope ← Scope.parse req.scope
  let has_text = not (is_empty (trim req.query))
  let has_vec = is_some_and req.embedding (λ v. not (is_empty v))
  refuse_if (not has_text && not has_vec)
      (invalid_op "search requires non-empty query text and/or embedding")
  refuse_if (ltb limits.max_content_bytes (utf8_len req.query)) (payload_too_large "search.query")
  check_limit req.limit limits
  validate_embedding req.embedding limits
  ok scope

unfoldable pub validate_read : ReadRequest → Limits → Result ScopePath
validate_read req limits = do
  scope ← Scope.parse req.scope
  refuse_if (is_empty req.ids) (invalid_op "read requires at least one id")
  refuse_if (ltb limits.max_read_ids (length req.ids)) (payload_too_large "read ids exceed max")
  ok scope

unfoldable pub validate_forget : ForgetRequest → Result ScopePath
validate_forget req = do
  refuse_if (is_empty (trim (memory_key req.id))) (invalid_op "forget requires id")
  refuse_if (is_some_and req.expected_version (λ v. v == 0 || ltb i64_max v))
      (invalid_op "expected_version must be in 1..=i64::MAX")
  Scope.parse req.scope

unfoldable pub check_version : ℕ → ℕ → Result (Unit {0})
check_version expected found = refuse_if (not (expected == found)) (conflict expected found)
