-- ===== src/Validation/Accepted.antt =====
-- Which requests the checks let through.
use nomiso.Prelude.{
  ℕ, ◌≤◌, ◌<◌, ◌≡◌, refl, ◌↔◌, ◌⊎◌, inl, inr, Bool, true, false, ◌&&◌, not, List, [], ◌∷◌, Option,
  none, some, any, is_empty, length, unwrap_or, All, arith, ◌∙◌,
}
use nomiso.Prelude.Text.{Text, trim, utf8_len}
use nomiso.Errors.{Result, ok, err, ◌>>◌, Result-cases}
use nomiso.Host.{Host}
use nomiso.Scope
use nomiso.Scope.{ScopePath}
use nomiso.Embeddings.{Float, EmbeddingIdentity, is_finite, in_unit}
use nomiso.Memories.{
  Category, trace, Content, PutRequest, SupersedeRequest, attrs_bytes, memory_key,
}
use nomiso.Validation.{
  Limits, searchable, i64_max, validate_content, validate_interval_after_defaults,
  validate_interval, validate_confidence, validate_embedding, check_from, check_identity, check_key,
  validate_put_shape, validate_put, validate_supersede,
}

-- An embedding of the store's dimension, of finite numbers only.
pub record IsEmbedding (limits : Limits) (v : List Float) : Type 0 where
  pub sized : length v ≡ limits.embedding_dim
  pub filled : 0 < length v
  pub numbers : All (λ x. is_finite x ≡ true) v

pub record IsContent (h : Host) (limits : Limits) (category : Category) (content : Content)
    : Type 0 where
  pub text_fits : utf8_len content.text ≤ limits.max_content_bytes
  pub attrs_fit : attrs_bytes h content ≤ limits.max_attrs_bytes
  pub searchable : (category ≡ trace) ⊎ (is_empty (trim content.text) ≡ false)

-- A key of 1 to 256 bytes that is not blank.
abbrev pub IsKey : Text → Type 0
IsKey key = (is_empty (trim key) ≡ false) × (utf8_len key ≤ 256)

-- What holds of a value where there is one.
abbrev pub IfSome : {A : Type 0} → (A → Type 0) → Option A → Type 0
IfSome P none = Unit
IfSome P (some a) = P a

pub record IsPut (h : Host) (now : ℕ) (limits : Limits) (req : PutRequest) (path : ScopePath)
    : Type 0 where
  pub parsed : Scope.parse req.scope ≡ ok path
  pub content : IsContent h limits req.category req.content
  pub interval : IfSome (λ until. unwrap_or req.valid_from now ≤ until) req.valid_until
  pub confidence : IfSome (λ c. in_unit c ≡ true) req.confidence
  pub embedding : IfSome (IsEmbedding limits) req.embedding
  pub identity :
      IfSome (λ (i : EmbeddingIdentity). i.dimension ≡ limits.embedding_dim) req.embedding_identity
  pub key : IfSome IsKey req.idempotency_key

then-eq_ok :
    {B : Type 0} (m : Result (Unit {0})) (k : Result B) {b : B}
    → (m >> k) ≡ ok b
    → (m ≡ ok tt) × (k ≡ ok b)
then-eq_ok (ok u) k h = (refl, h)
then-eq_ok (err e) k h = absurd (cc h)

searchable→ : (c : Category) (b : Bool) → (searchable c && b) ≡ false → (c ≡ trace) ⊎ (b ≡ false)
searchable→ trace b h = inl refl
searchable→ _ b h = inr h

searchable← : (c : Category) (b : Bool) → (c ≡ trace) ⊎ (b ≡ false) → (searchable c && b) ≡ false
searchable← c b (inr e) = ground arith
searchable← c b (inl e) = rw e refl

validate_content_iff :
    (h : Host) (limits : Limits) (category : Category) (content : Content)
    → (validate_content h content category limits ≡ ok tt) ↔ IsContent h limits category content
unfolding validate_content
validate_content_iff h limits category content = (
  λ e. record {
    text_fits = ground arith;
    attrs_fit = ground arith;
    searchable = searchable→ category _ (ground arith);
  },
  λ v. ground (arith, searchable← category (is_empty (trim content.text)) v.searchable),
)

finite_iff :
    (v : List Float) → (any (λ x. not (is_finite x)) v ≡ false) ↔ All (λ x. is_finite x ≡ true) v
finite_iff [] = (λ h. tt, λ h. refl)
finite_iff (x ∷ v) = let (f, g) = finite_iff v in (λ h. ground (arith, f), λ h. ground (arith, g))

pub validate_embedding_iff :
    (limits : Limits) (e : Option (List Float))
    → (validate_embedding e limits ≡ ok tt) ↔ IfSome (IsEmbedding limits) e
unfolding validate_embedding
validate_embedding_iff limits none = (λ h. tt, λ h. refl)
validate_embedding_iff limits (some []) = (λ h. absurd (cc h), λ h. ground arith)
validate_embedding_iff limits (some (x ∷ v)) =
    let (f, g) = finite_iff (x ∷ v) in
    (
      λ h. record { sized = ground arith; filled = ground arith; numbers = f (ground arith) },
      λ h. ground (arith, g),
    )

validate_confidence_iff :
    (c : Option Float) → (validate_confidence c ≡ ok tt) ↔ IfSome (λ x. in_unit x ≡ true) c
unfolding validate_confidence
validate_confidence_iff none = (λ h. tt, λ h. refl)
validate_confidence_iff (some c) = (λ h. ground arith, λ h. ground arith)

identity_iff :
    (limits : Limits) (o : Option EmbeddingIdentity)
    → (check_identity o limits ≡ ok tt)
      ↔ IfSome (λ (i : EmbeddingIdentity). i.dimension ≡ limits.embedding_dim) o
unfolding check_identity
identity_iff limits none = (λ h. tt, λ h. refl)
identity_iff limits (some i) = (λ h. ground arith, λ h. ground arith)

check_key_iff : (o : Option Text) → (check_key o ≡ ok tt) ↔ IfSome IsKey o
unfolding check_key
check_key_iff none = (λ h. tt, λ h. refl)
check_key_iff (some k) = (λ h. ground arith, λ h. ground arith)

interval_iff :
    (now : ℕ) (from until : Option ℕ)
    → ((check_from from until ≡ ok tt) × (validate_interval now from until ≡ ok tt))
      ↔ IfSome (λ u. unwrap_or from now ≤ u) until
unfolding check_from validate_interval validate_interval_after_defaults
interval_iff now none none = (λ h. tt, λ h. (refl, refl))
interval_iff now (some f) none = (λ h. tt, λ h. (refl, refl))
interval_iff now none (some u) = (λ h. ground arith, λ h. ground arith)
interval_iff now (some f) (some u) = (λ h. ground arith, λ h. ground arith)

validate_put-IsPut :
    (h : Host) (now : ℕ) (limits : Limits) (req : PutRequest) (path : ScopePath)
    → validate_put h now req limits ≡ ok path
    → IsPut h now limits req path
unfolding validate_put validate_put_shape
validate_put-IsPut h now limits req path e = elim (Result-cases (Scope.parse req.scope)) [
  | inr (x, a) ↦ absurd (cc (rw a at e))
  | inl (p, a) ↦ elim (Result-cases (validate_content h req.content req.category limits)) [
    | inr (x, b) ↦ absurd (cc (rw (a, b) at e))
    | inl (_, b) ↦ elim (Result-cases (check_from req.valid_from req.valid_until)) [
      | inr (x, c) ↦ absurd (cc (rw (a, b, c) at e))
      | inl (_, c) ↦ elim (Result-cases (validate_confidence req.confidence)) [
        | inr (x, d) ↦ absurd (cc (rw (a, b, c, d) at e))
        | inl (_, d) ↦ elim (Result-cases (validate_embedding req.embedding limits)) [
          | inr (x, f) ↦ absurd (cc (rw (a, b, c, d, f) at e))
          | inl (_, f) ↦ elim (Result-cases (check_identity req.embedding_identity limits)) [
            | inr (x, g) ↦ absurd (cc (rw (a, b, c, d, f, g) at e))
            | inl (_, g) ↦ elim (Result-cases (check_key req.idempotency_key)) [
              | inr (x, k) ↦ absurd (cc (rw (a, b, c, d, f, g, k) at e))
              | inl (_, k) ↦
                  elim (Result-cases (validate_interval now req.valid_from req.valid_until)) [
                    | inr (x, l) ↦ absurd (cc (rw (a, b, c, d, f, g, k, l) at e))
                    | inl (_, l) ↦ record {
                      parsed = a ∙ (rw (a, b, c, d, f, g, k, l) at e);
                      content = (validate_content_iff h limits req.category req.content).0 b;
                      interval = (interval_iff now req.valid_from req.valid_until).0 (c, l);
                      confidence = (validate_confidence_iff req.confidence).0 d;
                      embedding = (validate_embedding_iff limits req.embedding).0 f;
                      identity = (identity_iff limits req.embedding_identity).0 g;
                      key = (check_key_iff req.idempotency_key).0 k;
                    }
                  ]
            ]
          ]
        ]
      ]
    ]
  ]
]

IsPut-validate_put :
    (h : Host) (now : ℕ) (limits : Limits) (req : PutRequest) (path : ScopePath)
    → IsPut h now limits req path
    → validate_put h now req limits ≡ ok path
unfolding validate_put validate_put_shape
IsPut-validate_put h now limits req path v =
    let (a, b) = (interval_iff now req.valid_from req.valid_until).1 v.interval in
    rw
      (
        v.parsed,
        (validate_content_iff h limits req.category req.content).1 v.content,
        a,
        (validate_confidence_iff req.confidence).1 v.confidence,
        (validate_embedding_iff limits req.embedding).1 v.embedding,
        (identity_iff limits req.embedding_identity).1 v.identity,
        (check_key_iff req.idempotency_key).1 v.key,
        b,
      )
      refl

-- The check of a put passes, with a parsed path, exactly when the scope parses to that path, the
-- content is within the limits and not blank (unless it is a trace), the end of validity is not
-- before its start (now, where none is given), the confidence is in [0, 1], the embedding has the
-- store's dimension and finite numbers only, its identity has that dimension, and the idempotency
-- key is 1 to 256 bytes that are not blank.
pub validate_put-eq_ok_iff :
    (h : Host) (now : ℕ) (limits : Limits) (req : PutRequest) (path : ScopePath)
    → (validate_put h now req limits ≡ ok path) ↔ IsPut h now limits req path
validate_put-eq_ok_iff h now limits req path =
    (validate_put-IsPut h now limits req path, IsPut-validate_put h now limits req path)

-- A supersession that passes names a prior memory and a version in 1 to i64::MAX, carries no
-- idempotency key, and its new memory is one that may be put.
pub validate_supersede-eq_ok_iff :
    (h : Host) (now : ℕ) (limits : Limits) (req : SupersedeRequest) (path : ScopePath)
    → (validate_supersede h now req limits ≡ ok path) ↔ (
        (is_empty (trim (memory_key req.prior_id)) ≡ false)
        × (0 < req.expected_version)
        × (req.expected_version ≤ i64_max)
        × (req.new.idempotency_key ≡ none)
        × IsPut h now limits req.new path)
unfolding validate_supersede
validate_supersede-eq_ok_iff h now limits req path =
    let (f, g) = validate_put-eq_ok_iff h now limits req.new path in
    (
      λ e.
          let put : validate_put h now req.new limits ≡ ok path = ground arith in
          (ground arith, ground arith, ground arith, ground arith, f put),
      λ v. let (a, b, c, d, put) = v in let e = g put in ground arith,
    )
