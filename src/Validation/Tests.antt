-- ===== src/Validation/Tests.antt =====
-- The checks of requests at concrete requests.
use nomiso.Prelude.{◌≤◌, ◌<◌, ◌≡◌, ◌↔◌, ◌⊎◌, false, true, [], none, some, is_empty, is_some}
use nomiso.Prelude.Text.{codes, trim, utf8_len}
use nomiso.Errors.{ok}
use nomiso.Host.{Host}
use nomiso.Scope
use nomiso.Scope.{ScopePath, exact}
use nomiso.Memories.{semantic, PutRequest, SupersedeRequest, SearchQuery, memory_key}
use nomiso.Validation.{default_limits, i64_max, validate_put, validate_supersede, validate_search}
use nomiso.Validation.Accepted.{
  IsPut, IfSome, IsEmbedding, validate_put-eq_ok_iff, validate_supersede-eq_ok_iff,
}
use nomiso.Validation.Search.{validate_search-eq_ok_iff}

abbrev host : Host
host = record { max_timestamp = 1000000000; blake3_hex = λ t. t; json_text = λ v. codes "{}" }

abbrev acme : ScopePath
acme = record { as_str = codes "org/acme" }

abbrev note : PutRequest
note = record {
  scope = codes "org/acme";
  category = semantic;
  content = record { text = codes "the build uses cargo"; attrs = none };
  valid_from = none;
  valid_until = some 90;
  known_at = none;
  confidence = none;
  provenance = record { source = none; kind = none; span = none };
  entity_links = [];
  embedding = none;
  embedding_identity = none;
  idempotency_key = none;
  extractor_version = none;
  model_version = none;
  valid_rev_from = none;
  valid_rev_until = none;
}

validate_put-eq_ok_iff_example :
    (validate_put host 80 note default_limits ≡ ok acme) ↔ IsPut host 80 default_limits note acme
validate_put-eq_ok_iff_example = validate_put-eq_ok_iff host 80 default_limits note acme

abbrev correction : SupersedeRequest
correction = record {
  prior_id = record { as_str = codes "memory:m1" };
  expected_version = 1;
  new = note;
  close_at = none;
}

validate_supersede-eq_ok_iff_example :
    (validate_supersede host 80 correction default_limits ≡ ok acme) ↔ (
      (is_empty (trim (memory_key correction.prior_id)) ≡ false)
      × (0 < correction.expected_version)
      × (correction.expected_version ≤ i64_max)
      × (correction.new.idempotency_key ≡ none)
      × IsPut host 80 default_limits correction.new acme)
validate_supersede-eq_ok_iff_example =
    validate_supersede-eq_ok_iff host 80 default_limits correction acme

abbrev question : SearchQuery
question = record {
  query = codes "build";
  scope = codes "org/acme";
  scope_match = exact;
  as_of = none;
  known_as_of = none;
  sys_as_of = none;
  categories = none;
  limit = some 8;
  embedding = none;
  graph_enrich = none;
  graph_expand = none;
}

validate_search-eq_ok_iff_example : (validate_search question default_limits ≡ ok acme) ↔ (
    (Scope.parse question.scope ≡ ok acme)
    × ((is_empty (trim question.query) ≡ false) ⊎ (is_some question.embedding ≡ true))
    × (utf8_len question.query ≤ default_limits.max_content_bytes)
    × IfSome (λ n. (1 ≤ n) × (n ≤ default_limits.max_search_limit)) question.limit
    × IfSome (IsEmbedding default_limits) question.embedding)
validate_search-eq_ok_iff_example = validate_search-eq_ok_iff default_limits question acme
