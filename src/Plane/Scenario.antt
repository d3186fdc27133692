-- ===== src/Plane/Scenario.antt =====
-- A run of the memory plane on concrete data: a keyed put, a supersession, a search and a reindex.
use nomiso.Prelude.{inl, inr, true, ◌≡◌, refl, arith, [], ◌∷◌, none, some}
use nomiso.Prelude.Text.{
  Text, codes, text_eq, trim, trim_matches, is_whitespace, strip_prefix, starts_with, ends_with,
  utf8_len, trim_start_matches, utf8_width,
}
use nomiso.Prelude.Table.{find, update, update_where}
use nomiso.Errors.{ok}
use nomiso.Host.{Host}
use nomiso.Json.{Json, string, sorted}
use nomiso.Scope.{parse, split, contains_empty_segment, check_segments, ScopePath, matches, exact}
use nomiso.Memories.{semantic, PutRequest, SupersedeRequest, ReadRequest, memory_key, attrs_bytes}
use nomiso.Validation.{
  default_limits, validate_put, validate_put_shape, validate_content, validate_interval,
  validate_interval_after_defaults, validate_confidence, validate_embedding, validate_supersede,
  check_version, validate_read,
}
use nomiso.Plane.{MemoryRecord, Plane, Env, id_of}
use nomiso.Plane.Generations.{resolve_embedding_for_write, resolve_claim, active_generation, newest}
use nomiso.Plane.Receipts.{
  put_request_identity, lookup_put_receipt, lookup_put_receipt_expect, keyed_receipt, replay_slot,
  has_keyed_memory, idempotency_slot_id,
}
use nomiso.Plane.Writes.{
  put, put_prepared, put_unseen, put_new, answer, check_generated, generation_for, put_idempotent,
  put_attempts, claim_slot, committed, new_memory, written,
}
use nomiso.Plane.Supersede.{
  supersede, check_prior, supersede_commit, link_successor, conflict_from_memory,
}
use nomiso.Plane.World.{Erases, empty_plane, Fresh, Run, here, next, supersedes}

abbrev pub json_text : Json → Text
json_text (string t) = t
json_text _ = codes "{}"

abbrev pub host : Host
host = record { max_timestamp = 1000000000000000; blake3_hex = λ t. t; json_text = json_text }

abbrev pub env : Env
env = record {
  host = host;
  limits = record default_limits { embedding_dim = 1 };
  put_json = λ r. string r.content.text;
  timestamp_text = λ t. [];
}

abbrev pub request : PutRequest
request = record {
  scope = codes "org/acme";
  category = semantic;
  content = record { text = codes "the build is green"; attrs = none };
  valid_from = none;
  valid_until = none;
  known_at = none;
  confidence = none;
  provenance = record { source = none; kind = none; span = none };
  entity_links = [];
  embedding = none;
  embedding_identity = none;
  idempotency_key = some (codes "k");
  extractor_version = none;
  model_version = none;
  valid_rev_from = none;
  valid_rev_until = none;
}

-- Another request under the same key.
abbrev pub other : PutRequest
other = record request { content = record { text = codes "the build is red"; attrs = none } }

abbrev pub key_a : Text
key_a = codes "a"

abbrev pub key_b : Text
key_b = codes "b"

abbrev pub path_acme : ScopePath
path_acme = record { as_str = codes "org/acme" }

abbrev pub first : MemoryRecord
first = record {
  id = id_of key_a;
  category = semantic;
  scope = codes "org/acme";
  content = request.content;
  embedding = none;
  embedding_generation = none;
  valid_from = 10;
  valid_until = none;
  known_at = 10;
  confidence = none;
  provenance = request.provenance;
  version = 1;
  supersedes = none;
  superseded_by = none;
  entity_links = [];
  stale = none;
  extractor_version = none;
  model_version = none;
  idempotency_key = some (codes "k");
  valid_rev_from = none;
  valid_rev_until = none;
  sys_created = some 10;
  sys_updated = some 10;
  sys_closed = none;
}

-- The put has claimed the slot of its key.
abbrev pub plane_1 : Plane
plane_1 =
    claim_slot 10 (codes "k") key_a request none (put_request_identity env request) empty_plane

pub puts : put env 10 key_a request empty_plane ≡ (ok (written first), plane_1)
unfolding parse trim starts_with ends_with contains_empty_segment utf8_len check_segments split
    trim_matches is_whitespace trim_start_matches utf8_width text_eq strip_prefix validate_put_shape
    validate_content attrs_bytes validate_confidence validate_embedding validate_interval
    validate_interval_after_defaults validate_put put put_prepared put_unseen put_new answer
    check_generated generation_for resolve_embedding_for_write resolve_claim active_generation
    newest put_idempotent put_attempts claim_slot committed new_memory find memory_key
    lookup_put_receipt lookup_put_receipt_expect keyed_receipt replay_slot has_keyed_memory
    put_request_identity idempotency_slot_id sorted
puts = refl

pub shapes : validate_put_shape env.host request env.limits ≡ ok path_acme
unfolding parse trim starts_with ends_with contains_empty_segment utf8_len check_segments split
    trim_matches is_whitespace trim_start_matches utf8_width text_eq strip_prefix validate_put_shape
    validate_content attrs_bytes validate_confidence validate_embedding
shapes = refl

pub other_shapes : validate_put_shape env.host other env.limits ≡ ok path_acme
unfolding parse trim starts_with ends_with contains_empty_segment utf8_len check_segments split
    trim_matches is_whitespace trim_start_matches utf8_width text_eq strip_prefix validate_put_shape
    validate_content attrs_bytes validate_confidence validate_embedding
other_shapes = refl

-- A plane with one record, and its supersession at the instant 20.
abbrev pub plane_2 : Plane
plane_2 = record empty_plane { memories = (key_a, first) ∷ [] }

abbrev pub revision : SupersedeRequest
revision = record {
  prior_id = id_of key_a;
  expected_version = 1;
  new = record other { idempotency_key = none };
  close_at = none;
}

abbrev pub second : MemoryRecord
second = record first {
  id = id_of key_b;
  content = other.content;
  valid_from = 20;
  known_at = 20;
  supersedes = some (id_of key_a);
  idempotency_key = none;
  sys_created = some 20;
  sys_updated = some 20;
}

abbrev pub closed : MemoryRecord
closed = record first {
  valid_until = some 20;
  sys_closed = some 20;
  version = 2;
  superseded_by = some (id_of key_b);
}

abbrev pub plane_3 : Plane
plane_3 = (supersede env 20 key_b revision plane_2).1

pub superseded : supersede env 20 key_b revision plane_2 ≡ (ok (written second), plane_3)
unfolding parse trim starts_with ends_with contains_empty_segment utf8_len check_segments split
    trim_matches is_whitespace trim_start_matches utf8_width text_eq strip_prefix validate_put_shape
    validate_content attrs_bytes validate_confidence validate_embedding validate_interval
    validate_interval_after_defaults validate_put supersede validate_supersede check_prior
    check_version generation_for resolve_embedding_for_write resolve_claim active_generation newest
    supersede_commit link_successor new_memory find memory_key update update_where
    conflict_from_memory
superseded = refl

pub find-prior : find (memory_key (id_of key_a)) plane_2.memories ≡ some first
unfolding find memory_key strip_prefix text_eq trim_matches trim_start_matches
find-prior = refl

pub find-closed : find (memory_key (id_of key_a)) plane_3.memories ≡ some closed
unfolding parse trim starts_with ends_with contains_empty_segment utf8_len check_segments split
    trim_matches is_whitespace trim_start_matches utf8_width text_eq strip_prefix validate_put_shape
    validate_content attrs_bytes validate_confidence validate_embedding validate_interval
    validate_interval_after_defaults validate_put supersede validate_supersede check_prior
    check_version generation_for resolve_embedding_for_write resolve_claim active_generation newest
    supersede_commit link_successor new_memory find memory_key update update_where
    conflict_from_memory
find-closed = refl

pub find-second : find key_b plane_3.memories ≡ some second
unfolding parse trim starts_with ends_with contains_empty_segment utf8_len check_segments split
    trim_matches is_whitespace trim_start_matches utf8_width text_eq strip_prefix validate_put_shape
    validate_content attrs_bytes validate_confidence validate_embedding validate_interval
    validate_interval_after_defaults validate_put supersede validate_supersede check_prior
    check_version generation_for resolve_embedding_for_write resolve_claim active_generation newest
    supersede_commit link_successor new_memory find memory_key update update_where
    conflict_from_memory
find-second = refl

-- The same supersession as a step, after a step that declares a generation.
Fresh-b : Fresh key_b plane_2
unfolding memory_key find strip_prefix text_eq trim_matches trim_start_matches
Fresh-b = record { readable = refl; free = refl; unreferenced = refl }

abbrev pub plane_4 : Plane
plane_4 = (supersede_commit 20 key_b revision 20 revision.new none plane_2).1

pub revising_run : Run env 15 plane_2 20 plane_4
unfolding validate_interval_after_defaults
revising_run = next here (omega arith) (supersedes key_b revision 20 revision.new none Fresh-b refl)

-- A read of both records as of the valid time 25 and the system time 15.
abbrev pub late_look : ReadRequest
late_look = record {
  ids = id_of key_a ∷ id_of key_b ∷ [];
  scope = codes "org/acme";
  scope_match = exact;
  as_of = some 25;
  known_as_of = none;
  sys_as_of = some 15;
}

pub reads_b : memory_key (id_of key_b) ≡ key_b
unfolding memory_key strip_prefix text_eq trim_matches trim_start_matches
reads_b = refl

pub may_look : validate_read late_look env.limits ≡ ok path_acme
unfolding validate_read parse trim starts_with ends_with contains_empty_segment utf8_len
    check_segments split trim_matches is_whitespace
may_look = refl

pub inside_acme : matches path_acme first.scope exact ≡ true
unfolding matches text_eq
inside_acme = refl

-- The record of the keyed put, with an annotation since.
abbrev pub annotated : MemoryRecord
annotated = record first { version = 2; sys_updated = some 25; stale = some true }

abbrev pub plane_annotated : Plane
plane_annotated = record plane_1 { memories = (key_a, annotated) ∷ [] }

pub find-annotated :
    find (memory_key (id_of (memory_key (id_of key_a)))) plane_annotated.memories ≡ some annotated
unfolding find memory_key strip_prefix text_eq trim_matches trim_start_matches
find-annotated = refl

-- The supersession of the keyed record by another client.
Fresh-b_keyed : Fresh key_b plane_1
unfolding memory_key find strip_prefix text_eq trim_matches trim_start_matches claim_slot new_memory
Fresh-b_keyed = record { readable = refl; free = refl; unreferenced = refl }

abbrev pub plane_later : Plane
plane_later = (supersede_commit 20 key_b revision 20 revision.new none plane_1).1

pub later_run : Run env 10 plane_1 20 plane_later
unfolding validate_interval_after_defaults
later_run =
    next here (omega arith) (supersedes key_b revision 20 revision.new none Fresh-b_keyed refl)

pub later_run_spares : (k : Text) → Erases k later_run → ⊥
unfolding later_run
later_run_spares k (inl gone) = gone
later_run_spares k (inr gone) = absurd cc
