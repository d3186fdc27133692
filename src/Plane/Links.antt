-- ===== src/Plane/Links.antt =====
-- A relationship on concrete data: it is put, and then closed.
use nomiso.Prelude.{◌≡◌, refl, true, false, [], ◌∷◌, none, some}
use nomiso.Prelude.Text.{
  decimal, codes, text_eq, trim, trim_matches, is_whitespace, strip_prefix, starts_with, ends_with,
  utf8_len, trim_start_matches, utf8_width,
}
use nomiso.Prelude.Table.{find}
use nomiso.Errors.{ok}
use nomiso.Scope.{parse, split, contains_empty_segment, check_segments}
use nomiso.Endpoints.{memory, bare_key}
use nomiso.Relations.{supports, verified, spec, contains, check_endpoints}
use nomiso.Relations
use nomiso.Plane.{Plane, RelationshipRecord}
use nomiso.Plane.Checks.{
  Lookup, endpoint_scope_version, check_endpoint, check_revision, check_current, table_bare_key,
}
use nomiso.Plane.Edges.{
  PutRelationshipRequest, Examined, live_of, resolve_evidence, examine, new_edge, live_key_of,
  relate, relate_commit, put_relationship, relationship_by_live_key,
}
use nomiso.Plane.Revisions.{
  UpdateRelationshipRequest, get_relationship, check_state, update_commit, update_relationship,
  updated_row,
}
use nomiso.Plane.Scenario.{key_a, key_b, first, second, plane_2}

abbrev pub nowhere : Lookup
nowhere kind key = none

abbrev pub plane_a : Plane
plane_a = record plane_2 { memories = (key_a, first) ∷ (key_b, second) ∷ [] }

abbrev pub relation : PutRelationshipRequest
relation = record {
  scope = codes "org/acme";
  predicate = supports;
  subject = record { kind = memory; id = codes "memory:a" };
  object = record { kind = memory; id = codes "b" };
  subject_rev = some 1;
  object_rev = none;
  epistemic = verified;
  evidence = [];
  valid_from = none;
  valid_until = none;
  producer = none;
  dedupe = true;
}

abbrev pub link : RelationshipRecord
link = record {
  id = codes "relationship:r";
  scope = codes "org/acme";
  predicate = supports;
  predicate_version = 1;
  subject = record { kind = memory; id = key_a };
  object = record { kind = memory; id = key_b };
  subject_rev = some 1;
  object_rev = none;
  epistemic = verified;
  evidence = [];
  state = Relations.active;
  state_reason = none;
  valid_from = 30;
  valid_until = none;
  producer = none;
  version = 1;
  created_at = 30;
  updated_at = 30;
}

abbrev pub plane_b : Plane
plane_b = (put_relationship nowhere 30 (codes "r") relation plane_a).1

pub relates :
    put_relationship nowhere 30 (codes "r") relation plane_a
    ≡ (ok (record { edge = link; replayed = false }), plane_b)
unfolding parse trim starts_with ends_with contains_empty_segment utf8_len check_segments split
    trim_matches is_whitespace trim_start_matches utf8_width text_eq strip_prefix bare_key
    put_relationship examine check_endpoints spec contains check_revision check_endpoint
    endpoint_scope_version find check_current resolve_evidence relate relationship_by_live_key
    relate_commit new_edge live_key_of
relates = refl

-- What the checks of the request find, then and later.
abbrev pub found_ends : Examined
found_ends = record {
  scope = codes "org/acme";
  subject_key = key_a;
  object_key = key_b;
  evidence = [];
}

pub passes_again : examine (endpoint_scope_version nowhere plane_b) relation ≡ ok found_ends
unfolding parse trim starts_with ends_with contains_empty_segment utf8_len check_segments split
    trim_matches is_whitespace trim_start_matches utf8_width text_eq strip_prefix bare_key
    put_relationship examine check_endpoints spec contains check_revision check_endpoint
    endpoint_scope_version find check_current resolve_evidence relate relationship_by_live_key
    relate_commit new_edge live_key_of
passes_again = refl

pub holds_link :
    relationship_by_live_key (live_of relation found_ends) plane_b.relationships ≡ some link
unfolding parse trim starts_with ends_with contains_empty_segment utf8_len check_segments split
    trim_matches is_whitespace trim_start_matches utf8_width text_eq strip_prefix bare_key
    put_relationship examine check_endpoints spec contains check_revision check_endpoint
    endpoint_scope_version find check_current resolve_evidence relate relationship_by_live_key
    relate_commit new_edge live_key_of decimal
holds_link = refl

abbrev pub plane_c : Plane
plane_c = record plane_a {
  relationships = (codes "r", record { edge = link; live_key = some (codes "A|") }) ∷ [];
}

abbrev pub closing : UpdateRelationshipRequest
closing = record {
  id = codes "relationship:r";
  scope = codes "org/acme";
  expected_version = 1;
  epistemic = none;
  state = some Relations.closed;
  state_reason = some (codes "no longer true");
  valid_until = none;
  evidence = none;
}

abbrev pub plane_d : Plane
plane_d = (update_relationship 40 closing plane_c).1

abbrev pub closed_link : RelationshipRecord
closed_link = record link {
  state = Relations.closed;
  state_reason = some (codes "no longer true");
  version = 2;
  updated_at = 40;
}

pub revises : update_relationship 40 closing plane_c ≡ (ok closed_link, plane_d)
unfolding parse trim starts_with ends_with contains_empty_segment utf8_len check_segments split
    trim_matches is_whitespace trim_start_matches utf8_width text_eq strip_prefix
    update_relationship get_relationship table_bare_key find check_state update_commit updated_row
revises = refl
