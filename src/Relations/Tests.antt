-- ===== src/Relations/Tests.antt =====
-- The theorems on relation predicates at concrete edges and names.
use nomiso.Prelude.{◌≡◌, ◌↔◌, some}
use nomiso.Prelude.Text.{codes}
use nomiso.Errors.{ok}
use nomiso.Endpoints.{memory, entity}
use nomiso.Relations.{
  mentions, check_endpoints, RelationPredicate, EpistemicStatus, RelationshipState, parse_predicate,
  parse_status, parse_lifecycle, as_str, status_str, lifecycle_str,
}
use nomiso.Relations.Registry.{Accepts, check_endpoints_iff}
use nomiso.Relations.Names.{parse-eq_some_iff}

check_endpoints_iff_example :
    (check_endpoints mentions memory entity ≡ ok tt) ↔ Accepts mentions memory entity
check_endpoints_iff_example = check_endpoints_iff mentions memory entity

parse-eq_some_iff_example :
    ((p : RelationPredicate)
      → (parse_predicate (codes "mentions") ≡ some p) ↔ (codes "mentions" ≡ as_str p))
    × ((e : EpistemicStatus)
        → (parse_status (codes "mentions") ≡ some e) ↔ (codes "mentions" ≡ status_str e))
    × ((l : RelationshipState)
        → (parse_lifecycle (codes "mentions") ≡ some l) ↔ (codes "mentions" ≡ lifecycle_str l))
parse-eq_some_iff_example = parse-eq_some_iff (codes "mentions")
