-- ===== src/Relations.antt =====
-- crates/nomiso-core/src/relationship.rs: the registry of relation predicates, and the names of
-- their epistemic and lifecycle states.
pub mod Names
pub mod Registry
mod Tests
use nomiso.Prelude.{
  Bool, true, false, ◌||◌, not, List, [], ◌∷◌, Option, none, some, if◌then◌else◌, any,
}
use nomiso.Prelude.Text.{Text, codes, text_eq}
use nomiso.Errors.{Result, ok, invalid_op, refuse_if, ◌>>=◌, ◌>>◌}
use nomiso.Endpoints
use nomiso.Endpoints.{EndpointKind, memory, entity, artifact, span}

pub data RelationPredicate : Type 0 where
  supports derived_from contradicts supersedes mentions depends_on applies_to observed_in attempted
        resolved_by :
      RelationPredicate

pub record RelationSpec : Type 0 where
  pub predicate : RelationPredicate
  pub subject_kinds : List EndpointKind
  pub object_kinds : List EndpointKind
  pub symmetric : Bool
  pub foundation_only : Bool

-- `RelationPredicate::as_str` and `RelationPredicate::parse`
abbrev pub as_str : RelationPredicate → Text
as_str supports = codes "supports"
as_str derived_from = codes "derived_from"
as_str contradicts = codes "contradicts"
as_str supersedes = codes "supersedes"
as_str mentions = codes "mentions"
as_str depends_on = codes "depends_on"
as_str applies_to = codes "applies_to"
as_str observed_in = codes "observed_in"
as_str attempted = codes "attempted"
as_str resolved_by = codes "resolved_by"

unfoldable pub parse_predicate : Text → Option RelationPredicate
parse_predicate s =
    if text_eq s (codes "supports")
    then some supports
    else if text_eq s (codes "derived_from")
    then some derived_from
    else if text_eq s (codes "contradicts")
    then some contradicts
    else if text_eq s (codes "supersedes")
    then some supersedes
    else if text_eq s (codes "mentions")
    then some mentions
    else if text_eq s (codes "depends_on")
    then some depends_on
    else if text_eq s (codes "applies_to")
    then some applies_to
    else if text_eq s (codes "observed_in")
    then some observed_in
    else if text_eq s (codes "attempted")
    then some attempted
    else if text_eq s (codes "resolved_by")
    then some resolved_by
    else none

abbrev pub spec_of :
    RelationPredicate → List EndpointKind → List EndpointKind → Bool → Bool → RelationSpec
spec_of p subjects objects symmetric foundation_only = record {
  predicate = p;
  subject_kinds = subjects;
  object_kinds = objects;
  symmetric = symmetric;
  foundation_only = foundation_only;
}

-- `RelationPredicate::spec`, with the lists that the source names MEM, ENT and so on.
unfoldable pub spec : RelationPredicate → RelationSpec
spec supports = spec_of supports (span ∷ memory ∷ []) (memory ∷ []) false false
spec derived_from = spec_of derived_from (memory ∷ []) (span ∷ artifact ∷ memory ∷ []) false false
spec contradicts = spec_of contradicts (memory ∷ []) (memory ∷ []) true false
spec supersedes = spec_of supersedes (memory ∷ []) (memory ∷ []) false true
spec mentions = spec_of mentions (memory ∷ []) (entity ∷ []) false false
spec depends_on =
    spec_of depends_on (entity ∷ memory ∷ []) (entity ∷ artifact ∷ memory ∷ []) false false
spec applies_to = spec_of applies_to (memory ∷ []) (entity ∷ artifact ∷ []) false false
spec observed_in = spec_of observed_in (memory ∷ []) (span ∷ []) false false
spec attempted = spec_of attempted (memory ∷ []) (memory ∷ []) false false
spec resolved_by = spec_of resolved_by (memory ∷ []) (memory ∷ []) false false

-- `kinds.contains(&kind)`
abbrev pub same_kind : EndpointKind → EndpointKind → Bool
same_kind memory memory = true
same_kind entity entity = true
same_kind artifact artifact = true
same_kind span span = true
same_kind _ _ = false

unfoldable pub contains : List EndpointKind → EndpointKind → Bool
contains kinds kind = any (λ k. same_kind k kind) kinds

unfoldable pub check_endpoints : RelationPredicate → EndpointKind → EndpointKind → Result (Unit {0})
check_endpoints self subject object = do
  refuse_if (spec self).foundation_only (invalid_op "predicate is foundation-maintained lineage")
  refuse_if (not (contains (spec self).subject_kinds subject))
      (invalid_op "predicate does not accept subject kind")
  refuse_if (not (contains (spec self).object_kinds object))
      (invalid_op "predicate does not accept object kind")

pub data EpistemicStatus : Type 0 where
  reported inferred verified disputed unknown : EpistemicStatus

-- `EpistemicStatus::as_str` and `EpistemicStatus::parse`
abbrev pub status_str : EpistemicStatus → Text
status_str reported = codes "reported"
status_str inferred = codes "inferred"
status_str verified = codes "verified"
status_str disputed = codes "disputed"
status_str unknown = codes "unknown"

unfoldable pub parse_status : Text → Option EpistemicStatus
parse_status s =
    if text_eq s (codes "reported")
    then some reported
    else if text_eq s (codes "inferred")
    then some inferred
    else if text_eq s (codes "verified")
    then some verified
    else if text_eq s (codes "disputed")
    then some disputed
    else if text_eq s (codes "unknown")
    then some unknown
    else none

pub data RelationshipState : Type 0 where
  active closed stale purged : RelationshipState

-- `RelationshipState::as_str` and `RelationshipState::parse`
abbrev pub lifecycle_str : RelationshipState → Text
lifecycle_str active = codes "active"
lifecycle_str closed = codes "closed"
lifecycle_str stale = codes "stale"
lifecycle_str purged = codes "purged"

unfoldable pub parse_lifecycle : Text → Option RelationshipState
parse_lifecycle s =
    if text_eq s (codes "active")
    then some active
    else if text_eq s (codes "closed")
    then some closed
    else if text_eq s (codes "stale")
    then some stale
    else if text_eq s (codes "purged")
    then some purged
    else none
