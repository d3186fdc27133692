-- ===== src/Plane/Walk.antt =====
-- crates/nomiso-store/src/surreal_store.rs and crates/nomiso-core/src/relationship.rs: the request of
-- a traversal, its budgets, and the edges that lead on from a record.
use nomiso.Prelude.{
  ℕ, min, Bool, ◌&&◌, ◌||◌, List, [], ◌∷◌, ◌++◌, Option, ltb, if◌then◌else◌, map, filter, any,
  unwrap_or,
}
use nomiso.Prelude.Text.{Text, text_eq, text_leb, text_mem}
use nomiso.Prelude.Sort.{sort}
use nomiso.Errors.{Error}
use nomiso.Endpoints.{EndpointKind, EndpointRef}
use nomiso.Relations.{RelationPredicate, spec, as_str, same_kind, RelationshipState, lifecycle_str}
use nomiso.Memories.{TraverseDirection, outward, inward, both}
use nomiso.Plane.{RelationshipRecord, RelationshipRow}

pub record TraverseBudget : Type 0 where
  pub max_depth : Option ℕ
  pub max_visited : Option ℕ
  pub max_edges : Option ℕ
  pub deadline_ms : Option ℕ

pub record TraverseRequest : Type 0 where
  pub scope : Text
  pub seeds : List EndpointRef
  pub predicates : Option (List RelationPredicate)
  pub direction : TraverseDirection
  pub states : Option (List RelationshipState)
  pub budget : TraverseBudget

pub record TraverseNode : Type 0 where
  pub endpoint : EndpointRef
  pub depth : ℕ
  pub path : List Text

-- The time that the search took is left out.
pub record TraverseResult : Type 0 where
  pub nodes : List TraverseNode
  pub edges : List RelationshipRecord
  pub truncated : List Text
  pub depth_reached : ℕ
  pub visited : ℕ
  pub edges_scanned : ℕ

abbrev pub cap_max_depth : ℕ
cap_max_depth = 8

abbrev pub cap_max_visited : ℕ
cap_max_visited = 4096

abbrev pub cap_max_edges : ℕ
cap_max_edges = 8192

abbrev pub clamp : ℕ → ℕ → ℕ → ℕ
clamp lo hi x = if ltb x lo then lo else if ltb hi x then hi else x

-- The effective budgets of a request.
unfoldable pub depth_bound : TraverseBudget → ℕ
depth_bound b = min (unwrap_or b.max_depth 2) cap_max_depth

unfoldable pub visited_bound : TraverseBudget → ℕ
visited_bound b = clamp 1 cap_max_visited (unwrap_or b.max_visited 128)

unfoldable pub edge_bound : TraverseBudget → ℕ
edge_bound b = clamp 1 cap_max_edges (unwrap_or b.max_edges 256)

pub record Frame : Type 0 where
  pub kind : EndpointKind
  pub key : Text
  pub depth : ℕ
  pub path : List Text

-- The variables of the search.
pub record Search : Type 0 where
  pub visited : List (EndpointKind × Text)
  pub queue : List Frame
  pub nodes : List TraverseNode
  pub edges : List RelationshipRecord
  pub edge_seen : List Text
  pub truncated : List Text
  pub edges_scanned : ℕ
  pub depth_reached : ℕ

-- How a part of the loop ends: it goes on, it breaks out of the search, or it fails.
pub data Flow : Type 0 where
  running : Search → Flow
  halted : Search → Flow
  failed : Error → Flow

abbrev pub mark : Text → Search → Search
mark why s = record s {
  truncated = if text_mem why s.truncated then s.truncated else s.truncated ++ why ∷ [];
}

unfoldable pub was_visited : EndpointKind → Text → List (EndpointKind × Text) → Bool
was_visited kind key visited = any (λ (k, t). same_kind k kind && text_eq t key) visited

abbrev pub is_end : EndpointKind → Text → EndpointRef → Bool
is_end kind key end = same_kind end.kind kind && text_eq end.id key

-- The fixed parts of a search: the predicates, those of them that are symmetric, and the bounds.
pub record Plan : Type 0 where
  pub scope : Text
  pub preds : List RelationPredicate
  pub states : List RelationshipState
  pub direction : TraverseDirection
  pub max_depth : ℕ
  pub max_visited : ℕ
  pub max_edges : ℕ

abbrev pub names : List RelationPredicate → List Text
names preds = map as_str preds

abbrev pub symmetric_names : Plan → List Text
symmetric_names p = names (filter (λ q. (spec q).symmetric) p.preds)

-- The condition of the scan, `follow_where`
unfoldable pub follows : Plan → EndpointKind → Text → RelationshipRecord → Bool
follows p kind key r =
    let along = text_mem (as_str r.predicate) (names p.preds) in
    let symmetric = text_mem (as_str r.predicate) (symmetric_names p) in
    let subject = is_end kind key r.subject in
    let object = is_end kind key r.object in
    elim p.direction [
      | outward ↦ (along && subject) || (symmetric && object)
      | inward ↦ (along && object) || (symmetric && subject)
      | both ↦ along && (subject || object)
    ]

-- The rows of a scan, in the order of their ids.
unfoldable pub eligible :
    Plan → EndpointKind → Text → List (Text × RelationshipRow) → List RelationshipRecord
unfolding follows
eligible p kind key rows =
    filter
      (λ r.
        text_eq r.scope p.scope
        && (text_mem (lifecycle_str r.state) (map lifecycle_str p.states) && follows p kind key r))
      (map (λ (k, r). r.edge) (sort (λ (a, _) (b, _). text_leb a b) rows))

-- Where an edge leads from a frame.
unfoldable pub nexts : Plan → RelationshipRecord → Bool → Bool → List EndpointRef
nexts p r is_subject is_object =
    let symmetric = text_mem (as_str r.predicate) (symmetric_names p) in
    elim p.direction [
      | outward ↦
          (if is_subject then r.object ∷ [] else [])
          ++ (if symmetric && is_object then r.subject ∷ [] else [])
      | inward ↦
          (if is_object then r.subject ∷ [] else [])
          ++ (if symmetric && is_subject then r.object ∷ [] else [])
      | both ↦
          (if is_subject then r.object ∷ [] else []) ++ (if is_object then r.subject ∷ [] else [])
    ]
