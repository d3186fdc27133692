-- ===== src/Plane/Traverse.antt =====
-- crates/nomiso-store/src/surreal_store.rs: `traverse`, the bounded search along relationships, with
-- the request and the budgets of crates/nomiso-core/src/relationship.rs.
pub mod Budgets
pub mod Ends
pub mod Bounded
use nomiso.Prelude.{
  ℕ, zero, suc, ◌+◌, ◌-◌, min, Bool, true, false, not, ◌&&◌, ◌||◌, List, [], ◌∷◌, ◌++◌, Option,
  none, some, ◌==◌, ltb, leb, if◌then◌else◌, map, filter, any, length, take, is_empty, unwrap_or,
}
use nomiso.Prelude.Text.{Text, codes, text_eq, text_leb, text_mem}
use nomiso.Prelude.Sort.{sort}
use nomiso.Errors.{
  Error, Result, ok, err, invalid_op, not_found, scope_denied, refuse_if, ◌>>=◌, ◌>>◌,
}
use nomiso.Scope
use nomiso.Endpoints.{EndpointKind, EndpointRef, bare_key}
use nomiso.Relations.{
  RelationPredicate, supports, derived_from, contradicts, mentions, depends_on, applies_to,
  observed_in, attempted, resolved_by, spec, as_str, same_kind, RelationshipState, active,
  lifecycle_str,
}
use nomiso.Memories.{TraverseDirection, outward, inward, both}
use nomiso.Plane.{RelationshipRecord, RelationshipRow, Plane}
use nomiso.Plane.Walk.{
  TraverseBudget, TraverseRequest, TraverseNode, TraverseResult, cap_max_depth, cap_max_visited,
  cap_max_edges, clamp, depth_bound, visited_bound, edge_bound, Frame, Search, Flow, running,
  halted, failed, mark, was_visited, is_end, Plan, names, symmetric_names, follows, eligible, nexts,
}

-- An endpoint that was not visited becomes a node and a frame.
unfoldable pub reach : Frame → Text → EndpointRef → Text → Search → Search
reach frame edge_id next key s = record s {
  visited = s.visited ++ (next.kind, key) ∷ [];
  nodes =
      s.nodes
      ++ record { endpoint = next; depth = frame.depth + 1; path = frame.path ++ edge_id ∷ [] }
        ∷ [];
  queue =
      s.queue
      ++ record {
        kind = next.kind;
        key = key;
        depth = frame.depth + 1;
        path = frame.path ++ edge_id ∷ [];
      }
        ∷ [];
}

unfoldable pub offer : Plan → Frame → Text → EndpointRef → Search → Flow
unfolding reach
offer p frame edge_id next s = elim (bare_key next) [
  | err e ↦ failed e
  | ok key ↦
      if leb p.max_visited (length s.visited)
      then halted (mark (codes "visited") s)
      else if was_visited next.kind key s.visited
      then running s
      else running (reach frame edge_id next key s)
]

unfoldable pub offer_all : Plan → Frame → Text → List EndpointRef → Search → Flow
offer_all p frame edge_id [] s = running s
offer_all p frame edge_id (next ∷ rest) s = elim (offer p frame edge_id next s) [
  | running t ↦ offer_all p frame edge_id rest t
  | halted t ↦ halted t
  | failed e ↦ failed e
]

-- `rec.subject.kind == frame.kind && rec.subject.bare_key()? == frame.key`
abbrev pub ends_at : Frame → EndpointRef → Result Bool
ends_at frame end =
    if same_kind end.kind frame.kind
    then (bare_key end >>= λ key. ok (text_eq key frame.key))
    else ok false

abbrev pub counted : Search → Search
counted s = record s { edges_scanned = s.edges_scanned + 1 }

abbrev pub recorded : RelationshipRecord → Search → Search
recorded r s = record s { edge_seen = r.id ∷ s.edge_seen; edges = s.edges ++ r ∷ [] }

unfoldable pub scan_row : Plan → Frame → RelationshipRecord → Search → Flow
scan_row p frame r s =
    if text_mem r.id s.edge_seen then running (counted s) else elim (ends_at frame r.subject) [
      | err e ↦ failed e
      | ok is_subject ↦ elim (ends_at frame r.object) [
        | err e ↦ failed e
        | ok is_object ↦
            offer_all p frame r.id (nexts p r is_subject is_object) (recorded r (counted s))
      ]
    ]

unfoldable pub scan_rows : Plan → Frame → List RelationshipRecord → Search → Flow
scan_rows p frame [] s = running s
scan_rows p frame (r ∷ rows) s = elim (scan_row p frame r s) [
  | running t ↦ scan_rows p frame rows t
  | halted t ↦ halted t
  | failed e ↦ failed e
]

-- The check at the end of a round.
unfoldable pub close_round : Plan → Flow → Flow
close_round p (running s) =
    if leb p.max_edges s.edges_scanned then halted (mark (codes "edges") s) else running s
close_round p (halted s) = halted s
close_round p (failed e) = failed e

-- The scan of a frame within what is left of the budget; one row more shows that edges were cut.
unfoldable pub scan_frame : Plan → Frame → ℕ → List RelationshipRecord → Search → Flow
scan_frame p frame remaining rows s = close_round p (
    scan_rows p frame (take remaining rows)
      (if ltb remaining (length rows) then mark (codes "edges") s else s))

abbrev pub deepened : Frame → Search → Search
deepened frame s = record s {
  depth_reached = if ltb s.depth_reached frame.depth then frame.depth else s.depth_reached;
}

-- One round: `late` says that the deadline has passed.
unfoldable pub round : Plan → List (Text × RelationshipRow) → Bool → Frame → Search → Flow
round p rows late frame s =
    let s' = deepened frame s in
    let here = eligible p frame.kind frame.key rows in
    if leb p.max_depth frame.depth
    then running (if is_empty here then s' else mark (codes "depth") s')
    else if late
    then halted (mark (codes "deadline") s')
    else if p.max_edges - s.edges_scanned == 0
    then halted (mark (codes "edges") s')
    else scan_frame p frame (p.max_edges - s.edges_scanned) here s'

-- The loop on fuel; the clock is a test for each count of rounds left.
unfoldable pub search_loop :
    Plan → List (Text × RelationshipRow) → (ℕ → Bool) → ℕ → Search → Option (Result Search)
search_loop p rows late zero s = if is_empty s.queue then some (ok s) else none
search_loop p rows late (suc fuel) s = elim s.queue [
  | [] ↦ some (ok s)
  | frame ∷ rest ↦ elim (round p rows (late fuel) frame (record s { queue = rest })) [
    | running t ↦ search_loop p rows late fuel t
    | halted t ↦ some (ok t)
    | failed e ↦ some (err e)
  ]
]

-- `endpoint_scope_version`, of which the scope counts here: a parameter for the four tables.
abbrev pub check_seed :
    (EndpointKind → Text → Option Text) → Text → EndpointKind → Text → Result (Unit {0})
check_seed scope_of scope kind key = elim (scope_of kind key) [
  | none ↦ err (not_found "endpoint")
  | some s ↦ refuse_if (not (text_eq s scope)) (scope_denied "endpoint is not in scope")
]

abbrev pub seeded : EndpointKind → Text → Search → Search
seeded kind key s = if was_visited kind key s.visited then s else record s {
  visited = s.visited ++ (kind, key) ∷ [];
  queue = s.queue ++ record { kind = kind; key = key; depth = 0; path = [] } ∷ [];
}

unfoldable pub seed_all :
    (EndpointKind → Text → Option Text) → Text → List EndpointRef → Search → Result Search
seed_all scope_of scope [] s = ok s
seed_all scope_of scope (seed ∷ seeds) s = do
  key ← bare_key seed
  check_seed scope_of scope seed.kind key
  seed_all scope_of scope seeds (seeded seed.kind key s)

abbrev pub all_predicates : List RelationPredicate
all_predicates =
    supports ∷ derived_from ∷ contradicts ∷ mentions ∷ depends_on ∷ applies_to ∷ observed_in
    ∷ attempted ∷ resolved_by ∷ []

unfoldable pub chosen : Option (List RelationPredicate) → Result (List RelationPredicate)
chosen none = ok all_predicates
chosen (some []) = ok all_predicates
chosen (some (q ∷ preds)) =
    if any (λ q. (spec q).foundation_only) (q ∷ preds)
    then err (invalid_op "foundation-maintained predicates are not traversable")
    else ok (q ∷ preds)

abbrev pub blank : Search
blank = record {
  visited = [];
  queue = [];
  nodes = [];
  edges = [];
  edge_seen = [];
  truncated = [];
  edges_scanned = 0;
  depth_reached = 0;
}

unfoldable pub plan_of : TraverseRequest → Text → List RelationPredicate → Plan
plan_of req scope preds = record {
  scope = scope;
  preds = preds;
  states = unwrap_or req.states (active ∷ []);
  direction = req.direction;
  max_depth = depth_bound req.budget;
  max_visited = visited_bound req.budget;
  max_edges = edge_bound req.budget;
}

unfoldable pub report : Search → TraverseResult
report s = record {
  nodes = s.nodes;
  edges = s.edges;
  truncated =
      if not (is_empty s.queue) && is_empty s.truncated then codes "visited" ∷ [] else s.truncated;
  depth_reached = s.depth_reached;
  visited = length s.visited;
  edges_scanned = s.edges_scanned;
}

abbrev pub reported : Option (Result Search) → Option (Result TraverseResult)
reported none = none
reported (some (err e)) = some (err e)
reported (some (ok s)) = some (ok (report s))

-- The start of a search: its plan and its seeds.
unfoldable pub prepare :
    (EndpointKind → Text → Option Text) → TraverseRequest → Result (Plan × Search)
prepare scope_of req = do
  path ← Scope.parse req.scope
  refuse_if (is_empty req.seeds) (invalid_op "traverse requires at least one seed")
  preds ← chosen req.predicates
  s ← seed_all scope_of path.as_str req.seeds blank
  ok (plan_of req path.as_str preds, s)

-- Every visited endpoint is queued once, so the seeds and the visited bound are fuel enough.
unfoldable pub traverse_on :
    (EndpointKind → Text → Option Text)
    → (ℕ → Bool)
    → ℕ
    → TraverseRequest
    → Plane
    → Option (Result TraverseResult)
traverse_on scope_of late fuel req s = elim (prepare scope_of req) [
  | err e ↦ some (err e)
  | ok (p, start) ↦ reported (search_loop p s.relationships late fuel start)
]

abbrev pub fuel_for : TraverseRequest → ℕ
fuel_for req = length req.seeds + visited_bound req.budget
