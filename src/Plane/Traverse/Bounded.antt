-- ===== src/Plane/Traverse/Bounded.antt =====
-- crates/nomiso-store/src/surreal_store.rs: a whole `traverse` ends, with a result inside the budgets
-- of crates/nomiso-core/src/relationship.rs.
use nomiso.Prelude.{
  ℕ, suc, ◌+◌, ◌≤◌, ◌≡◌, refl, ap, sym, ◌∙◌, inl, inr, subst, Bool, List, [], ◌∷◌, Option, none,
  some, arith, Bool-cases, length, length-append, All, All-append, unwrap_or, min, is_empty,
}
use nomiso.Prelude.Text.{Text}
use nomiso.Errors.{Result, ok, err, Result-cases, refuse_if, invalid_op}
use nomiso.Scope
use nomiso.Endpoints.{EndpointKind, EndpointRef, bare_key}
use nomiso.Relations.{RelationPredicate}
use nomiso.Plane.{RelationshipRow, Plane}
use nomiso.Plane.Traverse.{
  search_loop, check_seed, seeded, seed_all, chosen, blank, plan_of, report, reported, prepare,
  traverse_on, fuel_for,
}
use nomiso.Plane.Walk.{
  TraverseBudget, TraverseRequest, TraverseResult, Frame, Search, was_visited, Plan, depth_bound,
  visited_bound, edge_bound, clamp,
}
use nomiso.Plane.Traverse.Budgets.{FrameWithin, NodeWithin, Fits, work}
use nomiso.Plane.Traverse.Ends.{Ends, search_loop-Ends}

clamp-within : (lo hi x : ℕ) → lo ≤ hi → (lo ≤ clamp lo hi x) × (clamp lo hi x ≤ hi)
clamp-within lo hi x h = ground arith

min-right : (a b : ℕ) → min a b ≤ b
min-right a b = omega arith

-- What a report keeps to: the nodes, the edges, the depth and the counts.
abbrev pub Bounded : TraverseRequest → TraverseResult → Type 0
Bounded req r =
    All (NodeWithin (depth_bound req.budget)) r.nodes
    × (r.depth_reached ≤ depth_bound req.budget)
    × (length r.edges ≤ r.edges_scanned)
    × (r.edges_scanned ≤ edge_bound req.budget)
    × (r.visited ≤ length req.seeds + visited_bound req.budget)

abbrev pub BoundedIfOk : TraverseRequest → Result TraverseResult → Type 0
BoundedIfOk req (ok r) = Bounded req r
BoundedIfOk req (err e) = Unit

-- The search before its first round: every visited endpoint waits in the queue.
record Waits (n : ℕ) (s : Search) : Type 0 where
  visited : length s.visited ≤ n
  queue : length s.queue ≡ length s.visited
  frames : All (λ (f : Frame). (f.depth ≡ 0) × (f.path ≡ [])) s.queue
  nodes : s.nodes ≡ []
  edges : s.edges ≡ []
  scanned : s.edges_scanned ≡ 0
  depth : s.depth_reached ≡ 0

seeded-Waits :
    (n : ℕ) (kind : EndpointKind) (key : Text) (s : Search)
    → Waits n s
    → Waits (suc n) (seeded kind key s)
seeded-Waits n kind key s w =
    let few = w.visited in
    elim (Bool-cases (was_visited kind key s.visited)) [
      | inl a ↦ rw a (record {
        visited = omega arith;
        queue = w.queue;
        frames = w.frames;
        nodes = w.nodes;
        edges = w.edges;
        scanned = w.scanned;
        depth = w.depth;
      })
      | inr a ↦
          let f : Frame = record { kind = kind; key = key; depth = 0; path = [] } in
          let longer = length-append s.visited ((kind, key) ∷ []) in
          let queued = length-append s.queue (f ∷ []) in
          let same = w.queue in
          rw a (record {
            visited = omega arith;
            queue = omega arith;
            frames =
                All-append (λ (f : Frame). (f.depth ≡ 0) × (f.path ≡ [])) s.queue (f ∷ []) w.frames
                  ((refl, refl), tt);
            nodes = w.nodes;
            edges = w.edges;
            scanned = w.scanned;
            depth = w.depth;
          })
    ]

abbrev WaitsIfOk : ℕ → Result Search → Type 0
WaitsIfOk n (ok s) = Waits n s
WaitsIfOk n (err e) = Unit

module _ (scope_of : EndpointKind → Text → Option Text) (scope : Text) where
  seed_all-Waits :
      (seeds : List EndpointRef) (n : ℕ) (s : Search)
      → Waits n s
      → WaitsIfOk (length seeds + n) (seed_all scope_of scope seeds s)
  unfolding seed_all
  seed_all-Waits [] n s w =
      let same : n ≡ 0 + n = omega arith in subst (λ (m : ℕ). Waits m s) same w
  seed_all-Waits (seed ∷ seeds) n s w = elim (Result-cases (bare_key seed)) [
    | inr (x, a) ↦ rw (a, seed_all) tt
    | inl (key, a) ↦ elim (Result-cases (check_seed scope_of scope seed.kind key)) [
      | inr (x, b) ↦ rw (a, b, seed_all) tt
      | inl (u, b) ↦
          let after =
            seed_all-Waits seeds (suc n) (seeded seed.kind key s)
              (seeded-Waits n seed.kind key s w) in
          let moved : length seeds + suc n ≡ suc (length seeds) + n = omega arith in
          rw (a, b, seed_all)
            (subst (λ (m : ℕ). WaitsIfOk m (seed_all scope_of scope seeds (seeded seed.kind key s)))
              moved after)
    ]
  ]

blank-Waits : Waits 0 blank
blank-Waits = record {
  visited = omega arith;
  queue = refl;
  frames = tt;
  nodes = refl;
  edges = refl;
  scanned = refl;
  depth = refl;
}

at_start-within :
    (d : ℕ) (q : List Frame)
    → All (λ (f : Frame). (f.depth ≡ 0) × (f.path ≡ [])) q
    → All (FrameWithin d) q
at_start-within d [] k = tt
at_start-within d (f ∷ q) ((a, b), k) =
    ((subst (λ (n : ℕ). n ≤ d) (sym a) (omega arith), ap length b ∙ sym a), at_start-within d q k)

-- The plan of a request, its first state, and what the loop can do with them.
Waits-Fits :
    (req : TraverseRequest) (scope : Text) (preds : List RelationPredicate) (s : Search)
    → Waits (length req.seeds + 0) s
    → Fits (plan_of req scope preds) (fuel_for req) s
      × (s.edges_scanned ≤ edge_bound req.budget)
      × (work (fuel_for req) s ≤ fuel_for req)
unfolding plan_of edge_bound depth_bound
Waits-Fits req scope preds s w =
    let few = w.visited in
    let queued = w.queue in
    let nothing = w.scanned in
    let shallow = w.depth in
    let edges = ap length w.edges in
    (
      record {
        bounded = omega arith;
        visited = omega arith;
        edges = omega arith;
        frames = at_start-within (depth_bound req.budget) s.queue w.frames;
        nodes = subst (All (NodeWithin (depth_bound req.budget))) (sym w.nodes) tt;
        depth = omega arith;
      },
      omega arith,
      omega arith,
    )

abbrev ReadyIfOk : TraverseRequest → Result (Plan × Search) → Type 0
ReadyIfOk req (err e) = Unit
ReadyIfOk req (ok (p, s)) =
    Fits p (fuel_for req) s
    × (s.edges_scanned ≤ p.max_edges)
    × (work (fuel_for req) s ≤ fuel_for req)
    × (p.max_depth ≡ depth_bound req.budget)
    × (p.max_edges ≡ edge_bound req.budget)

prepare-Ready :
    (scope_of : EndpointKind → Text → Option Text) (req : TraverseRequest)
    → ReadyIfOk req (prepare scope_of req)
unfolding prepare plan_of edge_bound depth_bound
prepare-Ready scope_of req = elim (Result-cases (Scope.parse req.scope)) [
  | inr (x, a) ↦ rw (a, prepare) tt
  | inl (path, a) ↦
      elim (Result-cases
        (refuse_if (is_empty req.seeds) (invalid_op "traverse requires at least one seed"))) [
          | inr (x, b) ↦ rw (a, b, prepare) tt
          | inl (u, b) ↦ elim (Result-cases (chosen req.predicates)) [
            | inr (x, c) ↦ rw (a, b, c, prepare) tt
            | inl (preds, c) ↦
                let waits = seed_all-Waits scope_of path.as_str req.seeds 0 blank blank-Waits in
                elim (Result-cases (seed_all scope_of path.as_str req.seeds blank)) [
                  | inr (x, d) ↦ rw (a, b, c, d, prepare) tt
                  | inl (s, d) ↦
                      let w : Waits (length req.seeds + 0) s = rw d at waits in
                      let (fits, within, enough) = Waits-Fits req path.as_str preds s w in
                      rw (a, b, c, d, prepare) (fits, within, enough, refl, refl)
                ]
          ]
        ]
]

depth_bound-within : (b : TraverseBudget) → depth_bound b ≤ 8
unfolding depth_bound
depth_bound-within b = min-right (unwrap_or b.max_depth 2) 8

edge_bound-within : (b : TraverseBudget) → (1 ≤ edge_bound b) × (edge_bound b ≤ 8192)
unfolding edge_bound
edge_bound-within b = clamp-within 1 8192 (unwrap_or b.max_edges 256) (omega arith)

searched :
    (req : TraverseRequest) (rows : List (Text × RelationshipRow)) (late : ℕ → Bool) (p : Plan)
    (start : Search)
    → ReadyIfOk req (ok (p, start))
    → (r : Result TraverseResult) × (reported (search_loop p rows late (fuel_for req) start)
        ≡ some r)
      × BoundedIfOk req r
unfolding report
searched req rows late p start (fits, within, enough, deep, wide) =
    let ends =
      search_loop-Ends p (fuel_for req) rows late (fuel_for req) start fits within enough in
    go (search_loop p rows late (fuel_for req) start) ends
  where
    go :
        (o : Option (Result Search))
        → Ends p (fuel_for req) o
        → (r : Result TraverseResult) × (reported o ≡ some r) × BoundedIfOk req r
    go none k = absurd k
    go (some (err x)) k = (err x, refl, tt)
    go (some (ok t)) (fits, within) =
        let edges = fits.edges in
        let visited = fits.visited in
        (
          ok (report t),
          refl,
          (
            subst (λ (d : ℕ). All (NodeWithin d) t.nodes) deep fits.nodes,
            subst (λ (d : ℕ). t.depth_reached ≤ d) deep fits.depth,
            fits.edges,
            subst (λ (d : ℕ). t.edges_scanned ≤ d) wide within,
            fits.visited,
          ),
        )

-- The search of a request always ends. It returns an error or a result in which each node lies within
-- the depth bound and has a path of as many edges as its depth, the depth reached is within the depth
-- bound too, at most as many edges are returned as were scanned, these are within the edge bound, and
-- the visited endpoints are at most the seeds and the visited bound together. The depth bound is at
-- most 8 and the edge bound is between 1 and 8192, whatever the request asks for.
pub traverse-Bounded :
    (scope_of : EndpointKind → Text → Option Text) (late : ℕ → Bool) (req : TraverseRequest)
    (s : Plane)
    → ((r : Result TraverseResult) × (traverse_on scope_of late (fuel_for req) req s ≡ some r)
        × BoundedIfOk req r)
      × (depth_bound req.budget ≤ 8)
      × (1 ≤ edge_bound req.budget)
      × (edge_bound req.budget ≤ 8192)
unfolding traverse_on
traverse-Bounded scope_of late req s =
    let ready = prepare-Ready scope_of req in
    (
      elim (Result-cases (prepare scope_of req)) [
        | inr (x, a) ↦ (err x, rw (a, traverse_on) refl, tt)
        | inl ((p, start), a) ↦
            let here : ReadyIfOk req (ok (p, start)) = rw a at ready in
            let (r, b, k) = searched req s.relationships late p start here in
            (r, rw (a, b, traverse_on) refl, k)
      ],
      depth_bound-within req.budget,
      (edge_bound-within req.budget).0,
      (edge_bound-within req.budget).1,
    )
