-- ===== src/Plane/Traverse/Budgets.antt =====
-- crates/nomiso-store/src/surreal_store.rs: what the rounds of `traverse` keep of its budgets.
use nomiso.Prelude.{
  ℕ, suc, ◌+◌, ◌-◌, ◌≤◌, ◌<◌, ◌≡◌, refl, inl, inr, ◌⊎◌, subst, List, [], ◌∷◌, ◌++◌, arith,
  Bool-cases, length, length-append, All, All-append, leb,
}
use nomiso.Prelude.Text.{Text, codes, text_mem}
use nomiso.Errors.{Error, Result-cases}
use nomiso.Endpoints.{EndpointRef, bare_key}
use nomiso.Plane.{RelationshipRecord}
use nomiso.Plane.Traverse.{reach, offer, offer_all, ends_at, counted, recorded, scan_row, scan_rows}
use nomiso.Plane.Walk.{
  TraverseNode, Frame, Search, Flow, running, halted, failed, mark, was_visited, Plan, nexts,
}

-- A frame or a node within the depth, with one edge of its path for each level.
abbrev pub FrameWithin : ℕ → Frame → Type 0
FrameWithin d f = (f.depth ≤ d) × (length f.path ≡ f.depth)

abbrev pub NodeWithin : ℕ → TraverseNode → Type 0
NodeWithin d n = (n.depth ≤ d) × (length n.path ≡ n.depth)

-- What holds of the search all along; `cap` bounds the visited endpoints.
pub record Fits (p : Plan) (cap : ℕ) (s : Search) : Type 0 where
  pub bounded : p.max_visited ≤ cap
  pub visited : length s.visited ≤ cap
  pub edges : length s.edges ≤ s.edges_scanned
  pub frames : All (FrameWithin p.max_depth) s.queue
  pub nodes : All (NodeWithin p.max_depth) s.nodes
  pub depth : s.depth_reached ≤ p.max_depth

-- Frames that wait, and those that may still come.
abbrev pub work : ℕ → Search → ℕ
work cap s = length s.queue + (cap - length s.visited)

-- After a part of a round: the invariant holds, no work was added, and at most `n` edges were
-- scanned more.
abbrev pub Kept : Plan → ℕ → ℕ → Search → Search → Type 0
Kept p cap n s t =
    Fits p cap t × (work cap t ≤ work cap s) × (t.edges_scanned ≤ s.edges_scanned + n)

abbrev pub KeptBy : Plan → ℕ → ℕ → Search → Flow → Type 0
KeptBy p cap n s (running t) = Kept p cap n s t
KeptBy p cap n s (halted t) = Fits p cap t × (t.edges_scanned ≤ s.edges_scanned + n)
KeptBy p cap n s (failed e) = Unit

pub Flow-cases :
    (f : Flow)
    → ((t : Search) × (f ≡ running t))
      ⊎ ((t : Search) × (f ≡ halted t))
      ⊎ ((e : Error) × (f ≡ failed e))
Flow-cases (running t) = inl (t, refl)
Flow-cases (halted t) = inr (inl (t, refl))
Flow-cases (failed e) = inr (inr (e, refl))

module _ (p : Plan) (cap : ℕ) where
  -- What a part keeps after another part has kept it.
  KeptBy-after :
      (m n : ℕ) (s t : Search) (f : Flow)
      → Kept p cap m s t
      → KeptBy p cap n t f
      → KeptBy p cap (m + n) s f
  KeptBy-after m n s t (running u) (h, w, e) (h', w', e') = (h', omega arith, omega arith)
  KeptBy-after m n s t (halted u) (h, w, e) (h', e') = (h', omega arith)
  KeptBy-after m n s t (failed x) k k' = tt

  pub mark-Fits : (why : Text) (s : Search) → Fits p cap s → Fits p cap (mark why s)
  mark-Fits why s h = record {
    bounded = h.bounded;
    visited = h.visited;
    edges = h.edges;
    frames = h.frames;
    nodes = h.nodes;
    depth = h.depth;
  }

  module _ (frame : Frame) (inside : frame.depth < p.max_depth)
      (path : length frame.path ≡ frame.depth) where
    reach-Kept :
        (edge_id : Text) (next : EndpointRef) (key : Text) (s : Search)
        → Fits p cap s
        → length s.visited < p.max_visited
        → Kept p cap 0 s (reach frame edge_id next key s)
    unfolding reach
    reach-Kept edge_id next key s h room =
        let seen = length-append s.visited ((next.kind, key) ∷ []) in
        let longer = length-append frame.path (edge_id ∷ []) in
        let node : TraverseNode = record {
          endpoint = next;
          depth = frame.depth + 1;
          path = frame.path ++ edge_id ∷ [];
        } in
        let f : Frame = record {
          kind = next.kind;
          key = key;
          depth = frame.depth + 1;
          path = frame.path ++ edge_id ∷ [];
        } in
        let queued = length-append s.queue (f ∷ []) in
        let bounded = h.bounded in
        (
          record {
            bounded = h.bounded;
            visited = omega arith;
            edges = h.edges;
            frames =
                All-append (FrameWithin p.max_depth) s.queue (f ∷ []) h.frames
                  (((omega arith, omega arith), tt));
            nodes =
                All-append (NodeWithin p.max_depth) s.nodes (node ∷ []) h.nodes
                  (((omega arith, omega arith), tt));
            depth = h.depth;
          },
          omega arith,
          omega arith,
        )

    offer-Kept :
        (edge_id : Text) (next : EndpointRef) (s : Search)
        → Fits p cap s
        → KeptBy p cap 0 s (offer p frame edge_id next s)
    unfolding offer
    offer-Kept edge_id next s h = elim (Result-cases (bare_key next)) [
      | inr (x, a) ↦ rw (a, offer) tt
      | inl (key, a) ↦ elim (Bool-cases (leb p.max_visited (length s.visited))) [
        | inl b ↦ rw (a, b, offer) (mark-Fits (codes "visited") s h, omega arith)
        | inr b ↦ elim (Bool-cases (was_visited next.kind key s.visited)) [
          | inl c ↦ rw (a, b, c, offer) (h, omega arith, omega arith)
          | inr c ↦ rw (a, b, c, offer) (reach-Kept edge_id next key s h (ground arith))
        ]
      ]
    ]

    offer_all-Kept :
        (edge_id : Text) (ends : List EndpointRef) (s : Search)
        → Fits p cap s
        → KeptBy p cap 0 s (offer_all p frame edge_id ends s)
    unfolding offer_all
    offer_all-Kept edge_id [] s h = (h, omega arith, omega arith)
    offer_all-Kept edge_id (next ∷ rest) s h =
        let first = offer-Kept edge_id next s h in
        elim (Flow-cases (offer p frame edge_id next s)) [
          | inl (t, a) ↦
              let kept : Kept p cap 0 s t = rw a at first in
              rw (a, offer_all)
                (KeptBy-after 0 0 s t (offer_all p frame edge_id rest t) kept
                  (offer_all-Kept edge_id rest t kept.0))
          | inr (inl (t, a)) ↦ rw (a, offer_all) (rw a at first)
          | inr (inr (e, a)) ↦ rw (a, offer_all) tt
        ]

    recorded-Kept :
        (r : RelationshipRecord) (s : Search)
        → Fits p cap s
        → Kept p cap 1 s (recorded r (counted s))
    recorded-Kept r s h =
        let longer = length-append s.edges (r ∷ []) in
        let before = h.edges in
        (
          record {
            bounded = h.bounded;
            visited = h.visited;
            edges = omega arith;
            frames = h.frames;
            nodes = h.nodes;
            depth = h.depth;
          },
          omega arith,
          omega arith,
        )

    counted-Kept : (s : Search) → Fits p cap s → Kept p cap 1 s (counted s)
    counted-Kept s h =
        let before = h.edges in
        (
          record {
            bounded = h.bounded;
            visited = h.visited;
            edges = omega arith;
            frames = h.frames;
            nodes = h.nodes;
            depth = h.depth;
          },
          omega arith,
          omega arith,
        )

    scan_row-Kept :
        (r : RelationshipRecord) (s : Search)
        → Fits p cap s
        → KeptBy p cap 1 s (scan_row p frame r s)
    unfolding scan_row
    scan_row-Kept r s h = elim (Bool-cases (text_mem r.id s.edge_seen)) [
      | inl q ↦ rw (q, scan_row) (counted-Kept s h)
      | inr q ↦ elim (Result-cases (ends_at frame r.subject)) [
        | inr (x, a) ↦ rw (q, a, scan_row) tt
        | inl (is_subject, a) ↦ elim (Result-cases (ends_at frame r.object)) [
          | inr (x, b) ↦ rw (q, a, b, scan_row) tt
          | inl (is_object, b) ↦
              let kept = recorded-Kept r s h in
              rw (q, a, b, scan_row)
                (KeptBy-after 1 0 s (recorded r (counted s))
                  (offer_all p frame r.id (nexts p r is_subject is_object) (recorded r (counted s)))
                  kept
                  (offer_all-Kept r.id (nexts p r is_subject is_object) (recorded r (counted s))
                    kept.0))
        ]
      ]
    ]

    pub scan_rows-Kept :
        (rows : List RelationshipRecord) (s : Search)
        → Fits p cap s
        → KeptBy p cap (length rows) s (scan_rows p frame rows s)
    unfolding scan_rows
    scan_rows-Kept [] s h = (h, omega arith, omega arith)
    scan_rows-Kept (r ∷ rows) s h =
        let first = scan_row-Kept r s h in
        elim (Flow-cases (scan_row p frame r s)) [
          | inl (t, a) ↦
              let kept : Kept p cap 1 s t = rw a at first in
              let after =
                KeptBy-after 1 (length rows) s t (scan_rows p frame rows t) kept
                  (scan_rows-Kept rows t kept.0) in
              let one : 1 + length rows ≡ suc (length rows) = omega arith in
              rw (a, scan_rows)
                (subst (λ (n : ℕ). KeptBy p cap n s (scan_rows p frame rows t)) one after)
          | inr (inl (t, a)) ↦
              let kept : Fits p cap t × (t.edges_scanned ≤ s.edges_scanned + 1) = rw a at first in
              rw (a, scan_rows) (kept.0, omega arith)
          | inr (inr (e, a)) ↦ rw (a, scan_rows) tt
        ]
