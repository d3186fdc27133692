-- ===== src/Plane/Traverse/Ends.antt =====
-- crates/nomiso-store/src/surreal_store.rs: the loop of `traverse` ends, within its budgets.
use nomiso.Prelude.{
  ℕ, zero, suc, ◌+◌, ◌-◌, ◌≤◌, ◌<◌, ◌≡◌, refl, ap, sym, inl, inr, ◌⊎◌, subst, Bool, true, false,
  List, [], ◌∷◌, Option, none, some, arith, if◌then◌else◌, Bool-cases, length, length-take, take,
  All, ltb, leb, ◌==◌, is_empty,
}
use nomiso.Prelude.Text.{Text, codes}
use nomiso.Errors.{Result, ok, err}
use nomiso.Plane.{RelationshipRecord, RelationshipRow}
use nomiso.Plane.Traverse.{scan_rows, close_round, scan_frame, deepened, round, search_loop}
use nomiso.Plane.Walk.{Frame, Search, Flow, running, halted, failed, mark, Plan, eligible}
use nomiso.Plane.Traverse.Budgets.{
  FrameWithin, Fits, work, KeptBy, Flow-cases, mark-Fits, scan_rows-Kept,
}

-- After a round: no work was added, and the scanned edges stay in the budget.
abbrev RoundKept : Plan → ℕ → Search → Flow → Type 0
RoundKept p cap s (running t) =
    Fits p cap t × (work cap t ≤ work cap s) × (t.edges_scanned ≤ p.max_edges)
RoundKept p cap s (halted t) = Fits p cap t × (t.edges_scanned ≤ p.max_edges)
RoundKept p cap s (failed e) = Unit

module _ (p : Plan) (cap : ℕ) where
  close_round-Kept :
      (n : ℕ) (s : Search) (f : Flow)
      → s.edges_scanned + n ≤ p.max_edges
      → KeptBy p cap n s f
      → RoundKept p cap s (close_round p f)
  unfolding close_round
  close_round-Kept n s (running t) fits (h, w, e) =
      elim (Bool-cases (leb p.max_edges t.edges_scanned)) [
        | inl a ↦ rw a (mark-Fits p cap (codes "edges") t h, omega arith)
        | inr a ↦ rw a (h, w, omega arith)
      ]
  close_round-Kept n s (halted t) fits (h, e) = (h, omega arith)
  close_round-Kept n s (failed x) fits k = tt

  cut-Fits :
      (b : Bool) (s : Search) → Fits p cap s → Fits p cap (if b then mark (codes "edges") s else s)
  cut-Fits true s h = mark-Fits p cap (codes "edges") s h
  cut-Fits false s h = h

  cut-same :
      (b : Bool) (s : Search)
      → ((if b then mark (codes "edges") s else s).edges_scanned ≡ s.edges_scanned)
        × (work cap (if b then mark (codes "edges") s else s) ≡ work cap s)
  cut-same true s = (refl, refl)
  cut-same false s = (refl, refl)

  RoundKept-same :
      (s t : Search) (f : Flow)
      → work cap s ≡ work cap t
      → RoundKept p cap s f
      → RoundKept p cap t f
  RoundKept-same s t (running u) e (h, w, m) = (h, omega arith, m)
  RoundKept-same s t (halted u) e k = k
  RoundKept-same s t (failed x) e k = tt

  module _ (frame : Frame) (path : length frame.path ≡ frame.depth) where
    scan_frame-Kept :
        (rows : List RelationshipRecord) (s : Search)
        → frame.depth < p.max_depth
        → Fits p cap s
        → s.edges_scanned ≤ p.max_edges
        → RoundKept p cap s (scan_frame p frame (p.max_edges - s.edges_scanned) rows s)
    unfolding scan_frame
    scan_frame-Kept rows s inside h within =
        let remaining = p.max_edges - s.edges_scanned in
        let long : Bool = ltb remaining (length rows) in
        let start : Search = if long then mark (codes "edges") s else s in
        let (same, less) = cut-same long s in
        let taken = length-take remaining rows in
        RoundKept-same start s (close_round p (scan_rows p frame (take remaining rows) start)) less
          (close_round-Kept (length (take remaining rows)) start
            (scan_rows p frame (take remaining rows) start) (omega arith)
            (scan_rows-Kept p cap frame inside path (take remaining rows) start
              (cut-Fits long s h)))

    deepened-Fits :
        (s : Search) → frame.depth ≤ p.max_depth → Fits p cap s → Fits p cap (deepened frame s)
    deepened-Fits s inside h =
        let before = h.depth in
        record {
          bounded = h.bounded;
          visited = h.visited;
          edges = h.edges;
          frames = h.frames;
          nodes = h.nodes;
          depth = ground arith;
        }

    round-Kept :
        (rows : List (Text × RelationshipRow)) (late : Bool) (s : Search)
        → frame.depth ≤ p.max_depth
        → Fits p cap s
        → s.edges_scanned ≤ p.max_edges
        → RoundKept p cap s (round p rows late frame s)
    unfolding round
    round-Kept rows late s inside h within =
        let s' : Search = deepened frame s in
        let here = eligible p frame.kind frame.key rows in
        let fits = deepened-Fits s inside h in
        elim (Bool-cases (leb p.max_depth frame.depth)) [
          | inl a ↦ elim (Bool-cases (is_empty here)) [
            | inl b ↦ rw (a, b) (fits, omega arith, within)
            | inr b ↦ rw (a, b) (mark-Fits p cap (codes "depth") s' fits, omega arith, within)
          ]
          | inr a ↦ elim (Bool-cases late) [
            | inl b ↦ rw (a, b) (mark-Fits p cap (codes "deadline") s' fits, within)
            | inr b ↦ elim (Bool-cases (p.max_edges - s.edges_scanned == 0)) [
              | inl c ↦ rw (a, b, c) (mark-Fits p cap (codes "edges") s' fits, within)
              | inr c ↦
                  rw (a, b, c)
                    (RoundKept-same s' s
                      (scan_frame p frame (p.max_edges - s.edges_scanned) here s') refl
                      (scan_frame-Kept here s' (ground arith) fits within))
            ]
          ]
        ]

  abbrev pub Ends : Option (Result Search) → Type 0
  Ends none = ⊥
  Ends (some (err e)) = Unit
  Ends (some (ok s)) = Fits p cap s × (s.edges_scanned ≤ p.max_edges)

  queue-cases : (q : List Frame) → (q ≡ []) ⊎ ((f : Frame) × (rest : List Frame) × (q ≡ f ∷ rest))
  queue-cases [] = inl refl
  queue-cases (f ∷ rest) = inr (f, rest, refl)

  popped-Fits :
      (s : Search) (f : Frame) (rest : List Frame)
      → s.queue ≡ f ∷ rest
      → Fits p cap s
      → FrameWithin p.max_depth f × Fits p cap (record s { queue = rest })
  popped-Fits s f rest e h =
      let frames : All (FrameWithin p.max_depth) (f ∷ rest) = rw e at h.frames in
      (
        frames.0,
        record {
          bounded = h.bounded;
          visited = h.visited;
          edges = h.edges;
          frames = frames.1;
          nodes = h.nodes;
          depth = h.depth;
        },
      )

  pub search_loop-Ends :
      (rows : List (Text × RelationshipRow)) (late : ℕ → Bool) (fuel : ℕ) (s : Search)
      → Fits p cap s
      → s.edges_scanned ≤ p.max_edges
      → work cap s ≤ fuel
      → Ends (search_loop p rows late fuel s)
  unfolding search_loop
  search_loop-Ends rows late zero s h within enough = elim (queue-cases s.queue) [
    | inl e ↦
        let done : search_loop p rows late zero s ≡ some (ok s) = simp (e, search_loop) in
        subst Ends (sym done) (h, within)
    | inr (f, rest, e) ↦ absurd (omega (arith, ap length e))
  ]
  search_loop-Ends rows late (suc fuel) s h within enough = elim (queue-cases s.queue) [
    | inl e ↦
        let done : search_loop p rows late (suc fuel) s ≡ some (ok s) = simp (e, search_loop) in
        subst Ends (sym done) (h, within)
    | inr (f, rest, e) ↦
        let (inside, fits) = popped-Fits s f rest e h in
        let kept =
          round-Kept f inside.1 rows (late fuel) (record s { queue = rest }) inside.0 fits within in
        let shorter = ap length e in
        elim (Flow-cases (round p rows (late fuel) f (record s { queue = rest }))) [
          | inl (t, a) ↦
              let after : RoundKept p cap (record s { queue = rest }) (running t) = rw a at kept in
              rw (e, a, search_loop)
                (search_loop-Ends rows late fuel t after.0 after.2 (omega arith))
          | inr (inl (t, a)) ↦ rw (e, a, search_loop) (rw a at kept)
          | inr (inr (x, a)) ↦ rw (e, a, search_loop) tt
        ]
  ]
