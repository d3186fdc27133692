-- ===== src/Plane/Validity.antt =====
-- How valid time passes from a record to its successor.
use nomiso.Prelude.{
  ℕ, ◌≤◌, ◌<◌, ◌≡◌, refl, ap, sym, ◌∙◌, inl, inr, true, false, not, ◌&&◌, Option, none, some, arith,
  Bool-cases,
}
use nomiso.Prelude.Text.{Text, text_eq}
use nomiso.Prelude.Table.{find}
use nomiso.Errors.{ok}
use nomiso.Memories.{SupersedeRequest, PutRequest, memory_key}
use nomiso.Plane.{MemoryRecord, WriteResult, Plane, Env, id_of}
use nomiso.Plane.Writes.{new_memory}
use nomiso.Plane.Supersede.{supersede, close_instant, successor, depends_on_prior}
use nomiso.Plane.Lenses.{valid_at, stored_at}
use nomiso.Plane.Succession.{marked, ended}
use nomiso.Plane.Handover.{Committed, supersede-Committed}

module _ (now : ℕ) (key : Text) (req : SupersedeRequest) (close_at : ℕ) (new : PutRequest)
    (egen : Option ℕ) (m : Plane) (prior : MemoryRecord) (k : Text) (r : MemoryRecord) where
  valid_at-marked :
      (t : ℕ)
      → valid_at (some t) (marked now key req close_at new egen m prior k r) ≡ valid_at (some t) r
  unfolding valid_at
  valid_at-marked t =
      elim (Bool-cases
        (text_eq r.scope new.scope && depends_on_prior (memory_key req.prior_id) m.derivations k)) [
          | inl a ↦ rw a refl
          | inr a ↦ rw a refl
        ]

  from-marked : (marked now key req close_at new egen m prior k r).valid_from ≡ r.valid_from
  from-marked =
      elim (Bool-cases
        (text_eq r.scope new.scope && depends_on_prior (memory_key req.prior_id) m.derivations k)) [
          | inl a ↦ rw a refl
          | inr a ↦ rw a refl
        ]

  stored_at-marked :
      (u : ℕ)
      → stored_at (some u) (marked now key req close_at new egen m prior k r) ≡ stored_at (some u) r
  unfolding stored_at
  stored_at-marked u =
      elim (Bool-cases
        (text_eq r.scope new.scope && depends_on_prior (memory_key req.prior_id) m.derivations k)) [
          | inl a ↦ rw a refl
          | inr a ↦ rw a refl
        ]

module _ (now : ℕ) (key : Text) (req : SupersedeRequest) (w : WriteResult) (s s' : Plane)
    (h : Committed now key req w s s') where
  -- the two records as the transaction leaves them, but for marks of staleness
  abbrev old : MemoryRecord
  old =
      ended now key req (close_instant now req) (successor now h.path.as_str req) h.egen h.between
        h.prior

  abbrev new : MemoryRecord
  new =
      new_memory now key (successor now h.path.as_str req) h.egen
        (some (id_of (memory_key req.prior_id)))

  pub valid_at-old :
      (t : ℕ) (p : MemoryRecord)
      → find (memory_key req.prior_id) s'.memories ≡ some p
      → valid_at (some t) p ≡ valid_at (some t) old
  valid_at-old t p e =
      let found = h.prior_after in
      ap (valid_at (some t)) (cc (found, e))
      ∙ valid_at-marked now key req (close_instant now req) (successor now h.path.as_str req) h.egen
          h.between h.prior (memory_key req.prior_id) old t

  from_old :
      (p : MemoryRecord)
      → find (memory_key req.prior_id) s'.memories ≡ some p
      → p.valid_from ≡ h.prior.valid_from
  from_old p e =
      let found = h.prior_after in
      let q : p
          ≡ marked now key req (close_instant now req) (successor now h.path.as_str req) h.egen
              h.between h.prior (memory_key req.prior_id) old =
        cc (found, e) in
      ap (λ (x : MemoryRecord). x.valid_from) q
      ∙ from-marked now key req (close_instant now req) (successor now h.path.as_str req) h.egen
          h.between h.prior (memory_key req.prior_id) old

  pub valid_at_new :
      (t : ℕ) (r : MemoryRecord)
      → find key s'.memories ≡ some r
      → valid_at (some t) r ≡ valid_at (some t) new
  valid_at_new t r e =
      let found = h.new_after in
      ap (valid_at (some t)) (cc (found, e))
      ∙ valid_at-marked now key req (close_instant now req) (successor now h.path.as_str req) h.egen
          h.between h.prior key new t

  pub stored_at_new :
      (u : ℕ) (r : MemoryRecord)
      → find key s'.memories ≡ some r
      → stored_at (some u) r ≡ stored_at (some u) new
  stored_at_new u r e =
      let found = h.new_after in
      ap (stored_at (some u)) (cc (found, e))
      ∙ stored_at-marked now key req (close_instant now req) (successor now h.path.as_str req)
          h.egen h.between h.prior key new u

  handover :
      (t : ℕ)
      → req.new.valid_from ≡ none
      → req.new.valid_until ≡ none
      → h.prior.valid_from ≤ t
      → valid_at (some t) new ≡ not (valid_at (some t) old)
  unfolding valid_at new_memory
  handover t from until start = rw (from, until) (ground arith)

-- A successor that names no interval takes over where its predecessor ends: at every instant from the
-- start of the predecessor's interval exactly one of the two is valid.
pub supersede_handover :
    (e : Env) (now : ℕ) (key : Text) (req : SupersedeRequest) (w : WriteResult) (s s' : Plane)
    (t : ℕ) (p r : MemoryRecord)
    → supersede e now key req s ≡ (ok w, s')
    → req.new.valid_from ≡ none
    → req.new.valid_until ≡ none
    → find (memory_key req.prior_id) s'.memories ≡ some p
    → find key s'.memories ≡ some r
    → p.valid_from ≤ t
    → valid_at (some t) r ≡ not (valid_at (some t) p)
supersede_handover e now key req w s s' t p r run from until at_p at_r start =
    let h = supersede-Committed e now key req w s s' run in
    valid_at_new now key req w s s' h t r at_r
    ∙ (handover now key req w s s' h t from until
          (rw (← from_old now key req w s s' h p at_p) start)
        ∙ ap not (sym (valid_at-old now key req w s s' h t p at_p)))

module _ (now : ℕ) (key : Text) (req : SupersedeRequest) (w : WriteResult) (s s' : Plane)
    (h : Committed now key req w s s') (t u : ℕ) where
  pub valid_before : close_instant now req ≤ t → valid_at (some t) h.prior ≡ true
  unfolding valid_at
  valid_before late = let within = h.within in let may = h.may in ground arith

  pub ended_by : close_instant now req ≤ t → valid_at (some t) (old now key req w s s' h) ≡ false
  unfolding valid_at
  ended_by late = ground arith

  pub unborn_at : u < now → stored_at (some u) (new now key req w s s' h) ≡ false
  unfolding stored_at new_memory
  unborn_at early = ground arith
