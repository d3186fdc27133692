-- ===== src/Plane/Hindsight.antt =====
-- What a late close does to a read of the past.
use nomiso.Prelude.{
  [], ◌∷◌, unwrap_or, ℕ, ◌≤◌, ◌<◌, ◌≡◌, refl, ap, sym, ◌∙◌, true, false, ◌&&◌, none, some, arith,
}
use nomiso.Prelude.Text.{Text}
use nomiso.Prelude.Table.{find}
use nomiso.Errors.{ok}
use nomiso.Memories.{MemoryId, ReadRequest, SupersedeRequest, memory_key}
use nomiso.Plane.{MemoryRecord, WriteResult, Plane, Env, fetch_memory}
use nomiso.Plane.Supersede.{supersede, close_instant}
use nomiso.Validation.{validate_read}
use nomiso.Scope.{ScopePath, matches}
use nomiso.Plane.Lenses.{valid_at, stored_at, known_by, in_lens, read, read_ids}
use nomiso.Plane.Passing.{Committed-Superseded}
use nomiso.Plane.Handover.{supersede-Committed}
use nomiso.Plane.Validity.{valid_at-old, stored_at_new, valid_before, ended_by, unborn_at}

-- A read of the predecessor and then the successor, through the lenses.
module _ (e : Env) (rr : ReadRequest) (scope : ScopePath) (s : Plane) (prior next : MemoryId)
    (valid : validate_read rr e.limits ≡ ok scope) (ids : rr.ids ≡ prior ∷ next ∷ []) where
  reads : read e rr s ≡ read_ids rr scope s (prior ∷ next ∷ [])
  unfolding read
  reads = rw valid (ap (λ l. read_ids rr scope s l) ids)

  -- Only the first is there, and is seen.
  reads_one :
      (r : MemoryRecord)
      → fetch_memory prior s ≡ some r
      → fetch_memory next s ≡ none
      → matches scope r.scope rr.scope_match ≡ true
      → in_lens rr r ≡ true
      → read e rr s ≡ ok (r ∷ [])
  unfolding read_ids
  reads_one r a b c d = reads ∙ rw (read_ids, a, b, c, d) refl

  -- Both are there, and neither is seen.
  reads_none :
      (p r : MemoryRecord)
      → fetch_memory prior s ≡ some p
      → fetch_memory next s ≡ some r
      → matches scope p.scope rr.scope_match ≡ true
      → matches scope r.scope rr.scope_match ≡ true
      → in_lens rr p ≡ false
      → in_lens rr r ≡ false
      → read e rr s ≡ ok []
  unfolding read_ids
  reads_none p r a b c d f g = reads ∙ rw (read_ids, a, b, c, d, f, g) refl

seen :
    (rr : ReadRequest) (r : MemoryRecord) (t u : ℕ)
    → rr.as_of ≡ some t
    → rr.known_as_of ≡ none
    → rr.sys_as_of ≡ some u
    → valid_at (some t) r ≡ true
    → unwrap_or r.sys_created r.known_at ≤ u
    → r.sys_closed ≡ none
    → in_lens rr r ≡ true
unfolding in_lens stored_at known_by
seen rr r t u a b c v from n = rw (a, b, c, v, n) (ground arith)

not_seen :
    (rr : ReadRequest) (r : MemoryRecord) (t u : ℕ)
    → rr.as_of ≡ some t
    → rr.sys_as_of ≡ some u
    → (valid_at (some t) r && stored_at (some u) r) ≡ false
    → in_lens rr r ≡ false
unfolding in_lens
not_seen rr r t u a c v = rw (a, c) (ground arith)

-- A supersession changes what a read as of an earlier system time returns. Take a read of the
-- predecessor and of the successor's id, as of a system time at which the predecessor was stored and
-- that is before the supersession, and as of a valid time from the close on, in a scope that the
-- predecessor's matches. Before the supersession it returns the predecessor; after it, nothing.
pub supersede-hides_past :
    (e : Env) (now : ℕ) (key : Text) (req : SupersedeRequest) (w : WriteResult) (s s' : Plane)
    (rr : ReadRequest) (scope : ScopePath) (next : MemoryId) (t u : ℕ) (before p r : MemoryRecord)
    → supersede e now key req s ≡ (ok w, s')
    → find (memory_key req.prior_id) s.memories ≡ some before
    → find (memory_key req.prior_id) s'.memories ≡ some p
    → find key s'.memories ≡ some r
    → memory_key next ≡ key
    → validate_read rr e.limits ≡ ok scope
    → rr.ids ≡ req.prior_id ∷ next ∷ []
    → matches scope before.scope rr.scope_match ≡ true
    → rr.as_of ≡ some t
    → rr.known_as_of ≡ none
    → rr.sys_as_of ≡ some u
    → unwrap_or before.sys_created before.known_at ≤ u
    → u < now
    → close_instant now req ≤ t
    → (read e rr s ≡ ok (before ∷ [])) × (read e rr s' ≡ ok [])
supersede-hides_past e now key req w s s' rr scope next t u before p r run at_before at_p at_r named
      valid ids inside as_of known_as_of sys_as_of stored early late =
    let h = supersede-Committed e now key req w s s' run in
    let x = Committed-Superseded now key req w s s' h in
    let at_prior = h.at_prior in
    let at_seen = x.at_prior in
    let at_closed = x.at_prior_after in
    let at_new = x.at_new_after in
    let same : h.prior ≡ before = cc (at_prior, at_before) in
    let same_x : x.prior ≡ before = cc (at_seen, at_before) in
    let same_p : x.closed_row ≡ p = cc (at_closed, at_p) in
    let same_r : x.new_row ≡ r = cc (at_new, at_r) in
    let in_p : p.scope ≡ before.scope =
      ap (λ (y : MemoryRecord). y.scope) (sym same_p)
      ∙ (x.is_closed.same_content.2 ∙ ap (λ (y : MemoryRecord). y.scope) same_x) in
    let in_r : r.scope ≡ before.scope =
      ap (λ (y : MemoryRecord). y.scope) (sym same_r)
      ∙ (x.is_successor.has_scope
          ∙ (sym x.same_scope ∙ ap (λ (y : MemoryRecord). y.scope) same_x)) in
    let not_closed : before.sys_closed ≡ none = rw (← same_x) x.was_open.3 in
    let ended =
      valid_at-old now key req w s s' h t p at_p ∙ ended_by now key req w s s' h t u late in
    let unborn =
      stored_at_new now key req w s s' h u r at_r ∙ unborn_at now key req w s s' h t u early in
    (
      reads_one e rr scope s req.prior_id next valid ids before at_before
          (ap (λ k. find k s.memories) named ∙ h.fresh) inside
          (seen rr before t u as_of known_as_of sys_as_of
            (rw (← same) (valid_before now key req w s s' h t u late)) stored not_closed),
      reads_none e rr scope s' req.prior_id next valid ids p r at_p
          (ap (λ k. find k s'.memories) named ∙ at_r) (rw in_p inside) (rw in_r inside)
          (not_seen rr p t u as_of sys_as_of (rw ended refl))
          (not_seen rr r t u as_of sys_as_of (ground arith)),
    )
