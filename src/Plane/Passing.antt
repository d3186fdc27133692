-- ===== src/Plane/Passing.antt =====
-- A supersession as a whole, from the rows that its transaction leaves.
use nomiso.Prelude.{
  ℕ, ◌+◌, ◌≡◌, refl, ap, ◌∙◌, inl, inr, true, false, ◌&&◌, Option, none, some, arith, Bool-cases,
  is_some,
}
use nomiso.Prelude.Text.{Text, text_eq, text_eq_iff}
use nomiso.Errors.{ok}
use nomiso.Memories.{SupersedeRequest, memory_key}
use nomiso.Plane.{MemoryRecord, RelationshipRow, WriteResult, Plane, Env, id_of}
use nomiso.Plane.Writes.{new_memory, written}
use nomiso.Plane.Supersede.{supersede, close_instant, successor, closable, depends_on_prior}
use nomiso.Plane.Succession.{marked, ended, marked_edge}
use nomiso.Plane.Derivations.{
  Depends, IsDerivationOf, Depends-depends_on_prior, depends_on_prior-Depends, is_touched,
  IsDerivationOf-is_touched, is_touched-IsDerivationOf,
}
use nomiso.Plane.Handover.{Committed, supersede-Committed}
use nomiso.Plane.Outcome.{IsOpenAt, ClosesAt, IsClosed, IsSuccessor, stale_now, Superseded}

is_none : {A : Type 0} (o : Option A) → is_some o ≡ false → o ≡ none
is_none none h = refl
is_none (some x) h = absurd cc

closable-IsOpenAt :
    (expected : ℕ) (r : MemoryRecord) → closable expected r ≡ true → IsOpenAt expected r
closable-IsOpenAt expected r h = (
  ground arith,
  is_none r.superseded_by (ground arith),
  is_none r.valid_until (ground arith),
  is_none r.sys_closed (ground arith),
)

close_instant-ClosesAt :
    (now : ℕ) (req : SupersedeRequest) (a b : Option ℕ)
    → req.close_at ≡ a
    → req.new.valid_from ≡ b
    → ClosesAt now a b (close_instant now req)
close_instant-ClosesAt now req (some t) b e f = rw e refl
close_instant-ClosesAt now req none (some t) e f = rw (e, f) refl
close_instant-ClosesAt now req none none e f = rw (e, f) refl

module _ (now : ℕ) (key : Text) (req : SupersedeRequest) (w : WriteResult) (s s' : Plane)
    (h : Committed now key req w s s') where
  abbrev close_at : ℕ
  close_at = close_instant now req

  abbrev prior_key : Text
  prior_key = memory_key req.prior_id

  abbrev mark : Text → MemoryRecord → MemoryRecord
  mark = marked now key req close_at (successor now h.path.as_str req) h.egen h.between h.prior

  abbrev mark_edge : Text → RelationshipRow → RelationshipRow
  mark_edge =
      marked_edge now key req close_at (successor now h.path.as_str req) h.egen h.between h.prior

  abbrev ended_prior : MemoryRecord
  ended_prior =
      ended now key req close_at (successor now h.path.as_str req) h.egen h.between h.prior

  abbrev made : MemoryRecord
  made = new_memory now key (successor now h.path.as_str req) h.egen (some (id_of prior_key))

  -- A mark of staleness leaves everything else.
  mark-same :
      {A : Type 0} (f : MemoryRecord → A) (k : Text) (r : MemoryRecord)
      → f (record r { stale = some true }) ≡ f r
      → f (mark k r) ≡ f r
  mark-same f k r e =
      elim (Bool-cases
        (text_eq r.scope h.path.as_str && depends_on_prior prior_key h.between.derivations k)) [
          | inl a ↦ rw a e
          | inr a ↦ rw a refl
        ]

  ended-IsClosed :
      IsClosed now close_at key req.expected_version h.prior (mark prior_key ended_prior)
  ended-IsClosed = record {
    until = mark-same (λ r. r.valid_until) prior_key ended_prior refl;
    at_sys = mark-same (λ r. r.sys_closed) prior_key ended_prior refl;
    next_version =
        mark-same (λ r. r.version) prior_key ended_prior refl
        ∙ ap (λ v. v + 1) (closable-IsOpenAt req.expected_version h.prior h.may).0;
    successor = mark-same (λ r. r.superseded_by) prior_key ended_prior refl;
    same_start = (
      mark-same (λ r. r.valid_from) prior_key ended_prior refl,
      mark-same (λ r. r.known_at) prior_key ended_prior refl,
    );
    same_created = mark-same (λ r. r.sys_created) prior_key ended_prior refl;
    same_content = (
      mark-same (λ r. r.content) prior_key ended_prior refl,
      mark-same (λ r. r.category) prior_key ended_prior refl,
      mark-same (λ r. r.scope) prior_key ended_prior refl,
    );
  }

  made-IsSuccessor : IsSuccessor now close_at h.path.as_str prior_key req (mark key made)
  unfolding new_memory
  made-IsSuccessor = record {
    first_version = mark-same (λ r. r.version) key made refl;
    predecessor = mark-same (λ r. r.supersedes) key made refl;
    is_open = (
      mark-same (λ r. r.superseded_by) key made refl,
      mark-same (λ r. r.sys_closed) key made refl,
    );
    at_sys = mark-same (λ r. r.sys_created) key made refl;
    has_scope = mark-same (λ r. r.scope) key made refl;
    has_content =
        (mark-same (λ r. r.content) key made refl, mark-same (λ r. r.category) key made refl);
    start = λ t e. mark-same (λ r. r.valid_from) key made refl ∙ rw e refl;
    takes_over = λ e. mark-same (λ r. r.valid_from) key made refl ∙ rw e refl;
    ends = mark-same (λ r. r.valid_until) key made refl;
    known = λ e. mark-same (λ r. r.known_at) key made refl ∙ rw e refl;
  }

  marks :
      (k : Text) (r : MemoryRecord)
      → r.scope ≡ h.path.as_str
      → Depends prior_key s.derivations k
      → mark k r ≡ record r { stale = some true }
  marks k r a d =
      let b : depends_on_prior prior_key h.between.derivations k ≡ true =
        rw h.kept.derivations (Depends-depends_on_prior prior_key s.derivations k d) in
      rw ((text_eq_iff r.scope h.path.as_str).1 a, b) refl

  marks_not :
      (k : Text) (r : MemoryRecord)
      → ((r.scope ≡ h.path.as_str) → Depends prior_key s.derivations k → ⊥)
      → mark k r ≡ r
  marks_not k r n =
      elim (Bool-cases
        (text_eq r.scope h.path.as_str && depends_on_prior prior_key h.between.derivations k)) [
          | inr a ↦ rw a refl
          | inl a ↦
              let b : depends_on_prior prior_key h.between.derivations k ≡ true = ground arith in
              absurd (
                n (ground (arith, text_eq_iff r.scope h.path.as_str))
                  (depends_on_prior-Depends prior_key s.derivations k (rw h.kept.derivations at b)))
        ]

  makes_stale :
      (k : Text) (r : RelationshipRow)
      → IsDerivationOf h.path.as_str prior_key r.edge
      → mark_edge k r ≡ stale_now now r
  makes_stale k r d = rw (IsDerivationOf-is_touched h.path.as_str prior_key r d) refl

  makes_not_stale :
      (k : Text) (r : RelationshipRow)
      → (IsDerivationOf h.path.as_str prior_key r.edge → ⊥)
      → mark_edge k r ≡ r
  makes_not_stale k r n = elim (Bool-cases (is_touched h.path.as_str prior_key r)) [
    | inr a ↦ rw a refl
    | inl a ↦ absurd (n (is_touched-IsDerivationOf h.path.as_str prior_key r a))
  ]

  made_id : ((written made).id ≡ id_of key) × ((written made).version ≡ 1)
  unfolding new_memory
  made_id = (refl, refl)

  pub Committed-Superseded : Superseded now key req w s s'
  Committed-Superseded = record {
    path = h.path;
    parsed = h.parsed;
    prior = h.prior;
    at_prior = h.at_prior;
    same_scope = h.same_scope;
    was_open = closable-IsOpenAt req.expected_version h.prior h.may;
    fresh = h.fresh;
    close_at = close_at;
    closes = close_instant-ClosesAt now req req.close_at req.new.valid_from refl refl;
    within = h.within;
    closed_row = mark prior_key ended_prior;
    at_prior_after = h.prior_after;
    is_closed = ended-IsClosed;
    new_row = mark key made;
    at_new_after = h.new_after;
    is_successor = made-IsSuccessor;
    dependents = λ k r n n' e a d. h.others k r n n' e ∙ ap some (marks k r a d);
    independents = λ k r n n' e d. h.others k r n n' e ∙ ap some (marks_not k r d);
    stale_edges = λ k r e d. h.edges k r e ∙ ap some (makes_stale k r d);
    other_edges = λ k r e d. h.edges k r e ∙ ap some (makes_not_stale k r d);
    returned = (
      ap (λ (x : WriteResult). x.id) h.returned ∙ made_id.0,
      ap (λ (x : WriteResult). x.version) h.returned ∙ made_id.1,
      ap (λ (x : WriteResult). x.replayed) h.returned,
    );
  }

-- A supersession that succeeds was of an open record of the request's scope, at the version that the
-- caller saw. It closes this record at the close instant (as asked, or the start of the successor, or
-- now), at its next version and with a link to the successor, which is a new first version with a
-- link back, with the request's content, from the close on if the request names no start. The other
-- records of the scope that were derived from it become stale and no others; so do the active
-- derivation edges of the scope that touch it, which leave their live keys, and no others.
pub supersede-Superseded :
    (e : Env) (now : ℕ) (key : Text) (req : SupersedeRequest) (w : WriteResult) (s s' : Plane)
    → supersede e now key req s ≡ (ok w, s')
    → Superseded now key req w s s'
supersede-Superseded e now key req w s s' run =
    Committed-Superseded now key req w s s' (supersede-Committed e now key req w s s' run)
