-- ===== src/Plane/Amended.antt =====
-- How an update of a relationship makes the next version of an edge, and what it asks.
use nomiso.Prelude.{
  refl, is_empty, ℕ, ◌+◌, ◌≡◌, ap, sym, ◌∙◌, inl, inr, false, ◌++◌, Option, none, some, Bool-cases,
  Option-cases, arith,
}
use nomiso.Prelude.Text.{Text, codes, text_eq, text_eq_iff, trim}
use nomiso.Prelude.Table.{find}
use nomiso.Errors.{ok}
use nomiso.Scope
use nomiso.Scope.{ScopePath}
use nomiso.Relations.{EpistemicStatus, RelationshipState, active, closed, stale, purged}
use nomiso.Plane.{RelationshipRecord, RelationshipRow, Plane}
use nomiso.Plane.Checks.{rel_bare_key}
use nomiso.Plane.Revisions.{
  UpdateRelationshipRequest, get_relationship, check_state, updated_row, check_reason,
}

-- The states that an update may ask for.
abbrev pub MayAsk : Option RelationshipState → Type 0
MayAsk none = Unit
MayAsk (some active) = ⊥
MayAsk (some closed) = Unit
MayAsk (some stale) = Unit
MayAsk (some purged) = ⊥

-- To close an edge or to mark it as stale takes a reason that is not blank.
abbrev pub GivesReason : Option Text → Type 0
GivesReason reason = (t : Text) × (reason ≡ some t) × (is_empty (trim t) ≡ false)

-- How an edge follows from the edge before and the request.
pub record IsRevision (now : ℕ) (req : UpdateRelationshipRequest) (old edge : RelationshipRecord)
    : Type 0 where
  pub next_version : edge.version ≡ req.expected_version + 1
  pub at_now : edge.updated_at ≡ now
  pub asked_state :
      (x : RelationshipState)
      → req.state ≡ some x
      → (edge.state ≡ x) × (edge.state_reason ≡ req.state_reason)
  pub kept_state :
      req.state ≡ none → (edge.state ≡ old.state) × (edge.state_reason ≡ old.state_reason)
  pub asked_epistemic : (x : EpistemicStatus) → req.epistemic ≡ some x → edge.epistemic ≡ x
  pub kept_epistemic : req.epistemic ≡ none → edge.epistemic ≡ old.epistemic
  pub asked_until : (t : ℕ) → req.valid_until ≡ some t → edge.valid_until ≡ some t
  pub kept_until : req.valid_until ≡ none → edge.valid_until ≡ old.valid_until
  pub kept_evidence : req.evidence ≡ none → edge.evidence ≡ old.evidence
  pub same_id : edge.id ≡ old.id
  pub same_scope : edge.scope ≡ old.scope
  pub same_ends : (edge.subject ≡ old.subject) × (edge.object ≡ old.object)
  pub same_predicate : edge.predicate ≡ old.predicate
  pub same_start : edge.valid_from ≡ old.valid_from
  pub same_producer : edge.producer ≡ old.producer

pub updated_row-IsRevision :
    (now : ℕ) (req : UpdateRelationshipRequest) (r : RelationshipRow)
    → r.edge.version ≡ req.expected_version
    → IsRevision now req r.edge (updated_row now req r).edge
unfolding updated_row
updated_row-IsRevision now req r e = record {
  next_version = ap (λ v. v + 1) e;
  at_now = refl;
  asked_state = λ x a. rw a (refl, refl);
  kept_state = λ a. rw a (refl, refl);
  asked_epistemic = λ x a. rw a refl;
  kept_epistemic = λ a. rw a refl;
  asked_until = λ t a. rw a refl;
  kept_until = λ a. rw a refl;
  kept_evidence = λ a. rw a refl;
  same_id = refl;
  same_scope = refl;
  same_ends = (refl, refl);
  same_predicate = refl;
  same_start = refl;
  same_producer = refl;
}

-- An edge that asks for a state leaves its live key.
pub updated_row-live_key :
    (now : ℕ) (req : UpdateRelationshipRequest) (r : RelationshipRow) (x : RelationshipState)
    → req.state ≡ some x
    → (updated_row now req r).live_key ≡ some (codes "X|" ++ r.edge.id)
unfolding updated_row
updated_row-live_key now req r x a = rw a refl

pub check_state-MayAsk :
    (state : Option RelationshipState) (reason : Option Text)
    → check_state state reason ≡ ok tt
    → MayAsk state
unfolding check_state
check_state-MayAsk none reason h = tt
check_state-MayAsk (some active) reason h = absurd (cc h)
check_state-MayAsk (some closed) reason h = tt
check_state-MayAsk (some stale) reason h = tt
check_state-MayAsk (some purged) reason h = absurd (cc h)

pub updated_row-kept_live :
    (now : ℕ) (req : UpdateRelationshipRequest) (r : RelationshipRow)
    → req.state ≡ none
    → (updated_row now req r).live_key ≡ r.live_key
unfolding updated_row
updated_row-kept_live now req r a = rw a refl

pub check_reason-GivesReason :
    (reason : Option Text) → check_reason reason ≡ ok tt → GivesReason reason
check_reason-GivesReason none h = absurd (cc h)
check_reason-GivesReason (some t) h = (t, refl, ground arith)

pub check_state-GivesReason :
    (state : Option RelationshipState) (reason : Option Text)
    → check_state state reason ≡ ok tt
    → (x : RelationshipState) → state ≡ some x
    → GivesReason reason
unfolding check_state
check_state-GivesReason none reason h x e = absurd cc
check_state-GivesReason (some active) reason h x e = absurd (cc h)
check_state-GivesReason (some closed) reason h x e = check_reason-GivesReason reason h
check_state-GivesReason (some stale) reason h x e = check_reason-GivesReason reason h
check_state-GivesReason (some purged) reason h x e = absurd (cc h)

-- An edge that the scope owns.
abbrev pub Owned : Text → ScopePath → RelationshipRecord → Plane → Type 0
Owned id path read s =
    (named : RelationshipRow) × (find (rel_bare_key id) s.relationships ≡ some named)
    × (named.edge ≡ read)
    × (read.scope ≡ path.as_str)

pub get_relationship-Owned :
    (id raw_scope : Text) (path : ScopePath) (read : RelationshipRecord) (s : Plane)
    → Scope.parse raw_scope ≡ ok path
    → get_relationship id raw_scope s ≡ ok read
    → Owned id path read s
unfolding get_relationship
get_relationship-Owned id raw_scope path read s a h =
    elim (Option-cases (find (rel_bare_key id) s.relationships)) [
      | inl b ↦ absurd (cc (rw (a, b) at h))
      | inr (r, b) ↦ elim (Bool-cases (text_eq r.edge.scope path.as_str)) [
        | inr c ↦ absurd (cc (rw (a, b, c) at h))
        | inl c ↦
            let same : r.edge ≡ read = cc (rw (a, b, c) at h) in
            (
              r,
              b,
              same,
              ap (λ (x : RelationshipRecord). x.scope) (sym same)
                  ∙ (text_eq_iff r.edge.scope path.as_str).0 c,
            )
      ]
    ]
