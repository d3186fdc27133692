-- ===== src/Plane/Related.antt =====
-- A relationship that was put once: the same request again, and what a put needs.
use nomiso.Prelude.{ℕ, ◌≡◌, ◌⊎◌, true, false, [], ◌∷◌, ◌++◌, none, some}
use nomiso.Prelude.Text.{Text, codes}
use nomiso.Errors.{ok}
use nomiso.Plane.{RelationshipRecord, Plane}
use nomiso.Plane.Checks.{Lookup, endpoint_scope_version}
use nomiso.Relations.{active}
use nomiso.Plane.Matches.{Matches}
use nomiso.Plane.Edges.{
  PutRelationshipRequest, RelationshipWrite, Examined, examine, live_of, relationship_by_live_key,
}

-- How a put ends: the edge was there under the request's live key, or it is new under a live key that
-- was free.
pub record Held (elsewhere : Lookup) (req : PutRelationshipRequest) (w : RelationshipWrite)
    (s s' : Plane) : Type 0 where
  pub found : Examined
  pub passes : examine (endpoint_scope_version elsewhere s') req ≡ ok found
  pub unchanged : s' ≡ s
  pub holds : relationship_by_live_key (live_of req found) s'.relationships ≡ some w.edge
  pub asked : req.dedupe ≡ true
  pub matches : Matches req w.edge
  pub replay : w.replayed ≡ true

-- An edge as the request describes it.
pub record IsAsserted (now : ℕ) (key : Text) (req : PutRelationshipRequest) (x : Examined)
    (e : RelationshipRecord) : Type 0 where
  pub id : e.id ≡ codes "relationship:" ++ key
  pub scope : e.scope ≡ x.scope
  pub predicate : e.predicate ≡ req.predicate
  pub subject : (e.subject.kind ≡ req.subject.kind) × (e.subject.id ≡ x.subject_key)
  pub object : (e.object.kind ≡ req.object.kind) × (e.object.id ≡ x.object_key)
  pub pins : (e.subject_rev ≡ req.subject_rev) × (e.object_rev ≡ req.object_rev)
  pub epistemic : e.epistemic ≡ req.epistemic
  pub evidence : e.evidence ≡ x.evidence
  pub producer : e.producer ≡ req.producer
  pub state : (e.state ≡ active) × (e.state_reason ≡ none)
  pub start : (t : ℕ) → req.valid_from ≡ some t → e.valid_from ≡ t
  pub starts_now : req.valid_from ≡ none → e.valid_from ≡ now
  pub until : e.valid_until ≡ req.valid_until
  pub first_version : (e.version ≡ 1) × (e.created_at ≡ now)

pub record Created (elsewhere : Lookup) (now : ℕ) (key : Text) (req : PutRelationshipRequest)
    (w : RelationshipWrite) (s s' : Plane) : Type 0 where
  pub found : Examined
  pub passes : examine (endpoint_scope_version elsewhere s') req ≡ ok found
  pub holds : relationship_by_live_key (live_of req found) s'.relationships ≡ some w.edge
  pub asserted : IsAsserted now key req found w.edge
  pub is_new : w.replayed ≡ false
  pub free : relationship_by_live_key (live_of req found) s.relationships ≡ none
  pub rows :
      s'.relationships
      ≡ s.relationships ++ (key, record { edge = w.edge; live_key = some (live_of req found) }) ∷ []

module _ (elsewhere : Lookup) (now : ℕ) (key : Text) (req : PutRelationshipRequest)
    (w : RelationshipWrite) (s s' : Plane) (x : Examined)
    (examined : examine (endpoint_scope_version elsewhere s) req ≡ ok x) where
  abbrev Once : Type 0
  Once = Held elsewhere req w s s' ⊎ Created elsewhere now key req w s s'
