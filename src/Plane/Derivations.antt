-- ===== src/Plane/Derivations.antt =====
-- What depends on a superseded memory: the rows and the edges of its derivations, by their values and
-- by the tests of the transaction.
use nomiso.Prelude.{◌≡◌, refl, ◌⊎◌, inl, inr, Bool, true, ◌&&◌, List, [], ◌∷◌, arith, Bool-cases}
use nomiso.Prelude.Text.{Text, text_eq, text_eq_iff}
use nomiso.Endpoints.{EndpointKind, EndpointRef, memory, entity, artifact, span}
use nomiso.Relations.{
  RelationPredicate, supports, derived_from, contradicts, supersedes, mentions, depends_on,
  applies_to, observed_in, attempted, resolved_by, RelationshipState, active, closed, stale, purged,
}
use nomiso.Plane.{RelationshipRecord, RelationshipRow}
use nomiso.Plane.Supersede.{depends_on_prior, touches, is_memory, is_active_edge, is_derivation}

-- The row under `k` was derived from the predecessor.
abbrev pub Depends : Text → List (Text × Text) → Text → Type 0
Depends prior [] k = ⊥
Depends prior ((dependent, source) ∷ rows) k =
    ((source ≡ prior) × (dependent ≡ k)) ⊎ Depends prior rows k

-- An active edge of derivation of the scope with the memory at one of its ends.
abbrev pub IsDerivationOf : Text → Text → RelationshipRecord → Type 0
IsDerivationOf scope key e =
    (e.scope ≡ scope)
    × (e.state ≡ active)
    × (e.predicate ≡ derived_from)
    × (((e.subject.kind ≡ memory) × (e.subject.id ≡ key))
        ⊎ ((e.object.kind ≡ memory) × (e.object.id ≡ key)))

-- Derivations, decided by the test of the transaction.
pub Depends-depends_on_prior :
    (prior : Text) (rows : List (Text × Text)) (k : Text)
    → Depends prior rows k
    → depends_on_prior prior rows k ≡ true
Depends-depends_on_prior prior [] k d = absurd d
Depends-depends_on_prior prior ((dependent, source) ∷ rows) k (inl (a, b)) =
    rw ((text_eq_iff source prior).1 a, (text_eq_iff dependent k).1 b) refl
Depends-depends_on_prior prior ((dependent, source) ∷ rows) k (inr d) =
    let rest = Depends-depends_on_prior prior rows k d in ground arith

pub depends_on_prior-Depends :
    (prior : Text) (rows : List (Text × Text)) (k : Text)
    → depends_on_prior prior rows k ≡ true
    → Depends prior rows k
depends_on_prior-Depends prior [] k h = absurd (cc h)
depends_on_prior-Depends prior ((dependent, source) ∷ rows) k h =
    elim (Bool-cases (text_eq source prior && text_eq dependent k)) [
      | inl q ↦
          inl (ground (arith, text_eq_iff source prior), ground (arith, text_eq_iff dependent k))
      | inr q ↦ inr (depends_on_prior-Depends prior rows k (ground arith))
    ]

is_memory-memory : (k : EndpointKind) → is_memory k ≡ true → k ≡ memory
is_memory-memory memory h = refl
is_memory-memory entity h = absurd cc
is_memory-memory artifact h = absurd cc
is_memory-memory span h = absurd cc

is_active_edge-active : (x : RelationshipState) → is_active_edge x ≡ true → x ≡ active
is_active_edge-active active h = refl
is_active_edge-active closed h = absurd cc
is_active_edge-active stale h = absurd cc
is_active_edge-active purged h = absurd cc

is_derivation-derived_from : (p : RelationPredicate) → is_derivation p ≡ true → p ≡ derived_from
is_derivation-derived_from supports h = absurd cc
is_derivation-derived_from derived_from h = refl
is_derivation-derived_from contradicts h = absurd cc
is_derivation-derived_from supersedes h = absurd cc
is_derivation-derived_from mentions h = absurd cc
is_derivation-derived_from depends_on h = absurd cc
is_derivation-derived_from applies_to h = absurd cc
is_derivation-derived_from observed_in h = absurd cc
is_derivation-derived_from attempted h = absurd cc
is_derivation-derived_from resolved_by h = absurd cc

abbrev at_memory : Text → EndpointRef → Bool
at_memory key e = is_memory e.kind && text_eq e.id key

at_memory-eq :
    (key : Text) (e : EndpointRef) → at_memory key e ≡ true → (e.kind ≡ memory) × (e.id ≡ key)
at_memory-eq key e h =
    (is_memory-memory e.kind (ground arith), ground (arith, text_eq_iff e.id key))

eq-at_memory :
    (key : Text) (e : EndpointRef) → (e.kind ≡ memory) × (e.id ≡ key) → at_memory key e ≡ true
eq-at_memory key e (a, b) = rw (a, (text_eq_iff e.id key).1 b) refl

-- The test that the transaction makes on an edge.
abbrev pub is_touched : Text → Text → RelationshipRow → Bool
is_touched scope key e =
    text_eq e.edge.scope scope
    && (is_active_edge e.edge.state && (is_derivation e.edge.predicate && touches key e))

pub IsDerivationOf-is_touched :
    (scope key : Text) (r : RelationshipRow)
    → IsDerivationOf scope key r.edge
    → is_touched scope key r ≡ true
IsDerivationOf-is_touched scope key r (a, b, c, inl d) =
    rw ((text_eq_iff r.edge.scope scope).1 a, b, c, eq-at_memory key r.edge.subject d) refl
IsDerivationOf-is_touched scope key r (a, b, c, inr d) =
    let e = eq-at_memory key r.edge.object d in
    let f : touches key r ≡ true = ground arith in
    rw ((text_eq_iff r.edge.scope scope).1 a, b, c, f) refl

touches-ends :
    (key : Text) (r : RelationshipRow)
    → touches key r ≡ true
    → ((r.edge.subject.kind ≡ memory) × (r.edge.subject.id ≡ key))
      ⊎ ((r.edge.object.kind ≡ memory) × (r.edge.object.id ≡ key))
touches-ends key r h = elim (Bool-cases (at_memory key r.edge.subject)) [
  | inl a ↦ inl (at_memory-eq key r.edge.subject a)
  | inr a ↦ inr (at_memory-eq key r.edge.object (ground arith))
]

pub is_touched-IsDerivationOf :
    (scope key : Text) (r : RelationshipRow)
    → is_touched scope key r ≡ true
    → IsDerivationOf scope key r.edge
is_touched-IsDerivationOf scope key r h = (
  ground (arith, text_eq_iff r.edge.scope scope),
  is_active_edge-active r.edge.state (ground arith),
  is_derivation-derived_from r.edge.predicate (ground arith),
  touches-ends key r (ground arith),
)
