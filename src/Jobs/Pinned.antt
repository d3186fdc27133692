-- ===== src/Jobs/Pinned.antt =====
-- What it means that the inputs of a job are in place.
use nomiso.Prelude.{
  ℕ, ◌≡◌, ap, inl, inr, Bool, true, List, [], ◌∷◌, some, arith, Option-cases, All, ◌∙◌, ◌&&◌,
}
use nomiso.Prelude.Text.{Text, text_eq_iff}
use nomiso.Errors.{ok, Result-cases}
use nomiso.Endpoints.{EndpointKind, memory, entity, artifact, span}
use nomiso.Jobs.{JobInput}
use nomiso.Jobs.Journal.{Store, Endpoint}
use nomiso.Jobs.Inputs.{input_bare_key, pinned, in_place, input_holds, inputs_hold}

-- The kinds of records that carry a version.
abbrev pub HasVersion : EndpointKind → Type 0
HasVersion memory = Unit
HasVersion entity = Unit
HasVersion artifact = ⊥
HasVersion span = ⊥

-- The input is there, in the scope of the job, and at its pinned revision if its kind has versions.
pub record InPlace (s : Store) (scope : Text) (input : JobInput) : Type 0 where
  pub key : Text
  pub record_at : Endpoint
  pub named : input_bare_key input ≡ ok key
  pub there : s.endpoint input.kind key ≡ some record_at
  pub same_scope : record_at.scope ≡ scope
  pub at_revision :
      (revision : ℕ)
      → input.revision ≡ some revision
      → HasVersion input.kind
      → record_at.version ≡ revision

pinned_revision :
    (kind : EndpointKind) (revision version : ℕ)
    → pinned kind (some revision) version ≡ true
    → HasVersion kind
    → version ≡ revision
unfolding pinned
pinned_revision memory revision version h k = ground arith
pinned_revision entity revision version h k = ground arith
pinned_revision artifact revision version h k = absurd k
pinned_revision span revision version h k = absurd k

in_place-InPlace :
    (s : Store) (scope : Text) (input : JobInput) (key : Text) (e : Endpoint)
    → input_bare_key input ≡ ok key
    → s.endpoint input.kind key ≡ some e
    → in_place scope input (some e) ≡ true
    → InPlace s scope input
unfolding in_place
in_place-InPlace s scope input key e named there h =
    let at : pinned input.kind input.revision e.version ≡ true = ground arith in
    record {
      key = key;
      record_at = e;
      named = named;
      there = there;
      same_scope = ground (arith, text_eq_iff e.scope scope);
      at_revision = λ revision r k. pinned_revision input.kind revision e.version (rw r at at) k;
    }

input_holds-InPlace :
    (s : Store) (scope : Text) (input : JobInput)
    → input_holds s scope input ≡ ok true
    → InPlace s scope input
unfolding input_holds in_place
input_holds-InPlace s scope input h = elim (Result-cases (input_bare_key input)) [
  | inr (x, a) ↦ absurd (cc (rw a at h))
  | inl (key, a) ↦ elim (Option-cases (s.endpoint input.kind key)) [
    | inl b ↦ absurd (cc (rw (a, b) at h))
    | inr (e, b) ↦ in_place-InPlace s scope input key e a b (cc (rw (a, b) at h))
  ]
]

both : (a b : Bool) → ok (a && b) ≡ ok true → (a ≡ true) × (b ≡ true)
both a b h = ground arith

pub inputs_hold-InPlace :
    (s : Store) (scope : Text) (inputs : List JobInput)
    → inputs_hold s scope inputs ≡ ok true
    → All (InPlace s scope) inputs
unfolding inputs_hold
inputs_hold-InPlace s scope [] h = tt
inputs_hold-InPlace s scope (input ∷ rest) h = elim (Result-cases (input_holds s scope input)) [
  | inr (x, a) ↦ absurd (cc (rw a at h))
  | inl (first, a) ↦ elim (Result-cases (inputs_hold s scope rest)) [
    | inr (x, b) ↦ absurd (cc (rw (a, b) at h))
    | inl (others, b) ↦
        let (p, q) = both first others (rw (a, b) at h) in
        (
          input_holds-InPlace s scope input (a ∙ ap ok p),
          inputs_hold-InPlace s scope rest (b ∙ ap ok q),
        )
  ]
]
