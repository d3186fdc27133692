-- ===== src/Errors.antt =====
-- crates/nomiso-core/src/error.rs: the error taxonomy and the result monad of the library.
use nomiso.Prelude.{ℕ, String, Bool, true, false, ◌≡◌, refl, List, [], ◌∷◌, ◌⊎◌, inl, inr}

-- `Error`. A payload is the fixed part of the message that the source formats.
pub data Error : Type 0 where
  invalid_op : String → Error
  conflict : ℕ → ℕ → Error
  not_found : String → Error
  scope_denied : String → Error
  dimension_mismatch : ℕ → ℕ → Error
  payload_too_large : String → Error
  store : String → Error
  provider_unavailable : String → Error
  invalid_provider_response : String → Error
  deadline_exceeded : Error
  cancelled : Error
  idempotency_conflict : Error
  idempotency_unavailable : Error
  incompatible_store : String → Error
  lease_lost : String → Error
  stale_input : String → Error
  internal : String → Error

pub data Result {ℓ} (A : Type ℓ) : Type ℓ where
  ok : A → Result A
  err : Error → Result A

-- The `?` operator: an error ends the method.
module _ {ℓ κ} {A : Type ℓ} {B : Type κ} where
  infixl 5 ◌>>=◌
  abbrev pub ◌>>=◌ : Result A → (A → Result B) → Result B
  err failure >>= next = err failure
  ok value >>= next = next value

module _ {ℓ} {B : Type ℓ} where
  infixl 5 ◌>>◌
  abbrev pub ◌>>◌ : Result (Unit {0}) → Result B → Result B
  check >> rest = check >>= λ _. rest

-- `if bad { return Err(e); }`
abbrev pub refuse_if : Bool → Error → Result (Unit {0})
refuse_if true e = err e
refuse_if false e = ok tt

-- `items.iter().map(f).collect::<Result<Vec<_>>>()`
abbrev pub traverse {ℓ κ} : {A : Type ℓ} {B : Type κ} → (A → Result B) → List A → Result (List B)
traverse f [] = ok []
traverse f (x ∷ xs) = f x >>= λ y. traverse f xs >>= λ ys. ok (y ∷ ys)

pub Result-cases {ℓ} :
    {A : Type ℓ} (r : Result A) → ((a : A) × (r ≡ ok a)) ⊎ ((e : Error) × (r ≡ err e))
Result-cases (ok a) = inl (a, refl)
Result-cases (err e) = inr (e, refl)
