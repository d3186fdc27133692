-- ===== src/Jobs/Identity.antt =====
-- The deduplication key of a request does not depend on the order of its inputs.
use mathlib.Core.List.{Permᴰ}
use mathlib.Core.List.Permᴰ
use nomiso.Prelude.{◌≡◌, refl, ap, ◌∙◌, sym, inl, inr, List, ◌∷◌}
use nomiso.Prelude.Text.{Text, text_leb}
use nomiso.Prelude.Sort.{sort}
use nomiso.Prelude.Order.{sort_shuffled, text_leb_total, text_leb_trans, text_leb_antisym}
use nomiso.Errors.{Result, ok, traverse, Result-cases}
use nomiso.Host.{Host}
use nomiso.Jobs.{JobInput, EnqueueJobRequest}
use nomiso.Jobs.Inputs.{input_identity, dedup_material, job_dedup_key}

module _ {A B : Type 0} (f : A → Result B) where
  -- The results for the elements of a list that has none in error, with each element's.
  traverse-ok :
      (x : A) (xs : List A) (zs : List B)
      → traverse f (x ∷ xs) ≡ ok zs
      → (y : B) × (ys : List B) × (f x ≡ ok y) × (traverse f xs ≡ ok ys) × (zs ≡ y ∷ ys)
  traverse-ok x xs zs e = elim (Result-cases (f x)) [
    | inr (z, a) ↦ absurd (cc (rw a at e))
    | inl (y, a) ↦ elim (Result-cases (traverse f xs)) [
      | inr (z, b) ↦ absurd (cc (rw (a, b) at e))
      | inl (ys, b) ↦ (y, ys, a, b, cc (rw (a, b) at e))
    ]
  ]

  traverse_shuffled :
      {xs xs' : List A}
      → Permᴰ xs xs'
      → (ys : List B) → traverse f xs ≡ ok ys
      → (ys' : List B) × (traverse f xs' ≡ ok ys') × Permᴰ ys ys'
  traverse_shuffled Permᴰ.nil ys e = (ys, e, Permᴰ.refl ys)
  traverse_shuffled (Permᴰ.cons {a = a} {b = b} {l₁ = l₁} {l₂ = l₂} p d) ys e =
      let (z, zs, u, v, w) = traverse-ok a l₁ ys e in
      let (zs', v', q) = traverse_shuffled d zs v in
      (z ∷ zs', rw (ap f (sym p) ∙ u, v') refl, rw w (Permᴰ.cons refl q))
  traverse_shuffled (Permᴰ.swap {a = a} {b = b} {a' = a'} {b' = b'} {l = l} p q) ys e =
      let (y, t, u, v, w) = traverse-ok a (b ∷ l) ys e in
      let (z, zs, u', v', w') = traverse-ok b l t v in
      (
        z ∷ y ∷ zs,
        rw (ap f (sym q) ∙ u', ap f (sym p) ∙ u, v') refl,
        rw (w, w') (Permᴰ.swap refl refl),
      )
  traverse_shuffled (Permᴰ.trans d₁ d₂) ys e =
      let (ys₁, e₁, q₁) = traverse_shuffled d₁ ys e in
      let (ys₂, e₂, q₂) = traverse_shuffled d₂ ys₁ e₁ in (ys₂, e₂, Permᴰ.trans q₁ q₂)

-- A request whose inputs are in another order has the same deduplication key.
pub job_dedup_key_shuffled :
    (h : Host) (req : EnqueueJobRequest) (scope key : Text) (inputs : List JobInput)
    → job_dedup_key h req scope ≡ ok key
    → Permᴰ req.inputs inputs
    → job_dedup_key h (record req { inputs = inputs }) scope ≡ ok key
unfolding job_dedup_key dedup_material
job_dedup_key_shuffled h req scope key inputs e p =
    elim (Result-cases (traverse input_identity req.inputs)) [
      | inr (x, a) ↦ absurd (cc (rw a at e))
      | inl (ins, a) ↦
          let (ins', b, q) = traverse_shuffled input_identity p ins a in
          let same : sort text_leb ins ≡ sort text_leb ins' =
            sort_shuffled text_leb text_leb_total text_leb_trans text_leb_antisym q in
          rw (b, sym same) (rw a at e)
    ]
