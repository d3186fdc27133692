-- ===== src/Prelude/Sort.antt =====
-- A stable sort by a Boolean comparison, for `sort`, `sort_by` and `ORDER BY`.
use mathlib.Core.Bool.{Bool}
use mathlib.Core.Logic.{inl, inr}
use mathlib.Core.List.{List, [], ◌∷◌, Perm}
use mathlib.Core.List.Perm
use package.nomiso.Prelude.Tests.{if◌then◌else◌, Bool-cases}
use nomiso.Prelude.{All, All-map, true, false, ◌≡◌}

module _ {ℓ} {A : Type ℓ} (le : A → A → Bool) where
  unfoldable pub insert_sorted : A → List A → List A
  insert_sorted a [] = a ∷ []
  insert_sorted a (x ∷ xs) = if le a x then a ∷ x ∷ xs else x ∷ insert_sorted a xs

  unfoldable pub sort : List A → List A
  unfolding insert_sorted
  sort [] = []
  sort (x ∷ xs) = insert_sorted x (sort xs)

  insert_sorted-perm : (a : A) (xs : List A) → Perm (insert_sorted a xs) (a ∷ xs)
  unfolding insert_sorted
  insert_sorted-perm a [] = Perm.refl _
  insert_sorted-perm a (x ∷ xs) = elim (Bool-cases (le a x)) [
    | inl h ↦ rw h (Perm.refl _)
    | inr h ↦ rw h (Perm.trans (Perm.cons x (insert_sorted-perm a xs)) (Perm.swap a x xs))
  ]

module _ {ℓ κ} {A : Type ℓ} (le : A → A → Bool) (P : A → Type κ) where
  All-insert_sorted : (a : A) (xs : List A) → P a → All P xs → All P (insert_sorted le a xs)
  unfolding insert_sorted
  All-insert_sorted a [] h hs = (h, tt)
  All-insert_sorted a (x ∷ xs) h hs = elim (Bool-cases (le a x)) [
    | inl e ↦ rw e (h, hs)
    | inr e ↦ rw e (hs.0, All-insert_sorted a xs h hs.1)
  ]

  pub All-sort : (xs : List A) → All P xs → All P (sort le xs)
  unfolding sort
  All-sort [] h = tt
  All-sort (x ∷ xs) h = All-insert_sorted x (sort le xs) h.0 (All-sort xs h.1)

-- Sorting permutes, and orders where the comparison is total and transitive.
module _ {ℓ} {A : Type ℓ} (le : A → A → Bool) where
  pub sort-perm : (xs : List A) → Perm (sort le xs) xs
  unfolding sort
  sort-perm [] = Perm.refl []
  sort-perm (x ∷ xs) =
      Perm.trans (insert_sorted-perm le x (sort le xs)) (Perm.cons x (sort-perm xs))

  abbrev pub Ordered : List A → Type 0
  Ordered [] = Unit
  Ordered (x ∷ xs) = All (λ y. le x y ≡ true) xs × Ordered xs

module _ {ℓ} {A : Type ℓ} (le : A → A → Bool) (total : (a b : A) → le a b ≡ false → le b a ≡ true)
    (trans : (a b c : A) → le a b ≡ true → le b c ≡ true → le a c ≡ true) where
  insert_sorted-Ordered : (a : A) (xs : List A) → Ordered le xs → Ordered le (insert_sorted le a xs)
  unfolding insert_sorted
  insert_sorted-Ordered a [] h = (tt, tt)
  insert_sorted-Ordered a (x ∷ xs) h = elim (Bool-cases (le a x)) [
    | inl e ↦
        rw e (
          (e, All-map (λ y. le x y ≡ true) (λ y. le a y ≡ true) xs (λ y d. trans a x y e d) h.0),
          h,
        )
    | inr e ↦ rw e (
      All-insert_sorted le (λ y. le x y ≡ true) a xs (total a x e) h.0,
      insert_sorted-Ordered a xs h.1,
    )
  ]

  pub sort-Ordered : (xs : List A) → Ordered le (sort le xs)
  unfolding sort
  sort-Ordered [] = tt
  sort-Ordered (x ∷ xs) = insert_sorted-Ordered x (sort le xs) (sort-Ordered xs)
