-- ===== src/Prelude/Order.antt =====
-- Sorting by a total order does not depend on the order of its input.
use mathlib.Core.List.{Permᴰ}
use nomiso.Prelude.{
  ◌≡◌, refl, ap, ◌∙◌, inl, inr, Bool, true, false, List, [], ◌∷◌, if◌then◌else◌, Bool-cases, arith,
}
use nomiso.Prelude.Text.{Text, text_leb}
use nomiso.Prelude.Sort.{insert_sorted, sort}

module _ {ℓ} {A : Type ℓ} (le : A → A → Bool) (total : (a b : A) → le a b ≡ false → le b a ≡ true)
    (trans : (a b c : A) → le a b ≡ true → le b c ≡ true → le a c ≡ true)
    (antisym : (a b : A) → le a b ≡ true → le b a ≡ true → a ≡ b) where
  -- The two smallest of a list, in either order of insertion.
  front :
      (a b : A) (xs : List A)
      → (if le a b then a ∷ b ∷ xs else b ∷ a ∷ xs) ≡ (if le b a then b ∷ a ∷ xs else a ∷ b ∷ xs)
  front a b xs = elim (Bool-cases (le a b)) [
    | inr p ↦ rw (p, total a b p) refl
    | inl p ↦ elim (Bool-cases (le b a)) [
      | inr q ↦ rw (p, q) refl
      | inl q ↦ let e = antisym a b p q in rw (p, q) (cc e)
    ]
  ]

  insert_sorted_comm :
      (a b : A) (xs : List A)
      → insert_sorted le a (insert_sorted le b xs) ≡ insert_sorted le b (insert_sorted le a xs)
  unfolding insert_sorted
  insert_sorted_comm a b [] = front a b []
  insert_sorted_comm a b (x ∷ xs) = elim (Bool-cases (le a x)) [
    | inl p ↦ elim (Bool-cases (le b x)) [
      | inl q ↦ rw (p, q) (rw p (front a b (x ∷ xs)))
      | inr q ↦ elim (Bool-cases (le b a)) [
        | inl r ↦ absurd (cc (trans b a x r p, q))
        | inr r ↦ rw (p, q) (rw (p, r) refl)
      ]
    ]
    | inr p ↦ elim (Bool-cases (le b x)) [
      | inr q ↦ rw (p, q) (rw p (ap (◌∷◌ x) (insert_sorted_comm a b xs)))
      | inl q ↦ elim (Bool-cases (le a b)) [
        | inl r ↦ absurd (cc (trans a b x r q, p))
        | inr r ↦ rw (p, q) (rw (r, p) refl)
      ]
    ]
  ]

  pub sort_shuffled : {xs ys : List A} → Permᴰ xs ys → sort le xs ≡ sort le ys
  unfolding sort
  sort_shuffled Permᴰ.nil = refl
  sort_shuffled (Permᴰ.cons {b = b} {l₁ = l₁} e d) =
      ap (λ c. insert_sorted le c (sort le l₁)) e ∙ ap (insert_sorted le b) (sort_shuffled d)
  sort_shuffled (Permᴰ.swap {a = a} {b = b} {l = l} e f) =
      insert_sorted_comm a b (sort le l) ∙ rw (e, f) refl
  sort_shuffled (Permᴰ.trans d f) = sort_shuffled d ∙ sort_shuffled f

pub text_leb_total : (a b : Text) → text_leb a b ≡ false → text_leb b a ≡ true
unfolding text_leb
text_leb_total [] b h = absurd (cc h)
text_leb_total (x ∷ xs) [] h = refl
text_leb_total (x ∷ xs) (y ∷ ys) h = ground (arith, text_leb_total xs ys)

pub text_leb_trans :
    (a b c : Text) → text_leb a b ≡ true → text_leb b c ≡ true → text_leb a c ≡ true
unfolding text_leb
text_leb_trans [] b c h k = refl
text_leb_trans (x ∷ xs) [] c h k = absurd (cc h)
text_leb_trans (x ∷ xs) (y ∷ ys) [] h k = absurd (cc k)
text_leb_trans (x ∷ xs) (y ∷ ys) (z ∷ zs) h k = ground (arith, text_leb_trans xs ys zs)

pub text_leb_antisym : (a b : Text) → text_leb a b ≡ true → text_leb b a ≡ true → a ≡ b
unfolding text_leb
text_leb_antisym [] [] h k = refl
text_leb_antisym [] (y ∷ ys) h k = absurd (cc k)
text_leb_antisym (x ∷ xs) [] h k = absurd (cc h)
text_leb_antisym (x ∷ xs) (y ∷ ys) h k = ground (arith, text_leb_antisym xs ys)
