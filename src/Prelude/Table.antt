-- ===== src/Prelude/Table.antt =====
-- A table of the store: rows under text keys.
use mathlib.Core.Path.{◌≡◌, refl}
use mathlib.Core.Logic.{◌≢◌, inl, inr}
use mathlib.Core.Bool.{Bool}
use mathlib.Core.Option.{Option, none, some}
use mathlib.Core.List.{List, [], ◌∷◌, ◌++◌}
use native.Mathlib.Omega.{arith}
use package.nomiso.Prelude.Tests.{if◌then◌else◌, Bool-cases}
use package.nomiso.Prelude.Text.{Text, text_eq, text_eq_iff, text_eq_refl}

module _ {ℓ} {V : Type ℓ} where
  unfoldable pub find : Text → List (Text × V) → Option V
  find key [] = none
  find key ((k, v) ∷ t) = if text_eq k key then some v else find key t

  -- `UPDATE type::record(…)`: the row under the key.
  unfoldable pub update : Text → (V → V) → List (Text × V) → List (Text × V)
  update key f [] = []
  update key f ((k, v) ∷ t) = if text_eq k key then (k, f v) ∷ t else (k, v) ∷ update key f t

  -- `UPDATE … WHERE`: all rows that the condition selects.
  unfoldable pub update_where : (Text → V → Bool) → (V → V) → List (Text × V) → List (Text × V)
  update_where p f [] = []
  update_where p f ((k, v) ∷ t) = (k, if p k v then f v else v) ∷ update_where p f t

  unfoldable pub erase : Text → List (Text × V) → List (Text × V)
  erase key [] = []
  erase key ((k, v) ∷ t) = let rest = erase key t in if text_eq k key then rest else (k, v) ∷ rest

  pub find-update_self :
      (key : Text) (f : V → V) (t : List (Text × V)) (v : V)
      → find key t ≡ some v
      → find key (update key f t) ≡ some (f v)
  unfolding find update
  find-update_self key f [] v e = cc
  find-update_self key f ((k, w) ∷ t) v e = ground (arith, find-update_self key f t v)

  pub find-update_ne :
      (key : Text) (f : V → V) (j : Text) (t : List (Text × V))
      → j ≢ key
      → find j (update key f t) ≡ find j t
  unfolding find update
  find-update_ne key f j [] n = refl
  find-update_ne key f j ((k, w) ∷ t) n =
      ground (arith, text_eq_iff k key, text_eq_iff k j, find-update_ne key f j t)

  pub find-update_where :
      (p : Text → V → Bool) (f : V → V) (j : Text) (t : List (Text × V)) (v : V)
      → find j t ≡ some v
      → find j (update_where p f t) ≡ some (if p j v then f v else v)
  unfolding find update_where
  find-update_where p f j [] v e = cc
  find-update_where p f j ((k, w) ∷ t) v e = elim (Bool-cases (text_eq k j)) [
    | inl a ↦
        let same : k ≡ j = (text_eq_iff k j).0 a in let held : w ≡ v = cc (rw a at e) in rw a (cc)
    | inr a ↦ rw a (find-update_where p f j t v (rw a at e))
  ]

  pub find-update_where-none :
      (p : Text → V → Bool) (f : V → V) (j : Text) (t : List (Text × V))
      → find j t ≡ none
      → find j (update_where p f t) ≡ none
  unfolding find update_where
  find-update_where-none p f j [] e = refl
  find-update_where-none p f j ((k, w) ∷ t) e = ground (arith, find-update_where-none p f j t)

  pub find-append_old :
      (j : Text) (t : List (Text × V)) (row : Text × V) (v : V)
      → find j t ≡ some v
      → find j (t ++ row ∷ []) ≡ some v
  unfolding find
  find-append_old j [] row v e = cc
  find-append_old j ((k, w) ∷ t) row v e = ground (arith, find-append_old j t row v)

  pub find-append_new :
      (j : Text) (t : List (Text × V)) (v : V)
      → find j t ≡ none
      → find j (t ++ (j, v) ∷ []) ≡ some v
  unfolding find
  find-append_new j [] v e = ground (arith, text_eq_refl j)
  find-append_new j ((k, w) ∷ t) v e = ground (arith, find-append_new j t v)

  pub find-append_ne :
      (j : Text) (t : List (Text × V)) (k : Text) (v : V)
      → j ≢ k
      → find j (t ++ (k, v) ∷ []) ≡ find j t
  unfolding find
  find-append_ne j [] k v n = ground (arith, text_eq_iff k j)
  find-append_ne j ((i, w) ∷ t) k v n = ground (arith, find-append_ne j t k v)

  pub find-erase_self : (key : Text) (t : List (Text × V)) → find key (erase key t) ≡ none
  unfolding find erase
  find-erase_self key [] = refl
  find-erase_self key ((k, w) ∷ t) = ground (arith, find-erase_self key t)

  pub find-erase_ne :
      (key j : Text) (t : List (Text × V)) → j ≢ key → find j (erase key t) ≡ find j t
  unfolding find erase
  find-erase_ne key j [] n = refl
  find-erase_ne key j ((k, w) ∷ t) n =
      ground (arith, text_eq_iff k key, text_eq_iff k j, find-erase_ne key j t)

  pub find-update-none :
      (j key : Text) (f : V → V) (t : List (Text × V))
      → find j t ≡ none
      → find j (update key f t) ≡ none
  unfolding find update
  find-update-none j key f [] e = refl
  find-update-none j key f ((k, w) ∷ t) e = ground (arith, find-update-none j key f t)
