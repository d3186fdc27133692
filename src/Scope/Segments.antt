-- ===== src/Scope/Segments.antt =====
-- Splitting a scope path at its slashes and joining the segments again.
use mathlib.Core.List.{append_assoc}
use nomiso.Prelude.{ℕ, ◌≡◌, refl, ap, ◌∙◌, sym, List, [], ◌∷◌, ◌++◌, arith, ◌≢◌}
use nomiso.Prelude.Text.{Text}
use nomiso.Scope.{slash, split, push_char}

abbrev pub join : List Text → Text
join [] = []
join (segment ∷ []) = segment
join (segment ∷ next ∷ rest) = segment ++ (slash ∷ join (next ∷ rest))

split-ne-nil : (s : Text) → split s ≢ []
unfolding split
split-ne-nil [] h = ground arith
split-ne-nil (c ∷ s) h = ground (arith, split-ne-nil s)

join-push_char : (c : ℕ) (segments : List Text) → join (push_char c segments) ≡ c ∷ join segments
join-push_char c [] = refl
join-push_char c (segment ∷ []) = refl
join-push_char c (segment ∷ next ∷ rest) = refl

join-cons :
    (segment : Text) (rest : List Text)
    → rest ≢ []
    → join (segment ∷ rest) ≡ segment ++ (slash ∷ join rest)
join-cons segment [] h = absurd (h refl)
join-cons segment (next ∷ rest) h = refl

pub join-split : (s : Text) → join (split s) ≡ s
unfolding split
join-split [] = refl
join-split (c ∷ s) =
    ground
      (arith, join-split s, join-push_char c (split s), join-cons [] (split s) (split-ne-nil s))

push_char-append :
    (c : ℕ) (xs ys : List Text) → xs ≢ [] → push_char c (xs ++ ys) ≡ push_char c xs ++ ys
push_char-append c [] ys h = absurd (h refl)
push_char-append c (x ∷ xs) ys h = refl

-- Splitting a concatenation around a slash concatenates the segments.
pub split-append : (a b : Text) → split (a ++ (slash ∷ b)) ≡ split a ++ split b
unfolding split
split-append [] b = refl
split-append (c ∷ a) b =
    ground (arith, split-append a b, push_char-append c (split a) (split b) (split-ne-nil a))

pub join-append :
    (xs : List Text) (y : Text) (ys : List Text)
    → xs ≢ []
    → join (xs ++ (y ∷ ys)) ≡ join xs ++ (slash ∷ join (y ∷ ys))
join-append [] y ys h = absurd (h refl)
join-append (x ∷ []) y ys h = refl
join-append (x ∷ z ∷ xs) y ys h =
    rw (join-append (z ∷ xs) y ys (λ e. cc))
      (sym (append_assoc x (slash ∷ join (z ∷ xs)) (slash ∷ join (y ∷ ys))))

pub split-join_append :
    (a s : Text) (y : Text) (ys : List Text)
    → split s ≡ split a ++ (y ∷ ys)
    → s ≡ a ++ (slash ∷ join (y ∷ ys))
split-join_append a s y ys h =
    sym (join-split s)
    ∙ ap join h
    ∙ join-append (split a) y ys (split-ne-nil a)
    ∙ ap (λ (t : Text). t ++ (slash ∷ join (y ∷ ys))) (join-split a)

pub split_injective : (a s : Text) → split s ≡ split a → s ≡ a
split_injective a s h = sym (join-split s) ∙ ap join h ∙ join-split a
