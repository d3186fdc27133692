-- ===== src/Scope/Matching.antt =====
-- What a scope query matches, in terms of the segments of the stored path.
use mathlib.Core.List.{append-nil, append_assoc}
use nomiso.Prelude.{
  ℕ, ◌≡◌, refl, ap, sym, ◌∙◌, ◌↔◌, ◌⊎◌, inl, inr, true, List, [], ◌∷◌, ◌++◌, Option, none, some,
  arith, Bool-cases, is_some_and,
}
use nomiso.Prelude.Text.{
  Text, text_eq, text_eq_iff, strip_prefix, starts_with, strip_prefix-eq_some, strip_prefix-append,
}
use nomiso.Scope.{ScopePath, exact, prefix, slash, split, matches}
use nomiso.Scope.Segments.{join, split-append, split-join_append, split_injective}

-- `stored` lies at or below `path`: its segments begin with those of `path`.
abbrev pub IsBelow : ScopePath → Text → Type 0
IsBelow path stored = (rest : List Text) × (split stored ≡ split path.as_str ++ rest)

starts_with→cons : (r : Text) (c : ℕ) → starts_with r c ≡ true → (b : Text) × (r ≡ c ∷ b)
unfolding starts_with
starts_with→cons [] c h = ground arith
starts_with→cons (d ∷ b) c h = (b, ground arith)

-- A continuation after a slash, or nothing.
Continues : Text → Text → Type 0
Continues p s = (s ≡ p) ⊎ ((b : Text) × (s ≡ p ++ (slash ∷ b)))

strip→Continues :
    (p s : Text) (o : Option Text)
    → strip_prefix p s ≡ o
    → is_some_and o (λ rest. starts_with rest slash) ≡ true
    → Continues p s
unfolding Continues
strip→Continues p s none e h = cc
strip→Continues p s (some r) e h =
    let (b, q) = starts_with→cons r slash h in inr (b, strip_prefix-eq_some p s r e ∙ ap (◌++◌ p) q)

matches→Continues : (q : ScopePath) (s : Text) → matches q s prefix ≡ true → Continues q.as_str s
unfolding matches Continues
matches→Continues q s h = elim (Bool-cases (text_eq s q.as_str)) [
  | inl e ↦ inl ((text_eq_iff s q.as_str).0 e)
  | inr e ↦ strip→Continues q.as_str s (strip_prefix q.as_str s) refl (rw e at h)
]

Continues→matches : (q : ScopePath) (s : Text) → Continues q.as_str s → matches q s prefix ≡ true
unfolding matches Continues starts_with
Continues→matches q s (inl e) = ground (arith, text_eq_iff s q.as_str)
Continues→matches q s (inr (b, e)) = rw e (ground (arith, strip_prefix-append q.as_str (slash ∷ b)))

Continues→IsBelow : (q : ScopePath) (s : Text) → Continues q.as_str s → IsBelow q s
unfolding Continues
Continues→IsBelow q s (inl e) = ([], ap split e ∙ sym (append-nil (split q.as_str)))
Continues→IsBelow q s (inr (b, e)) = (split b, ap split e ∙ split-append q.as_str b)

IsBelow→Continues :
    (q : ScopePath) (s : Text) (rest : List Text)
    → split s ≡ split q.as_str ++ rest
    → Continues q.as_str s
unfolding Continues
IsBelow→Continues q s [] h = inl (split_injective q.as_str s (h ∙ append-nil (split q.as_str)))
IsBelow→Continues q s (y ∷ ys) h = inr (join (y ∷ ys), split-join_append q.as_str s y ys h)

-- Prefix matching accepts a stored path exactly when its list of segments begins with the
-- segments of the query, so a sibling whose name merely starts with the query's text is refused.
pub matches-prefix_iff :
    (q : ScopePath) (stored : Text) → (matches q stored prefix ≡ true) ↔ IsBelow q stored
matches-prefix_iff q s = (
  λ h. Continues→IsBelow q s (matches→Continues q s h),
  λ h. Continues→matches q s (IsBelow→Continues q s h.0 h.1),
)

-- Exact matching accepts the equal path alone.
pub matches-exact_iff :
    (q : ScopePath) (stored : Text) → (matches q stored exact ≡ true) ↔ (q.as_str ≡ stored)
unfolding matches
matches-exact_iff q stored = text_eq_iff q.as_str stored

-- Prefix matching is transitive: what lies below a path that `q` matches, `q` matches too.
matches-prefix_trans :
    (q r : ScopePath) (stored : Text)
    → matches q r.as_str prefix ≡ true
    → matches r stored prefix ≡ true
    → matches q stored prefix ≡ true
matches-prefix_trans q r stored h k =
    let (xs, e) = (matches-prefix_iff q r.as_str).0 h in
    let (ys, d) = (matches-prefix_iff r stored).0 k in
    (matches-prefix_iff q stored).1
      (xs ++ ys, d ∙ ap (λ (l : List Text). l ++ ys) e ∙ append_assoc (split q.as_str) xs ys)
