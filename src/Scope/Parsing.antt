-- ===== src/Scope/Parsing.antt =====
-- Which texts are scope paths.
use mathlib.Core.List.{reverse, reverse-reverse, reverse-cons}
use nomiso.Prelude.{
  ℕ, ◌≤◌, ◌<◌, ◌≡◌, refl, sym, ◌↔◌, inl, inr, Bool, true, false, List, [], ◌∷◌, ◌++◌, arith, ◌==◌,
  Bool-cases, ◌||◌, ◌&&◌, length, All, All-map, all, any, is_empty, ltb,
}
use nomiso.Prelude.Text.{
  Text, is_whitespace, trim, trim_matches, trim_start_matches, starts_with, ends_with, utf8_len,
  utf8_width,
}
use nomiso.Errors.{ok}
use nomiso.Scope.{
  ScopePath, slash, split, push_char, valid_char, is_ascii_alphanumeric, check_segment,
  check_segments, contains_empty_segment, parse,
}

-- A segment: not empty, of ASCII letters, digits, `_`, `-` and `.`.
abbrev pub IsSegment : Text → Type 0
IsSegment segment = (is_empty segment ≡ false) × (all valid_char segment ≡ true)

-- A canonical path: 1 to 512 characters, slash-separated segments.
abbrev pub IsCanonical : Text → Type 0
IsCanonical s = All IsSegment (split s) × (length s ≤ 512)

check_segments→All :
    (segments : List Text) → check_segments segments ≡ ok tt → All IsSegment segments
unfolding check_segments check_segment
check_segments→All [] h = tt
check_segments→All (x ∷ xs) h = ground (arith, check_segments→All xs)

All→check_segments :
    (segments : List Text) → All IsSegment segments → check_segments segments ≡ ok tt
unfolding check_segments check_segment
All→check_segments [] h = refl
All→check_segments (x ∷ xs) h = ground (arith, All→check_segments xs h.1)

path_char : ℕ → Bool
path_char c = c == slash || valid_char c

path_char_bounds : (c : ℕ) → path_char c ≡ true → (33 ≤ c) × (c < 128)
unfolding path_char valid_char is_ascii_alphanumeric
path_char_bounds c h = ground arith

whitespace_bounds : (c : ℕ) → 33 ≤ c → c < 128 → is_whitespace c ≡ false
unfolding is_whitespace
whitespace_bounds c h k = ground arith

utf8_width-path_char : (c : ℕ) → c < 128 → utf8_width c ≡ 1
unfolding utf8_width
utf8_width-path_char c h = ground arith

utf8_len-eq-length : (s : Text) → all path_char s ≡ true → utf8_len s ≡ length s
unfolding utf8_len
utf8_len-eq-length [] h = refl
utf8_len-eq-length (c ∷ s) h =
    ground (arith, path_char_bounds c, utf8_width-path_char c, utf8_len-eq-length s)

any-is_whitespace : (s : Text) → all path_char s ≡ true → any is_whitespace s ≡ false
any-is_whitespace [] h = refl
any-is_whitespace (c ∷ s) h =
    ground (arith, path_char_bounds c, whitespace_bounds c, any-is_whitespace s)

-- The characters of a text from those of its segments.
All-push_char :
    (c : ℕ) (l : List Text)
    → All (λ t. all valid_char t ≡ true) (push_char c l)
    → (valid_char c ≡ true) × All (λ t. all valid_char t ≡ true) l
All-push_char c [] h = (ground arith, tt)
All-push_char c (x ∷ xs) h = (ground arith, (ground arith, h.1))

all-path_char : (s : Text) → All (λ t. all valid_char t ≡ true) (split s) → all path_char s ≡ true
unfolding split path_char
all-path_char [] h = refl
all-path_char (c ∷ s) h = elim (Bool-cases (c == slash)) [
  | inl e ↦ rw e (all-path_char s (rw e at h).1)
  | inr e ↦ let (v, t) = All-push_char c (split s) (rw e at h) in rw (e, v) (all-path_char s t)
]

-- No segment but the first is empty.
TailOk : List Text → Type 0
TailOk [] = Unit
TailOk (x ∷ xs) = All IsSegment xs

All→TailOk : (l : List Text) → All IsSegment l → TailOk l
unfolding TailOk
All→TailOk [] h = tt
All→TailOk (x ∷ xs) h = h.1

TailOk-push_char : (c : ℕ) (l : List Text) → TailOk (push_char c l) → TailOk l
unfolding TailOk
TailOk-push_char c [] h = tt
TailOk-push_char c (x ∷ xs) h = h

TailOk-split : (c : ℕ) (s : Text) → TailOk (split (c ∷ s)) → TailOk (split s)
unfolding split TailOk
TailOk-split c s h = elim (Bool-cases (c == slash)) [
  | inl e ↦ All→TailOk (split s) (rw e at h)
  | inr e ↦ TailOk-push_char c (split s) (rw e at h)
]

ends_with-false : (s : Text) → TailOk (split s) → ends_with s slash ≡ false
unfolding ends_with
ends_with-false [] h = refl
ends_with-false (c ∷ []) h = unfold split TailOk in ground arith
ends_with-false (c ∷ e ∷ s) h = ends_with-false (e ∷ s) (TailOk-split c (e ∷ s) h)

double_slash : (s : Text) → TailOk (split (slash ∷ slash ∷ s)) → ⊥
unfolding split TailOk
double_slash s h = ground arith

slashes :
    (c d : ℕ) (s : Text)
    → (c == slash && d == slash) ≡ true
    → TailOk (split (c ∷ d ∷ s))
    → TailOk (split (slash ∷ slash ∷ s))
slashes c d s e h =
    let p : c ≡ slash = ground arith in let q : d ≡ slash = ground arith in rw (p, q) at h

contains_empty_segment-false : (s : Text) → TailOk (split s) → contains_empty_segment s ≡ false
unfolding contains_empty_segment
contains_empty_segment-false [] h = refl
contains_empty_segment-false (c ∷ []) h = refl
contains_empty_segment-false (c ∷ d ∷ s) h = elim (Bool-cases (c == slash && d == slash)) [
  | inl e ↦ absurd (double_slash s (slashes c d s e h))
  | inr e ↦ rw e (contains_empty_segment-false (d ∷ s) (TailOk-split c (d ∷ s) h))
]

starts_with-false : (s : Text) → All IsSegment (split s) → starts_with s slash ≡ false
unfolding split starts_with
starts_with-false [] h = refl
starts_with-false (c ∷ s) h = ground arith

is_empty-false : (s : Text) → All IsSegment (split s) → is_empty s ≡ false
unfolding split
is_empty-false [] h = ground arith
is_empty-false (c ∷ s) h = refl

-- Trimming leaves a text with no white space as it is.
trim_start_matches-eq : (p : ℕ → Bool) (s : Text) → any p s ≡ false → trim_start_matches p s ≡ s
unfolding trim_start_matches
trim_start_matches-eq p [] h = refl
trim_start_matches-eq p (c ∷ s) h = ground arith

any-append : (p : ℕ → Bool) (s t : Text) → any p (s ++ t) ≡ (any p s || any p t)
any-append p [] t = refl
any-append p (c ∷ s) t = ground (arith, any-append p s t)

any-reverse : (p : ℕ → Bool) (s : Text) → any p s ≡ false → any p (reverse s) ≡ false
any-reverse p [] h = refl
any-reverse p (c ∷ s) h =
    rw (reverse-cons c s, any-append p (reverse s) (c ∷ []), any-reverse p s (ground arith))
      (ground arith)

trim_matches-eq : (p : ℕ → Bool) (s : Text) → any p s ≡ false → trim_matches p s ≡ s
unfolding trim_matches
trim_matches-eq p s h =
    rw (trim_start_matches-eq p s h, trim_start_matches-eq p (reverse s) (any-reverse p s h))
      (reverse-reverse s)

IsCanonical-path_char : (s : Text) → All IsSegment (split s) → all path_char s ≡ true
IsCanonical-path_char s h = all-path_char s (All-map IsSegment _ (split s) (λ t x. x.1) h)

pub trim-eq : (s : Text) → IsCanonical s → trim s ≡ s
unfolding trim
trim-eq s h = trim_matches-eq is_whitespace s (any-is_whitespace s (IsCanonical-path_char s h.0))

-- The last two checks of a parse that succeeds.
parse_checks :
    (raw : Text) (p : ScopePath)
    → parse raw ≡ ok p
    → (p.as_str ≡ trim raw)
      × (ltb 512 (utf8_len (trim raw)) ≡ false)
      × (check_segments (split (trim raw)) ≡ ok tt)
unfolding parse
parse_checks raw p h = ground arith

utf8_len-le : (s : Text) → ltb 512 (utf8_len s) ≡ false → all path_char s ≡ true → length s ≤ 512
utf8_len-le s h k = ground (arith, utf8_len-eq-length s k)

parse→IsCanonical :
    (raw : Text) (p : ScopePath) → parse raw ≡ ok p → (p.as_str ≡ trim raw) × IsCanonical (trim raw)
parse→IsCanonical raw p h =
    let (e, fits, segments) = parse_checks raw p h in
    let parts = check_segments→All (split (trim raw)) segments in
    (e, (parts, utf8_len-le (trim raw) fits (IsCanonical-path_char (trim raw) parts)))

IsCanonical→parse :
    (raw : Text) → IsCanonical (trim raw) → parse raw ≡ ok (record { as_str = trim raw })
unfolding parse
IsCanonical→parse raw h =
    let s = trim raw in
    let chars = IsCanonical-path_char s h.0 in
    let tail_ok = All→TailOk (split s) h.0 in
    ground (
      arith,
      is_empty-false s h.0,
      starts_with-false s h.0,
      ends_with-false s tail_ok,
      contains_empty_segment-false s tail_ok,
      any-is_whitespace s chars,
      utf8_len-eq-length s chars,
      All→check_segments (split s) h.0,
    )

-- `parse` accepts a text exactly when its trimmed form is canonical, and returns that form.
pub parse-eq_ok_iff :
    (raw : Text) (p : ScopePath)
    → (parse raw ≡ ok p) ↔ ((p.as_str ≡ trim raw) × IsCanonical (trim raw))
parse-eq_ok_iff raw p = (parse→IsCanonical raw p, λ h. rw h.0 (IsCanonical→parse raw h.1))

-- Parsing is idempotent: the text of a parsed path parses to that path.
pub parse_idem : (raw : Text) (p : ScopePath) → parse raw ≡ ok p → parse p.as_str ≡ ok p
parse_idem raw p h =
    let (e, c) = parse→IsCanonical raw p h in
    let canonical : IsCanonical p.as_str = rw e c in
    (parse-eq_ok_iff p.as_str p).1
      (sym (trim-eq p.as_str canonical), rw (trim-eq p.as_str canonical) canonical)
