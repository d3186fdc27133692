-- ===== src/Scope.antt =====
-- crates/nomiso-core/src/scope.rs: the scope path grammar and scope matching.
pub mod Segments
pub mod Parsing
pub mod Matching
mod Tests
use nomiso.Prelude.{
  ℕ, Bool, true, false, ◌&&◌, ◌||◌, List, [], ◌∷◌, ◌==◌, leb, ltb, if◌then◌else◌, is_empty, all,
  any, is_some_and, not,
}
use nomiso.Prelude.Text.{
  Text, text_eq, is_whitespace, trim, strip_prefix, starts_with, ends_with, utf8_len,
}
use nomiso.Errors.{Result, ok, err, invalid_op, refuse_if, ◌>>=◌, ◌>>◌}

pub data ScopeMatch : Type 0 where
  exact : ScopeMatch
  prefix : ScopeMatch

-- The text of a validated path.
pub record ScopePath : Type 0 where
  pub as_str : Text

abbrev pub slash : ℕ
slash = b'/'

-- `s.contains("//")`
unfoldable pub contains_empty_segment : Text → Bool
contains_empty_segment [] = false
contains_empty_segment (c ∷ []) = false
contains_empty_segment (c ∷ d ∷ s) = (c == slash && d == slash) || contains_empty_segment (d ∷ s)

-- `s.split('/')`: the texts between the slashes, one at least.
abbrev push_char : ℕ → List Text → List Text
push_char c [] = (c ∷ []) ∷ []
push_char c (segment ∷ rest) = (c ∷ segment) ∷ rest

unfoldable pub split : Text → List Text
split [] = [] ∷ []
split (c ∷ s) = let rest = split s in if c == slash then [] ∷ rest else push_char c rest

pub is_ascii_alphanumeric : ℕ → Bool
is_ascii_alphanumeric c =
    (leb b'0' c && leb c b'9') || ((leb b'A' c && leb c b'Z') || (leb b'a' c && leb c b'z'))

pub valid_char : ℕ → Bool
unfolding is_ascii_alphanumeric
valid_char c = is_ascii_alphanumeric c || (c == b'_' || (c == b'-' || c == b'.'))

-- One round of the loop over the segments.
check_segment : Text → Result (Unit {0})
unfolding valid_char
check_segment segment = do
  refuse_if (is_empty segment) (invalid_op "scope must not contain empty segments")
  refuse_if (not (all valid_char segment)) (invalid_op "scope segment has invalid characters")

unfoldable pub check_segments : List Text → Result (Unit {0})
unfolding check_segment
check_segments [] = ok tt
check_segments (segment ∷ rest) = do check_segment segment; check_segments rest

unfoldable pub parse : Text → Result ScopePath
parse raw = do
  let s = trim raw
  refuse_if (is_empty s) (invalid_op "scope must not be empty")
  refuse_if (starts_with s slash || ends_with s slash)
      (invalid_op "scope must not have leading or trailing '/'")
  refuse_if (contains_empty_segment s) (invalid_op "scope must not contain empty segments")
  refuse_if (any is_whitespace s) (invalid_op "scope must not contain whitespace")
  refuse_if (ltb 512 (utf8_len s)) (invalid_op "scope exceeds 512 characters")
  check_segments (split s)
  ok (record { as_str = s })

-- `self.matches(stored, mode)`
unfoldable pub matches : ScopePath → Text → ScopeMatch → Bool
matches self stored exact = text_eq self.as_str stored
matches self stored prefix =
    text_eq stored self.as_str
    || is_some_and (strip_prefix self.as_str stored) (λ rest. starts_with rest slash)
