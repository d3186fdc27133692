-- ===== src/Scope/Tests.antt =====
-- The unit tests of scope.rs, and the theorems at concrete inputs.
use nomiso.Prelude.{◌≡◌, refl, true, false, [], ◌∷◌}
use nomiso.Prelude.Text.{Text, codes, trim, text_eq, strip_prefix, starts_with, ends_with, utf8_len}
use nomiso.Errors.{ok, err, invalid_op}
use nomiso.Scope.{
  ScopePath, exact, prefix, split, contains_empty_segment, check_segments, parse, matches,
}
use nomiso.Scope.Parsing.{IsCanonical, parse-eq_ok_iff, parse_idem}
use nomiso.Scope.Matching.{matches-prefix_iff}

abbrev path : Text → ScopePath
path s = record { as_str = s }

abbrev acme : ScopePath
acme = path (codes "org/acme")

abbrev alice : Text
alice = codes "org/acme/user/alice"

parse_valid :
    (parse (codes " project-1/repo_2 ") ≡ ok (path (codes "project-1/repo_2")))
    × (parse (codes "a") ≡ ok (path (codes "a")))
unfolding parse trim split contains_empty_segment check_segments starts_with ends_with utf8_len
parse_valid = (refl, refl)

parse_invalid :
    (parse (codes "") ≡ err (invalid_op "scope must not be empty"))
    × (parse (codes "/org/acme") ≡ err (invalid_op "scope must not have leading or trailing '/'"))
    × (parse (codes "org//acme") ≡ err (invalid_op "scope must not contain empty segments"))
    × (parse (codes "org acme") ≡ err (invalid_op "scope must not contain whitespace"))
    × (parse (codes "org/acme!") ≡ err (invalid_op "scope segment has invalid characters"))
unfolding parse trim split contains_empty_segment check_segments starts_with ends_with utf8_len
parse_invalid = (refl, refl, refl, refl, refl)

exact_and_prefix :
    (matches acme alice exact ≡ false)
    × (matches acme alice prefix ≡ true)
    × (matches acme (codes "org/acme2") prefix ≡ false)
unfolding matches text_eq strip_prefix starts_with
exact_and_prefix = (refl, refl, refl)

parse-acme : parse (codes " org/acme") ≡ ok acme
unfolding parse trim split contains_empty_segment check_segments starts_with ends_with utf8_len
parse-acme = refl

parse-eq_ok_iff_example :
    (acme.as_str ≡ trim (codes " org/acme")) × IsCanonical (trim (codes " org/acme"))
parse-eq_ok_iff_example = (parse-eq_ok_iff (codes " org/acme") acme).0 parse-acme

parse_idem_example : parse acme.as_str ≡ ok acme
parse_idem_example = parse_idem (codes " org/acme") acme parse-acme

matches-prefix_iff_example : matches acme alice prefix ≡ true
unfolding split
matches-prefix_iff_example =
    (matches-prefix_iff acme alice).1 (codes "user" ∷ codes "alice" ∷ [], refl)
