-- ===== src/Memories/Categories.antt =====
-- The names of categories read back, in any case.
use nomiso.Prelude.{◌≡◌, refl, ◌↔◌, some, ap, ◌∙◌, arith}
use nomiso.Prelude.Text.{Text, text_eq, text_eq_iff}
use nomiso.Memories.{
  Category, episodic, semantic, identity, procedural, uncertainty, trace, category_str, category_of,
  to_ascii_lowercase, parse_category,
}

category_of-eq_some : (s : Text) (c : Category) → category_of s ≡ some c → s ≡ category_str c
unfolding category_of
category_of-eq_some s c h = ground (
  arith,
  text_eq_iff s (category_str episodic),
  text_eq_iff s (category_str semantic),
  text_eq_iff s (category_str identity),
  text_eq_iff s (category_str procedural),
  text_eq_iff s (category_str uncertainty),
  text_eq_iff s (category_str trace),
)

category_of-category_str : (c : Category) → category_of (category_str c) ≡ some c
unfolding category_of text_eq
category_of-category_str episodic = refl
category_of-category_str semantic = refl
category_of-category_str identity = refl
category_of-category_str procedural = refl
category_of-category_str uncertainty = refl
category_of-category_str trace = refl

-- A text parses to a category exactly when its ASCII lower case is that category's name.
parse_category-eq_some_iff :
    (s : Text) (c : Category)
    → (parse_category s ≡ some c) ↔ (to_ascii_lowercase s ≡ category_str c)
unfolding parse_category
parse_category-eq_some_iff s c = (
  category_of-eq_some (to_ascii_lowercase s) c,
  λ e. ap category_of e ∙ category_of-category_str c,
)
