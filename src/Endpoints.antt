-- ===== src/Endpoints.antt =====
-- crates/nomiso-core/src/relationship.rs: kinds of records and references to them.
use nomiso.Prelude.{
  ℕ, Bool, true, false, ◌||◌, ◌++◌, Option, none, some, ◌==◌, if◌then◌else◌, any, is_empty,
}
use nomiso.Prelude.Text.{Text, codes, trim, trim_matches, strip_prefix, text_eq}
use nomiso.Errors.{Result, ok, err, invalid_op, refuse_if, ◌>>=◌, ◌>>◌}

pub data EndpointKind : Type 0 where
  memory entity artifact span : EndpointKind

abbrev pub as_str : EndpointKind → Text
as_str memory = codes "memory"
as_str entity = codes "entity"
as_str artifact = codes "artifact"
as_str span = codes "span"

unfoldable pub parse_kind : Text → Option EndpointKind
parse_kind s =
    if text_eq s (codes "memory")
    then some memory
    else if text_eq s (codes "entity")
    then some entity
    else if text_eq s (codes "artifact")
    then some artifact
    else if text_eq s (codes "span")
    then some span
    else none

-- Whether endpoints of this kind carry an optimistic version.
abbrev pub versioned : EndpointKind → Bool
versioned memory = true
versioned entity = true
versioned artifact = false
versioned span = false

pub record EndpointRef : Type 0 where
  pub kind : EndpointKind
  pub id : Text

-- The quotes and brackets that a rendered record id may carry.
abbrev pub is_bracket : ℕ → Bool
is_bracket c = c == b'`' || (c == 0x27e8 || c == 0x27e9)

abbrev pub is_quote : ℕ → Bool
is_quote c = is_bracket c || c == b'"'

-- The id without a prefix `kind:` of its own kind; another prefix is refused.
strip_kind : EndpointKind → Text → Result Text
strip_kind kind id = elim (strip_prefix (as_str kind ++ codes ":") id) [
  | some rest ↦ ok rest
  | none ↦
      if any (λ c. c == b':') id
      then err (invalid_op "endpoint id prefix does not match kind")
      else ok id
]

unfoldable pub bare_key : EndpointRef → Result Text
unfolding strip_kind
bare_key self = do
  stripped ← strip_kind self.kind (trim self.id)
  let bare = trim_matches is_quote stripped
  refuse_if (is_empty bare) (invalid_op "endpoint id is empty")
  ok bare

unfoldable pub canonical : EndpointRef → Result Text
canonical self = do bare ← bare_key self; ok (as_str self.kind ++ (codes ":" ++ bare))
