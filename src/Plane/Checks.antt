-- ===== src/Plane/Checks.antt =====
-- crates/nomiso-store/src/surreal_store.rs: the checks of endpoints, and the bare keys of entities and
-- relationships. Artifacts and spans are in tables of their own, which are a parameter.
use nomiso.Prelude.{ℕ, not, Option, none, some, ◌==◌, ltb}
use nomiso.Prelude.Text.{Text, codes, text_eq, trim, trim_matches, strip_prefix}
use nomiso.Prelude.Table.{find}
use nomiso.Errors.{Result, ok, err, invalid_op, not_found, scope_denied, refuse_if, ◌>>◌}
use nomiso.Endpoints.{EndpointKind, memory, entity, artifact, span, versioned, is_bracket, is_quote}
use nomiso.Plane.{Plane}

-- The scope and the version of a record, by its kind and its bare key.
abbrev pub Lookup : Type 0
Lookup = EndpointKind → Text → Option (Text × Option ℕ)

-- `endpoint_scope_version`
unfoldable pub endpoint_scope_version : Lookup → Plane → Lookup
endpoint_scope_version elsewhere s memory key = elim (find key s.memories) [
  | none ↦ none
  | some r ↦ some (r.scope, some r.version)
]
endpoint_scope_version elsewhere s entity key = elim (find key s.entities) [
  | none ↦ none
  | some r ↦ some (r.scope, some r.version)
]
endpoint_scope_version elsewhere s artifact key = elsewhere artifact key
endpoint_scope_version elsewhere s span key = elsewhere span key

unfoldable pub check_endpoint : Lookup → EndpointKind → Text → Text → Result (Option ℕ)
check_endpoint lookup kind key scope = elim (lookup kind key) [
  | none ↦ err (not_found "endpoint")
  | some (owner, version) ↦ do
    refuse_if (not (text_eq owner scope)) (scope_denied "endpoint is not in scope")
    ok version
]

-- A pinned revision is positive and on a versioned kind.
unfoldable pub check_revision : EndpointKind → Option ℕ → Result (Unit {0})
check_revision kind none = ok tt
check_revision kind (some pin) = do
  refuse_if (pin == 0) (invalid_op "revision must be >= 1")
  refuse_if (not (versioned kind)) (invalid_op "revision pinned on an unversioned kind")

-- A pinned revision is not beyond the current one.
unfoldable pub check_current : Option ℕ → Option ℕ → Result (Unit {0})
check_current none current = ok tt
check_current (some pin) none = ok tt
check_current (some pin) (some current) =
    refuse_if (ltb current pin) (invalid_op "revision beyond the endpoint's current version")

-- `entity_bare_key` and `rel_bare_key`, with the prefix of the table
unfoldable pub table_bare_key : Text → Text → Text
table_bare_key prefix id =
    let s = trim_matches is_quote (trim id) in
    let stripped : Text = elim (strip_prefix prefix s) [ some rest ↦ rest | none ↦ s ] in
    trim_matches is_bracket stripped

abbrev pub entity_bare_key : Text → Text
entity_bare_key id = table_bare_key (codes "entity:") id

abbrev pub rel_bare_key : Text → Text
rel_bare_key id = table_bare_key (codes "relationship:") id
