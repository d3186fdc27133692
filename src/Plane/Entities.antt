-- ===== src/Plane/Entities.antt =====
-- crates/nomiso-store/src/surreal_store.rs: `put_entity`, `get_entity` and `update_entity`, with
-- their requests of crates/nomiso-core/src/relationship.rs.
use nomiso.Prelude.{
  ℕ, ◌+◌, not, ◌||◌, List, [], ◌∷◌, ◌++◌, Option, none, some, ◌==◌, ltb, if◌then◌else◌, length,
  is_empty, is_some, unwrap_or,
}
use nomiso.Prelude.Text.{Text, codes, text_eq, trim, utf8_len}
use nomiso.Prelude.Table.{find, update}
use nomiso.Errors.{Result, ok, err, invalid_op, not_found, scope_denied, conflict, store, refuse_if}
use nomiso.Errors
use nomiso.Exec.{Exec, lift, query, ◌>>=◌, ◌>>◌}
use nomiso.Json.{Json}
use nomiso.Scope
use nomiso.Plane.{EntityRecord, Plane}
use nomiso.Plane.Checks.{entity_bare_key}
use nomiso.Plane.Supersede.{or_else}

pub record PutEntityRequest : Type 0 where
  pub scope : Text
  pub kind : Text
  pub name : Text
  pub aliases : List Text
  pub attrs : Option Json

pub record UpdateEntityRequest : Type 0 where
  pub id : Text
  pub scope : Text
  pub expected_version : ℕ
  pub name : Option Text
  pub aliases : Option (List Text)
  pub attrs : Option Json

abbrev pub new_entity : ℕ → Text → Text → PutEntityRequest → EntityRecord
new_entity now key scope req = record {
  id = codes "entity:" ++ key;
  scope = scope;
  kind = trim req.kind;
  name = trim req.name;
  aliases = req.aliases;
  attrs = req.attrs;
  version = 1;
  created_at = now;
  updated_at = now;
}

unfoldable pub put_entity : ℕ → Text → PutEntityRequest → Exec Plane EntityRecord
put_entity now key req = do
  scope ← lift (Scope.parse req.scope)
  lift (
      refuse_if (is_empty (trim req.kind) || ltb 128 (utf8_len (trim req.kind)))
        (invalid_op "entity kind must be 1..=128 chars"))
  lift (
      refuse_if (is_empty (trim req.name) || ltb 256 (utf8_len (trim req.name)))
        (invalid_op "entity name must be 1..=256 chars"))
  lift (refuse_if (ltb 64 (length req.aliases)) (invalid_op "entity aliases limited to 64"))
  λ s. if is_some (find key s.entities) then (err (store "put_entity"), s) else (
    ok (new_entity now key scope.as_str req),
    record s { entities = s.entities ++ (key, new_entity now key scope.as_str req) ∷ [] },
  )

unfoldable pub get_entity : Text → Text → Plane → Result EntityRecord
get_entity id raw_scope s = Errors.◌>>=◌ (Scope.parse raw_scope) (λ scope.
    elim (find (entity_bare_key id) s.entities) [
      | none ↦ err (not_found "entity")
      | some r ↦
          if not (text_eq r.scope scope.as_str) then err (scope_denied "entity scope") else ok r
    ])

abbrev pub revised : ℕ → UpdateEntityRequest → EntityRecord → EntityRecord
revised now req r = record r {
  name = unwrap_or req.name r.name;
  aliases = unwrap_or req.aliases r.aliases;
  attrs = or_else req.attrs r.attrs;
  version = r.version + 1;
  updated_at = now;
}

-- The transaction; `read_version` is that of the record that was read before.
unfoldable pub revise_commit : ℕ → UpdateEntityRequest → ℕ → Exec Plane EntityRecord
revise_commit now req read_version s =
    let key = entity_bare_key req.id in
    elim (find key s.entities) [
      | none ↦ (err (conflict req.expected_version read_version), s)
      | some r ↦
          if r.version == req.expected_version
          then (
            ok (revised now req r),
            record s { entities = update key (revised now req) s.entities },
          )
          else (err (conflict req.expected_version read_version), s)
    ]

unfoldable pub update_entity : ℕ → UpdateEntityRequest → Exec Plane EntityRecord
update_entity now req = do
  scope ← lift (Scope.parse req.scope)
  existing ← query (get_entity req.id scope.as_str)
  revise_commit now req existing.version
