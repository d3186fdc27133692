-- ===== src/Plane/Annotate.antt =====
-- crates/nomiso-store/src/surreal_store.rs: `annotate`, `link_derived_from` to a memory, and
-- `history`.
use nomiso.Prelude.{
  ℕ, ◌+◌, Bool, not, [], ◌∷◌, ◌++◌, Option, none, some, ltb, if◌then◌else◌, is_some_and, unwrap_or,
}
use nomiso.Prelude.Text.{Text, codes, text_eq, text_leb, decimal, utf8_len}
use nomiso.Prelude.Table.{find, update}
use nomiso.Errors.{Result, ok, err, scope_denied, payload_too_large, store, refuse_if}
use nomiso.Exec.{Exec, lift, query, ◌>>=◌, ◌>>◌}
use nomiso.Json.{Json, bool, number, object, Fields, field, end}
use nomiso.Scope
use nomiso.Scope.{ScopePath}
use nomiso.Embeddings.{Float, in_unit}
use nomiso.Memories.{MemoryId, memory_key}
use nomiso.Plane.{MemoryRecord, WriteResult, annotate, Plane, Env, fetch_memory}
use nomiso.Plane.Supersede.{conflict_from_memory, found_memory, or_else}
use nomiso.Plane.Forget.{version_matches, check_expected}
use nomiso.Plane.Writes.{written}

pub record AnnotateRequest : Type 0 where
  pub id : MemoryId
  pub scope : Text
  pub expected_version : Option ℕ
  pub confidence : Option Float
  pub provenance_source : Option Text
  pub provenance_kind : Option Text
  pub attrs : Option Json
  pub bump_version : Bool

-- `Map::insert`, on a map in the order of its keys
unfoldable pub insert_entry : Text → Json → Fields → Fields
insert_entry key value end = field key value end
insert_entry key value (field k v rest) =
    if text_eq k key
    then field key value rest
    else if text_leb key k
    then field key value (field k v rest)
    else field k v (insert_entry key value rest)

unfoldable pub merge_fields : Fields → Fields → Fields
unfolding insert_entry
merge_fields a end = a
merge_fields a (field k v rest) = merge_fields (insert_entry k v a) rest

merge_values : Json → Json → Json
merge_values (object a) (object b) = object (merge_fields a b)
merge_values _ b = b

unfoldable pub merged_attrs : Option Json → Option Json → Option Json
unfolding merge_values
merged_attrs existing none = existing
merged_attrs none (some a) = some a
merged_attrs (some a) (some b) = some (merge_values a b)

abbrev pub next_version : Bool → ℕ → ℕ
next_version bump v = if bump then v + 1 else v

unfoldable pub annotated : ℕ → AnnotateRequest → Option Json → MemoryRecord → MemoryRecord
annotated now req attrs r = record r {
  confidence = or_else req.confidence r.confidence;
  provenance = record r.provenance {
    source = or_else req.provenance_source r.provenance.source;
    kind = or_else req.provenance_kind r.provenance.kind;
  };
  content = record r.content { attrs = or_else attrs r.content.attrs };
  version = next_version req.bump_version r.version;
  sys_updated = some now;
}

unfoldable pub annotate_row :
    ℕ → AnnotateRequest → Text → Option Json → MemoryRecord → Plane → Plane
annotate_row now req scope attrs r s = record s {
  memories = update (memory_key req.id) (annotated now req attrs) s.memories;
  events =
      s.events
      ++ record {
        scope = scope;
        memory_id = req.id.as_str;
        kind = annotate;
        at_sys = now;
        payload = object (
            field (codes "bump") (bool req.bump_version) (
              field (codes "version") (number (decimal (next_version req.bump_version r.version)))
                end));
      }
        ∷ [];
}

-- The transaction. The schema refuses a confidence outside of [0, 1].
unfoldable pub annotate_commit :
    ℕ → AnnotateRequest → Text → Option Json → ℕ → Exec Plane WriteResult
annotate_commit now req scope attrs read_version s = elim (find (memory_key req.id) s.memories) [
  | none ↦ (err (conflict_from_memory req.id (unwrap_or req.expected_version read_version) s), s)
  | some r ↦
      if not (version_matches req.expected_version r)
      then (err (conflict_from_memory req.id (unwrap_or req.expected_version read_version) s), s)
      else if is_some_and req.confidence (λ c. not (in_unit c))
      then (err (store "annotate"), s)
      else (ok (written (annotated now req attrs r)), annotate_row now req scope attrs r s)
]

abbrev pub check_attrs : Env → Option Json → Result (Unit {0})
check_attrs e attrs =
    refuse_if
      (is_some_and attrs (λ v. ltb e.limits.max_attrs_bytes (utf8_len (e.host.json_text v))))
      (payload_too_large "content.attrs")

unfoldable pub annotate_memory : Env → ℕ → AnnotateRequest → Exec Plane WriteResult
annotate_memory e now req = do
  scope ← lift (Scope.parse req.scope)
  r ← query (λ s. found_memory (fetch_memory req.id s))
  lift (refuse_if (not (text_eq r.scope scope.as_str)) (scope_denied "annotate scope"))
  lift (check_expected req.expected_version r)
  lift (check_attrs e (merged_attrs r.content.attrs req.attrs))
  annotate_commit now req scope.as_str (merged_attrs r.content.attrs req.attrs) r.version

-- The link to a memory; `RELATE` needs no target row.
unfoldable pub link_derived_from : MemoryId → Text → MemoryId → Exec Plane (Unit {0})
link_derived_from id raw_scope target = do
  scope ← lift (Scope.parse raw_scope)
  r ← query (λ s. found_memory (fetch_memory id s))
  lift (refuse_if (not (text_eq r.scope scope.as_str)) (scope_denied "link_derived_from scope"))
  λ s. (ok tt, record s { derivations = s.derivations ++ (memory_key id, memory_key target) ∷ [] })
