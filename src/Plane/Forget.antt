-- ===== src/Plane/Forget.antt =====
-- crates/nomiso-store/src/surreal_store.rs: `forget`, soft and hard.
use nomiso.Prelude.{
  ℕ, ◌+◌, Bool, true, false, not, ◌&&◌, ◌||◌, [], ◌∷◌, ◌++◌, Option, none, some, ◌==◌, ltb,
  if◌then◌else◌, is_some, unwrap_or, filter,
}
use nomiso.Prelude.Text.{Text, codes, text_eq, decimal}
use nomiso.Prelude.Table.{find, update, update_where, erase}
use nomiso.Errors.{Result, ok, err, invalid_op, scope_denied, refuse_if}
use nomiso.Errors
use nomiso.Exec.{Exec, lift, query, ◌>>=◌, ◌>>◌}
use nomiso.Json.{object, field, end, number, string}
use nomiso.Relations.{RelationshipState, purged}
use nomiso.Memories.{ForgetRequest, memory_key}
use nomiso.Validation.{validate_forget, check_version}
use nomiso.Plane.{MemoryRecord, soft_forget, hard_erase, RelationshipRow, Plane, Env, fetch_memory}
use nomiso.Plane.Supersede.{closed_row, conflict_from_memory, touches, dead_key, found_memory}

abbrev pub is_purged : RelationshipState → Bool
is_purged purged = true
is_purged _ = false

abbrev pub purged_edge : ℕ → RelationshipRow → RelationshipRow
purged_edge now r = record r {
  edge = record r.edge {
    state = purged;
    state_reason = some (codes "endpoint_erased");
    updated_at = now;
  };
  live_key = some (dead_key r.edge.id);
}

-- `WHERE version = $expected_version`, where the caller named a version
abbrev pub version_matches : Option ℕ → MemoryRecord → Bool
version_matches none r = true
version_matches (some v) r = r.version == v

-- The database deletes the graph edges of a record that it deletes.
abbrev pub apart : Text → Text × Text → Bool
apart key (from, to) = not (text_eq from key || text_eq to key)

unfoldable pub erase_row : ℕ → ForgetRequest → Text → MemoryRecord → Plane → Plane
erase_row now req scope r s =
    let key = memory_key req.id in
    record s {
      memories = erase key s.memories;
      lineage = filter (apart key) s.lineage;
      derivations = filter (apart key) s.derivations;
      relationships =
          update_where
            (λ k e. text_eq e.edge.scope scope && (not (is_purged e.edge.state) && touches key e))
            (purged_edge now) s.relationships;
      vectors = filter (λ v. not (text_eq v.memory key)) s.vectors;
      events =
          s.events
          ++ record {
            scope = scope;
            memory_id = req.id.as_str;
            kind = hard_erase;
            at_sys = now;
            payload = object (
                field (codes "id") (string req.id.as_str)
                  (field (codes "version") (number (decimal r.version)) end));
          }
            ∷ [];
    }

-- The hard transaction; `read_version` is that of the row that was read before.
unfoldable pub erase_commit : ℕ → ForgetRequest → Text → ℕ → Exec Plane (Unit {0})
erase_commit now req scope read_version s = elim (find (memory_key req.id) s.memories) [
  | none ↦ (err (conflict_from_memory req.id (unwrap_or req.expected_version read_version) s), s)
  | some r ↦
      if version_matches req.expected_version r
      then (ok tt, erase_row now req scope r s)
      else (err (conflict_from_memory req.id (unwrap_or req.expected_version read_version) s), s)
]

abbrev pub is_open : MemoryRecord → Bool
is_open r = not (is_some r.valid_until) && not (is_some r.sys_closed)

unfoldable pub close_row : Env → ℕ → ForgetRequest → Text → ℕ → MemoryRecord → Plane → Plane
close_row e now req scope at r s = record s {
  memories = update (memory_key req.id) (closed_row now at) s.memories;
  events =
      s.events
      ++ record {
        scope = scope;
        memory_id = req.id.as_str;
        kind = soft_forget;
        at_sys = now;
        payload = object (
            field (codes "at") (string (e.timestamp_text at))
              (field (codes "version") (number (decimal (r.version + 1))) end));
      }
        ∷ [];
}

-- The soft transaction: it closes an open interval once.
unfoldable pub close_commit : Env → ℕ → ForgetRequest → Text → ℕ → Exec Plane (Unit {0})
close_commit e now req scope at s = elim (find (memory_key req.id) s.memories) [
  | none ↦ (err (conflict_from_memory req.id (unwrap_or req.expected_version 0) s), s)
  | some r ↦
      if version_matches req.expected_version r && is_open r
      then (ok tt, close_row e now req scope at r s)
      else (err (conflict_from_memory req.id (unwrap_or req.expected_version 0) s), s)
]

abbrev pub check_expected : Option ℕ → MemoryRecord → Result (Unit {0})
check_expected none r = ok tt
check_expected (some expected) r = check_version expected r.version

unfoldable pub check_forget : Text → ForgetRequest → MemoryRecord → Result (Unit {0})
check_forget scope req r =
    Errors.◌>>◌
      (refuse_if (not (text_eq r.scope scope)) (scope_denied "forget requires exact owning scope"))
      (Errors.◌>>◌ (check_expected req.expected_version r)
        (refuse_if (not req.hard && not (is_open r)) (invalid_op "valid interval already closed")))

unfoldable pub forget_row : Env → ℕ → ForgetRequest → Text → MemoryRecord → Exec Plane (Unit {0})
forget_row e now req scope r = if req.hard then erase_commit now req scope r.version else (do
  lift (
      refuse_if (ltb (unwrap_or req.at now) r.valid_from)
        (invalid_op "soft-forget is before valid_from"))
  close_commit e now req scope (unwrap_or req.at now))

unfoldable pub forget : Env → ℕ → ForgetRequest → Exec Plane (Unit {0})
forget e now req = do
  scope ← lift (validate_forget req)
  r ← query (λ s. found_memory (fetch_memory req.id s))
  lift (check_forget scope.as_str req r)
  forget_row e now req scope.as_str r
