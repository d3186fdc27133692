-- ===== src/TaskState.antt =====
-- crates/nomiso-core/src/task_state.rs, and `put_task_state` and `get_task_state` of
-- crates/nomiso-store/src/surreal_store.rs: one mutable document per scope and slot, with an
-- optimistic version.
pub mod Swaps
pub mod Once
mod Tests
use nomiso.Prelude.{
  ℕ, suc, zero, ◌+◌, Bool, true, false, ◌&&◌, ◌||◌, not, List, [], ◌∷◌, ◌++◌, Option, none, some,
  ◌==◌, ltb, if◌then◌else◌, is_empty, is_some, is_some_and, unwrap_or,
}
use nomiso.Prelude.Text.{Text, text_eq, trim, utf8_len}
use nomiso.Errors
use nomiso.Errors.{
  Result, Error, ok, err, invalid_op, payload_too_large, conflict, store, refuse_if,
}
use nomiso.Exec.{Exec, pure, fail, lift, query, ◌>>=◌, ◌>>◌}
use nomiso.Host.{Host}
use nomiso.Json.{Json, is_object}
use nomiso.Scope
use nomiso.Scope.{ScopePath}
use nomiso.Validation.{Limits}

pub record PutTaskStateRequest : Type 0 where
  pub scope : Text
  pub slot : Text
  pub body : Json
  pub expected_version : Option ℕ
  pub create_only : Bool

pub record TaskStateRecord : Type 0 where
  pub id : Text
  pub scope : Text
  pub slot : Text
  pub body : Json
  pub version : ℕ
  pub sys_created : ℕ
  pub sys_updated : ℕ

pub record GetTaskStateRequest : Type 0 where
  pub scope : Text
  pub slot : Text

-- The table `task_state`, with a unique index on scope and slot.
abbrev pub Table : Type 0
Table = List TaskStateRecord

-- How the database answers a statement: it runs it, or refuses it with a write conflict, when
-- running it or already when it is sent, or breaks.
pub data Outcome : Type 0 where
  runs conflicts conflicts_early breaks : Outcome

-- What happens around the statements of a call, attempt by attempt: how the database answers, and
-- what other clients write before each statement.
pub record Weather : Type 0 where
  pub update_outcome : ℕ → Outcome
  pub create_outcome : ℕ → Outcome
  pub before_update : ℕ → Table → Table
  pub before_create : ℕ → Table → Table

-- `WHERE scope = $scope AND slot = $slot`
abbrev pub at_slot : Text → Text → TaskStateRecord → Bool
at_slot scope slot r = text_eq r.scope scope && text_eq r.slot slot

unfoldable pub lookup : Text → Text → Table → Option TaskStateRecord
lookup scope slot [] = none
lookup scope slot (r ∷ rows) = if at_slot scope slot r then some r else lookup scope slot rows

-- `get_task_state`
unfoldable pub get_task_state : GetTaskStateRequest → Table → Result (Option TaskStateRecord)
get_task_state req rows =
    Errors.◌>>=◌ (Scope.parse req.scope) (λ path. ok (lookup path.as_str (trim req.slot) rows))

-- `task_state_conflict`, for the scope and the slot of a validated request
abbrev pub found_version : Option TaskStateRecord → ℕ
found_version none = 0
found_version (some r) = r.version

unfoldable pub task_state_conflict : Text → Text → Option ℕ → Table → Error
task_state_conflict scope slot expected rows =
    conflict (unwrap_or expected 0) (found_version (lookup scope slot rows))

-- The version that the update asks for, and the updated row.
abbrev pub expects : Option ℕ → TaskStateRecord → Bool
expects none r = true
expects (some v) r = r.version == v

abbrev pub replaced : ℕ → Json → TaskStateRecord → TaskStateRecord
replaced now body r = record r { body = body; version = r.version + 1; sys_updated = now }

-- `UPDATE task_state SET … WHERE …`: the index leaves at most one row at the slot.
unfoldable pub update_rows :
    ℕ → Text → Text → PutTaskStateRequest → Table → Option TaskStateRecord × Table
update_rows now scope slot req [] = (none, [])
update_rows now scope slot req (r ∷ rows) =
    let rest = update_rows now scope slot req rows in
    if at_slot scope slot r
    then (if expects req.expected_version r && not req.create_only
        then (some (replaced now req.body r), replaced now req.body r ∷ rows)
        else (none, r ∷ rows))
    else (rest.0, r ∷ rest.1)

-- The row of `CREATE type::record('task_state', $key)`
abbrev pub created : ℕ → Text → Text → Text → Json → TaskStateRecord
created now key scope slot body = record {
  id = key;
  scope = scope;
  slot = slot;
  body = body;
  version = 1;
  sys_created = now;
  sys_updated = now;
}

abbrev pub conflict_now : Text → Text → Option ℕ → Exec Table TaskStateRecord
conflict_now scope slot expected rows = (err (task_state_conflict scope slot expected rows), rows)

-- The creation of one attempt, with what follows if it is to be tried again.
unfoldable pub create_slot :
    Outcome
    → ℕ
    → Text
    → Text
    → Text
    → PutTaskStateRequest
    → Bool
    → Exec Table TaskStateRecord
    → Exec Table TaskStateRecord
create_slot breaks now key scope slot req last again rows = (err (store "query errors"), rows)
create_slot conflicts_early now key scope slot req last again rows =
    if req.create_only
    then conflict_now scope slot (some 0) rows
    else (err (store "write conflict"), rows)
create_slot conflicts now key scope slot req last again rows =
    if req.create_only
    then conflict_now scope slot (some 0) rows
    else if last
    then conflict_now scope slot req.expected_version rows
    else again rows
create_slot runs now key scope slot req last again rows =
    if is_some (lookup scope slot rows)
    then (if req.create_only
        then conflict_now scope slot (some 0) rows
        else if last
        then (err (store "unique index"), rows)
        else again rows)
    else (
      ok (created now key scope slot req.body),
      rows ++ created now key scope slot req.body ∷ [],
    )

-- After an update without a row.
after_update :
    Option TaskStateRecord
    → Outcome
    → (Table → Table)
    → ℕ
    → Text
    → Text
    → Text
    → PutTaskStateRequest
    → Bool
    → Exec Table TaskStateRecord
    → Exec Table TaskStateRecord
after_update (some r) outcome before now key scope slot req last again rows = (ok r, rows)
after_update none outcome before now key scope slot req last again rows =
    if is_some req.expected_version
    then conflict_now scope slot req.expected_version rows
    else create_slot outcome now key scope slot req last again (before rows)

-- One attempt: the compare-and-set update, then the creation.
unfoldable pub attempt :
    Outcome
    → Outcome
    → (Table → Table)
    → (Table → Table)
    → ℕ
    → Text
    → Text
    → Text
    → PutTaskStateRequest
    → Bool
    → Exec Table TaskStateRecord
    → Exec Table TaskStateRecord
unfolding after_update
attempt breaks creation before between now key scope slot req last again rows =
    (err (store "query errors"), before rows)
attempt runs creation before between now key scope slot req last again rows =
    let u = update_rows now scope slot req (before rows) in
    after_update u.0 creation between now key scope slot req last again u.1
attempt _ creation before between now key scope slot req last again rows =
    if last then conflict_now scope slot req.expected_version (before rows) else again (before rows)

-- `for attempt in 0..3`: on the attempts that are left, of three.
unfoldable pub put_attempts :
    ℕ
    → ℕ
    → Weather
    → ℕ
    → (ℕ → Text)
    → Text
    → Text
    → PutTaskStateRequest
    → Exec Table TaskStateRecord
put_attempts zero n weather now keys scope slot req rows =
    conflict_now scope slot req.expected_version rows
put_attempts (suc left) n weather now keys scope slot req rows =
    let again : Exec Table TaskStateRecord =
      put_attempts left (suc n) weather now keys scope slot req in
    attempt (weather.update_outcome n) (weather.create_outcome n) (weather.before_update n)
      (weather.before_create n) now (keys n) scope slot req (left == 0) again rows

-- The checks of a request.
unfoldable pub check_request : Host → Limits → PutTaskStateRequest → Exec Table (Unit {0})
check_request h limits req = do
  let slot = trim req.slot
  lift (refuse_if (is_empty slot) (invalid_op "slot required"))
  lift (refuse_if (ltb 128 (utf8_len slot)) (invalid_op "slot exceeds 128 bytes"))
  lift (
      refuse_if (req.create_only && is_some req.expected_version)
        (invalid_op "create_only cannot be combined with expected_version"))
  lift (
      refuse_if (is_some_and req.expected_version (λ v. v == 0))
        (invalid_op "expected_version must be >= 1"))
  lift (refuse_if (not (is_object req.body)) (invalid_op "task_state body must be a JSON object"))
  lift (
      refuse_if (ltb limits.max_content_bytes (utf8_len (h.json_text req.body)))
        (payload_too_large "task_state body"))

unfoldable pub put_task_state :
    Host → Limits → Weather → ℕ → (ℕ → Text) → PutTaskStateRequest → Exec Table TaskStateRecord
put_task_state h limits weather now keys req = do
  path ← lift (Scope.parse req.scope)
  check_request h limits req
  put_attempts 3 0 weather now keys path.as_str (trim req.slot) req
