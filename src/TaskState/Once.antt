-- ===== src/TaskState/Once.antt =====
-- No two writes of a task state replace the same version.
use nomiso.Prelude.{ℕ, ◌≤◌, ◌<◌, ◌≡◌, refl, sym, ◌∙◌, ap, inl, inr, false, Option, some, arith}
use nomiso.Prelude.Text.{Text, trim}
use nomiso.Errors.{ok, err, conflict}
use nomiso.Host.{Host}
use nomiso.Scope
use nomiso.Scope.{ScopePath}
use nomiso.Validation.{Limits}
use nomiso.TaskState.{
  PutTaskStateRequest, TaskStateRecord, Table, runs, Weather, lookup, task_state_conflict, expects,
  after_update, attempt, put_attempts, check_request, put_task_state,
}
use nomiso.TaskState.Swaps.{update_cases, put_task_state-Swapped, check_request-same}

-- No fault, and no other client during the call.
abbrev pub calm : Weather
calm = record {
  update_outcome = λ n. runs;
  create_outcome = λ n. runs;
  before_update = λ n rows. rows;
  before_create = λ n rows. rows;
}

-- A table in which the row at the slot has not gone back.
abbrev pub Later : Text → Text → Table → Table → Type 0
Later scope slot rows rows' =
    (r : TaskStateRecord)
    → lookup scope slot rows ≡ some r
    → (r' : TaskStateRecord) × (lookup scope slot rows' ≡ some r') × (r.version ≤ r'.version)

refuses :
    (o : Option ℕ) (v : ℕ) (row : TaskStateRecord)
    → o ≡ some v
    → v < row.version
    → expects o row ≡ false
refuses o v row e h = rw e (ground arith)

stale_attempts :
    (now : ℕ) (keys : ℕ → Text) (scope slot : Text) (req : PutTaskStateRequest) (v : ℕ)
    (rows : Table) (row : TaskStateRecord)
    → req.expected_version ≡ some v
    → lookup scope slot rows ≡ some row
    → v < row.version
    → put_attempts 3 0 calm now keys scope slot req rows ≡ (err (conflict v row.version), rows)
unfolding put_attempts attempt after_update task_state_conflict
stale_attempts now keys scope slot req v rows row x e h =
    elim (update_cases now scope slot req rows) [
      | inl (rec, a, d) ↦
          let same : d.row ≡ row = cc (d.at_row, e) in
          absurd (
            cc (
              ap (expects req.expected_version) same,
              d.expected,
              refuses req.expected_version v row x h,
            ))
      | inr (a, k) ↦ rw (a, k.same, x, e) refl
    ]

-- After a put that expected a version and succeeded, in any table in which the row has not gone
-- back since, a valid put on the same scope and slot that expects the same version, in a call
-- without faults and other clients, is refused with the version found, and writes nothing.
pub put_task_state_once :
    (h : Host) (limits : Limits) (weather : Weather) (now : ℕ) (keys : ℕ → Text)
    (req : PutTaskStateRequest) (v : ℕ) (rows rows' : Table) (rec : TaskStateRecord)
    → req.expected_version ≡ some v
    → put_task_state h limits weather now keys req rows ≡ (ok rec, rows')
    → (path : ScopePath) (later : Table) → Scope.parse req.scope ≡ ok path
    → Later path.as_str (trim req.slot) rows' later
    → (again : PutTaskStateRequest) (now' : ℕ) (keys' : ℕ → Text) → again.expected_version ≡ some v
    → Scope.parse again.scope ≡ ok path
    → trim again.slot ≡ trim req.slot
    → (check_request h limits again later).0 ≡ ok tt
    → (n : ℕ) × (v < n)
      × (put_task_state h limits calm now' keys' again later ≡ (err (conflict v n), later))
unfolding put_task_state
put_task_state_once h limits weather now keys req v rows rows' rec x e path later p l again now'
      keys' y q s c =
    let d = put_task_state-Swapped h limits weather now keys req v rows rows' rec x e in
    let same : d.path ≡ path = cc (d.parsed, p) in
    let stored : lookup path.as_str (trim req.slot) rows' ≡ some rec =
      ap (λ (t : ScopePath). lookup t.as_str (trim req.slot) rows') (sym same) ∙ d.stored in
    let (r', a, g) = l rec stored in
    let newer : v < r'.version = let next = d.new_version in omega arith in
    (
      r'.version,
      newer,
      rw (q, c, check_request-same h limits again later)
          (stale_attempts now' keys' path.as_str (trim again.slot) again v later r' y (rw s a)
            newer),
    )
