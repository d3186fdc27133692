-- ===== src/Jobs/Enqueue.antt =====
-- crates/nomiso-store/src/surreal_store.rs: durable acceptance of jobs, `enqueue_job`,
-- `find_live_job`, `dedup_replay` and the sweep of expired jobs.
use nomiso.Prelude.{
  ℕ, Bool, true, false, ◌&&◌, ◌||◌, List, [], ◌∷◌, ◌++◌, Option, none, some, ◌==◌, if◌then◌else◌,
}
use nomiso.Prelude.Text.{Text, codes, text_eq, trim}
use nomiso.Errors.{Result, ok, err, store, invalid_op}
use nomiso.Exec.{Exec, pure, fail, lift, query, ◌>>=◌, ◌>>◌}
use nomiso.Host.{Host, now_plus_ms}
use nomiso.Scope
use nomiso.Scope.{ScopePath}
use nomiso.Jobs.{
  JobRecord, JobInput, EnqueueJobRequest, EnqueueJobResult, pending, failed, validate_enqueue,
}
use nomiso.Jobs.Journal.{JobRow, Store, update_job, norm_record_id, job_bare_key, tomb, is_pending}
use nomiso.Jobs.Inputs.{job_dedup_key, job_inputs_value, inputs_hold}

-- The row that `CREATE nomiso_job` makes under a generated key.
unfoldable pub new_row : Host → ℕ → Text → Text → Text → List JobInput → EnqueueJobRequest → JobRow
new_row h now key scope dedup inputs req = record {
  key = key;
  job = record {
    id = norm_record_id (codes "nomiso_job:" ++ key) (codes "nomiso_job");
    scope = scope;
    kind = trim req.kind;
    state = pending;
    dedup_key = dedup;
    inputs = inputs;
    composition = req.composition;
    payload = req.payload;
    budget = req.budget;
    attempts = 0;
    fence = 0;
    owner = none;
    lease_until = none;
    not_before = none;
    expires_at = elim req.budget.deadline_ms [
      | none ↦ none
      | some ms ↦ some (now_plus_ms h now ms)
    ];
    checkpoint = none;
    result = none;
    error = none;
    replaced_by = none;
    terminal_reason = none;
    history = [];
    created_at = now;
    updated_at = now;
    completed_at = none;
  };
  dedup_slot = dedup;
}

-- The unique index on `dedup_slot`, over all scopes.
unfoldable pub slot_taken : Text → List JobRow → Bool
slot_taken slot [] = false
slot_taken slot (r ∷ rows) = text_eq r.dedup_slot slot || slot_taken slot rows

unfoldable pub find_live_job : Text → Text → List JobRow → Option JobRecord
find_live_job scope dedup_key [] = none
find_live_job scope dedup_key (r ∷ rows) =
    if text_eq r.dedup_slot dedup_key && text_eq r.scope scope
    then some r.job
    else find_live_job scope dedup_key rows

-- `dedup_replay`, and the error of the refused insert where no live job shows.
unfoldable pub replay : Option JobRecord → Result EnqueueJobResult
replay none = err (store "query errors: unique index")
replay (some job) = ok (record { job = job; deduplicated = true })

-- The insert, or the replay of the job that holds the slot.
unfoldable pub insert_job : JobRow → Exec Store EnqueueJobResult
unfolding replay
insert_job row s =
    if slot_taken row.dedup_slot s.jobs
    then (replay (find_live_job row.scope row.dedup_slot s.jobs), s)
    else (
      ok (record { job = row.job; deduplicated = false }),
      record s { jobs = s.jobs ++ row ∷ [] },
    )

-- The transaction: every input of the request in place, then the insert.
unfoldable pub enqueue_commit : List JobInput → JobRow → Exec Store EnqueueJobResult
unfolding insert_job
enqueue_commit inputs row = do
  held ← query (λ s. inputs_hold s row.scope inputs)
  if held
      then insert_job row
      else fail (invalid_op "job input not found in the job's scope (or pinned revision mismatch)")

unfoldable pub enqueue_job : Host → ℕ → Text → EnqueueJobRequest → Exec Store EnqueueJobResult
enqueue_job h now new_key req = do
  lift (validate_enqueue h req)
  path ← lift (Scope.parse req.scope)
  dedup_key ← lift (job_dedup_key h req path.as_str)
  inputs ← lift (job_inputs_value req.inputs)
  enqueue_commit req.inputs (new_row h now new_key path.as_str dedup_key inputs req)

-- `mark_deadline_expired`
abbrev pub expired_row : ℕ → Text → JobRow → JobRow
expired_row now key r = record r {
  job = record r.job {
    state = failed;
    terminal_reason = some (codes "deadline exceeded");
    completed_at = some now;
    updated_at = now;
  };
  dedup_slot = tomb key;
}

abbrev pub expire_guard : JobRecord → JobRow → Bool
expire_guard job r = is_pending r.state && r.fence == job.fence

unfoldable pub mark_deadline_expired : ℕ → JobRecord → Exec Store (Unit {0})
mark_deadline_expired now job = do
  key ← lift (job_bare_key job.id)
  update_job key (expire_guard job) (expired_row now key)
  pure tt
