-- ===== src/Jobs/Control.antt =====
-- crates/nomiso-store/src/surreal_store.rs: `cancel_job` and `supersede_job`, in the two parts
-- that other clients may come between.
use nomiso.Prelude.{ℕ, not, Option, none, some, if◌then◌else◌}
use nomiso.Prelude.Text.{Text, text_eq}
use nomiso.Errors.{Result, err, invalid_op, scope_denied, refuse_if}
use nomiso.Exec.{Exec, pure, lift, query, ◌>>=◌, ◌>>◌}
use nomiso.Scope
use nomiso.Jobs.{cancelled, superseded, JobRecord, terminal}
use nomiso.Jobs.Journal.{
  Store, update_job, job_bare_key, job_by_key, tomb, is_live_in, close_history_with, JobRow,
}

-- The scope and the state of the job that was read.
unfoldable pub check_live : Text → JobRecord → Result (Unit {0})
check_live scope job =
    if not (text_eq job.scope scope)
    then err (scope_denied "job scope")
    else refuse_if (terminal job.state) (invalid_op "job is already terminal")

-- No row was updated: the job became terminal meanwhile, and is returned as it is.
abbrev pub or_current : Text → Option JobRecord → Exec Store JobRecord
or_current id none = query (job_by_key id)
or_current id (some job) = pure job

abbrev pub cancelled_row : ℕ → Text → Text → JobRecord → JobRow → JobRow
cancelled_row now reason own job r = record r {
  job = record r.job {
    state = cancelled;
    terminal_reason = some reason;
    lease_until = none;
    owner = none;
    completed_at = some now;
    history = close_history_with now job none;
    updated_at = now;
  };
  dedup_slot = tomb own;
}

unfoldable pub cancel_commit : ℕ → Text → Text → Text → JobRecord → Exec Store JobRecord
cancel_commit now scope id reason job = do
  key ← lift (job_bare_key id)
  own ← lift (job_bare_key job.id)
  done ← update_job key (is_live_in scope) (cancelled_row now reason own job)
  or_current id done

unfoldable pub cancel_job : ℕ → Text → Text → Text → Exec Store JobRecord
cancel_job now raw_scope id reason = do
  path ← lift (Scope.parse raw_scope)
  job ← query (job_by_key id)
  lift (check_live path.as_str job)
  cancel_commit now path.as_str id reason job

abbrev pub superseded_row : ℕ → Text → Text → Text → JobRecord → JobRow → JobRow
superseded_row now replacement reason own job r = record r {
  job = record r.job {
    state = superseded;
    replaced_by = some replacement;
    terminal_reason = some reason;
    lease_until = none;
    owner = none;
    completed_at = some now;
    history = close_history_with now job none;
    updated_at = now;
  };
  dedup_slot = tomb own;
}

unfoldable pub supersede_commit : ℕ → Text → Text → Text → Text → JobRecord → Exec Store JobRecord
supersede_commit now scope id replacement reason job = do
  key ← lift (job_bare_key id)
  own ← lift (job_bare_key job.id)
  done ← update_job key (is_live_in scope) (superseded_row now replacement reason own job)
  or_current id done

unfoldable pub supersede_job : ℕ → Text → Text → Text → Text → Exec Store JobRecord
supersede_job now raw_scope id replacement_id reason = do
  path ← lift (Scope.parse raw_scope)
  job ← query (job_by_key id)
  lift (check_live path.as_str job)
  replacement ← query (job_by_key replacement_id)
  lift (
      refuse_if (not (text_eq replacement.scope path.as_str))
        (scope_denied "replacement job must share the job's scope"))
  supersede_commit now path.as_str id replacement.id reason job
