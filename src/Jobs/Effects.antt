-- ===== src/Jobs/Effects.antt =====
-- crates/nomiso-store/src/surreal_store.rs: the effects of a worker under its lease. Each method
-- reads the job, and commits by one statement on the row: the statement is a definition of its
-- own over the job that was read, since other clients may act between the two.
use nomiso.Prelude.{ℕ, Bool, ◌&&◌, Option, none, some, ltb, leb, if◌then◌else◌, is_some_and, not}
use nomiso.Prelude.Text.{Text, codes}
use nomiso.Errors.{invalid_op, lease_lost, stale_input, refuse_if}
use nomiso.Exec.{Exec, pure, fail, lift, query, ◌>>=◌, ◌>>◌}
use nomiso.Host.{Host, now_plus_ms}
use nomiso.Json.{Json, is_object}
use nomiso.Jobs.{
  pending, succeeded, failed, JobError, JobRecord, JobLease, backoff_ms, validate_job_body,
}
use nomiso.Jobs.Journal.{
  Store, update_job, job_bare_key, job_by_key, tomb, holds, close_history_with, JobRow,
}
use nomiso.Jobs.Inputs.{inputs_hold}

-- No row was updated: the lease is not this worker's under this fence.
abbrev pub or_lost : Option JobRecord → Exec Store JobRecord
or_lost none = fail (lease_lost "job is not leased to worker under fence")
or_lost (some job) = pure job

abbrev pub renewed_row : ℕ → ℕ → JobRow → JobRow
renewed_row now lease_until r = record r {
  job = record r.job { lease_until = some lease_until; updated_at = now };
}

unfoldable pub renew_commit : Host → ℕ → Text → ℕ → Text → JobRecord → Exec Store JobLease
renew_commit h now id fence worker job = do
  let lease_until = now_plus_ms h now job.budget.lease_ms
  key ← lift (job_bare_key id)
  renewed ← update_job key (holds fence worker) (renewed_row now lease_until)
  j ← or_lost renewed
  pure (record { job = j; fence = j.fence; lease_until = lease_until })

unfoldable pub renew_job_lease : Host → ℕ → Text → ℕ → Text → Exec Store JobLease
renew_job_lease h now id fence worker = do
  job ← query (job_by_key id)
  renew_commit h now id fence worker job

abbrev pub saved_row : ℕ → Json → JobRow → JobRow
saved_row now checkpoint r = record r {
  job = record r.job { checkpoint = some checkpoint; updated_at = now };
}

unfoldable pub checkpoint_commit : ℕ → Text → ℕ → Text → Json → Exec Store JobRecord
checkpoint_commit now id fence worker checkpoint = do
  key ← lift (job_bare_key id)
  saved ← update_job key (holds fence worker) (saved_row now checkpoint)
  or_lost saved

unfoldable pub checkpoint_job : Host → ℕ → Text → ℕ → Text → Json → Exec Store JobRecord
checkpoint_job h now id fence worker checkpoint = do
  lift (validate_job_body h checkpoint)
  lift (refuse_if (not (is_object checkpoint)) (invalid_op "job checkpoint must be an object"))
  query (job_by_key id)
  checkpoint_commit now id fence worker checkpoint

abbrev pub completed_row : ℕ → Json → Text → JobRecord → JobRow → JobRow
completed_row now result tombstone job r = record r {
  job = record r.job {
    state = succeeded;
    result = some result;
    completed_at = some now;
    updated_at = now;
    history = close_history_with now job none;
  };
  dedup_slot = tombstone;
}

-- The completion transaction: the pinned inputs, then the row.
unfoldable pub complete_row : ℕ → Text → ℕ → Text → Json → Text → JobRecord → Exec Store JobRecord
complete_row now key fence worker result tombstone job = do
  done ← update_job key (holds fence worker) (completed_row now result tombstone job)
  or_lost done

unfoldable pub complete_commit : ℕ → Text → ℕ → Text → Json → JobRecord → Exec Store JobRecord
unfolding complete_row
complete_commit now id fence worker result job = do
  own ← lift (job_bare_key job.id)
  held ← query (λ s. inputs_hold s job.scope job.inputs)
  key ← lift (job_bare_key id)
  if held
      then complete_row now key fence worker result (tomb own) job
      else fail (stale_input "job inputs no longer satisfy pinned revisions; replan the work")

unfoldable pub complete_job : Host → ℕ → Text → ℕ → Text → Json → Exec Store JobRecord
complete_job h now id fence worker result = do
  lift (validate_job_body h result)
  lift (refuse_if (not (is_object result)) (invalid_op "job result must be an object"))
  job ← query (job_by_key id)
  complete_commit now id fence worker result job

-- What `fail_job` decides from the job that it read.
abbrev pub deadline_hit : ℕ → JobRecord → Bool
deadline_hit now job = is_some_and job.expires_at (λ e. leb e now)

abbrev pub retries : ℕ → JobError → JobRecord → Bool
retries now error job =
    error.retryable && (ltb job.attempts job.budget.max_attempts && not (deadline_hit now job))

abbrev pub failure_reason : ℕ → JobRecord → Text
failure_reason now job =
    if deadline_hit now job
    then codes "deadline exceeded"
    else if leb job.budget.max_attempts job.attempts
    then codes "attempt budget exhausted"
    else codes "non-retryable failure"

abbrev pub failed_row : Host → ℕ → JobError → Text → JobRecord → JobRow → JobRow
failed_row h now error own job r = record r {
  job = record r.job {
    state = if retries now error job then pending else failed;
    error = some error;
    not_before =
        if retries now error job
        then some (now_plus_ms h now (backoff_ms job.budget job.attempts))
        else none;
    lease_until = none;
    owner = none;
    terminal_reason = if retries now error job then none else some (failure_reason now job);
    completed_at = if retries now error job then none else some now;
    history = close_history_with now job (some error.message);
    updated_at = now;
  };
  dedup_slot = if retries now error job then job.dedup_key else tomb own;
}

unfoldable pub fail_commit :
    Host → ℕ → Text → ℕ → Text → JobError → JobRecord → Exec Store JobRecord
fail_commit h now id fence worker error job = do
  own ← lift (job_bare_key job.id)
  key ← lift (job_bare_key id)
  ended ← update_job key (holds fence worker) (failed_row h now error own job)
  or_lost ended

unfoldable pub fail_job : Host → ℕ → Text → ℕ → Text → JobError → Exec Store JobRecord
fail_job h now id fence worker error = do
  job ← query (job_by_key id)
  fail_commit h now id fence worker error job
