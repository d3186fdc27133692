-- ===== src/Jobs/Claim.antt =====
-- crates/nomiso-store/src/surreal_store.rs: `claim_job`, the lease acquisition of workers.
use nomiso.Prelude.{
  ℕ, ◌+◌, Bool, true, ◌&&◌, ◌||◌, List, [], ◌∷◌, ◌++◌, Option, none, some, ◌==◌, leb, if◌then◌else◌,
  is_some_and, is_empty, filter, take, map,
}
use nomiso.Prelude.Text.{Text, text_mem, trim}
use nomiso.Prelude.Sort.{sort}
use nomiso.Errors.{ok, invalid_op, refuse_if, traverse}
use nomiso.Exec.{Exec, pure, lift, query, ◌>>=◌, ◌>>◌}
use nomiso.Host.{Host, now_plus_ms}
use nomiso.Scope
use nomiso.Scope.{ScopePath}
use nomiso.Jobs.{leased, JobAttempt, JobRecord, ClaimJobRequest, JobLease}
use nomiso.Jobs.Journal.{JobRow, Store, update_job, job_bare_key, is_pending, is_leased}
use nomiso.Jobs.Enqueue.{mark_deadline_expired}

-- Pending past its backoff, or leased past its expiry. A comparison with NONE is false here:
-- every leased row has `lease_until`.
abbrev pub claimable : ℕ → JobRow → Bool
claimable now r =
    (is_pending r.state && elim r.not_before [ none ↦ true | some t ↦ leb t now ])
    || (is_leased r.state && is_some_and r.lease_until (λ t. leb t now))

abbrev pub created_before : JobRow → JobRow → Bool
created_before a b = leb a.created_at b.created_at

-- The claim scan: in the grant, claimable, the eight oldest.
unfoldable pub candidates : ℕ → List Text → List Text → List JobRow → List JobRecord
candidates now scopes kinds rows =
    map (λ r. r.job)
      (take 8 (
        sort created_before (
          filter (λ r. (text_mem r.scope scopes && text_mem r.kind kinds) && claimable now r)
            rows)))

abbrev pub new_attempt : ℕ → Text → JobRecord → JobAttempt
new_attempt now worker job = record {
  attempt = job.attempts + 1;
  worker = worker;
  fence = job.fence + 1;
  started_at = now;
  ended_at = none;
  error = none;
}

-- The row of a job that is leased anew.
abbrev pub claimed_row : ℕ → Text → ℕ → JobRecord → JobRow → JobRow
claimed_row now worker lease_until job r = record r {
  job = record r.job {
    state = leased;
    fence = r.fence + 1;
    owner = some worker;
    lease_until = some lease_until;
    not_before = none;
    attempts = r.attempts + 1;
    updated_at = now;
    history = r.history ++ new_attempt now worker job ∷ [];
  };
}

abbrev pub claim_guard : ℕ → JobRecord → JobRow → Bool
claim_guard now job r = claimable now r && r.fence == job.fence

-- The compare-and-set on the fence of the scanned job. None: another claimant was first.
unfoldable pub claim_commit : Host → ℕ → Text → JobRecord → Exec Store (Option JobLease)
claim_commit h now worker job = do
  let lease_until = now_plus_ms h now job.budget.lease_ms
  key ← lift (job_bare_key job.id)
  claimed ← update_job key (claim_guard now job) (claimed_row now worker lease_until job)
  pure (elim claimed [
    | none ↦ none
    | some j ↦ some (record { job = j; fence = j.fence; lease_until = lease_until })
  ])

-- Past-deadline pending jobs fail, exhausted jobs are skipped.
abbrev pub past_deadline : ℕ → JobRecord → Bool
past_deadline now job = is_pending job.state && is_some_and job.expires_at (λ e. leb e now)

abbrev or_next : Option JobLease → Exec Store (Option JobLease) → Exec Store (Option JobLease)
or_next (some lease) next = pure (some lease)
or_next none next = next

-- The loop over the candidates.
unfoldable pub claim_loop : Host → ℕ → Text → List JobRecord → Exec Store (Option JobLease)
claim_loop h now worker [] s = (ok none, s)
claim_loop h now worker (job ∷ rest) s =
    let next : Exec Store (Option JobLease) = claim_loop h now worker rest in
    let swept : Exec Store (Option JobLease) = mark_deadline_expired now job >>= (λ _. next) in
    let tried : Exec Store (Option JobLease) =
      claim_commit h now worker job >>= (λ lease. or_next lease next) in
    if past_deadline now job
    then swept s
    else if leb job.budget.max_attempts job.attempts
    then next s
    else tried s

unfoldable pub claim_job : Host → ℕ → ClaimJobRequest → Exec Store (Option JobLease)
claim_job h now req = do
  let worker = trim req.worker
  lift (
      refuse_if (is_empty worker || (is_empty req.scopes || is_empty req.kinds))
        (invalid_op "claim requires a worker identity, scope grant, and kind allowlist"))
  paths ← lift (traverse Scope.parse req.scopes)
  jobs ← query (λ s. ok (candidates now (map (λ p. p.as_str) paths) req.kinds s.jobs))
  claim_loop h now worker jobs
