-- ===== src/Jobs/Retry.antt =====
-- The two outcomes of a failed attempt, and the growth of the retry backoff.
use nomiso.Prelude.{
  ℕ, ◌^◌, ◌≤◌, ◌<◌, ◌≡◌, refl, ap, inl, inr, ◌⊎◌, true, false, none, some, arith, Bool-cases, min,
  unwrap_or,
}
use native.Mathlib.Nat.{mul-le-mul_left, pow-le-pow_right}
use nomiso.Prelude.Text.{Text, codes}
use nomiso.Errors.{ok}
use nomiso.Host.{Host, now_plus_ms}
use nomiso.Jobs.{
  JobRecord, JobError, JobBudget, pending, failed, backoff_ms, saturating_mul, u64_max,
  job_backoff_default_ms,
}
use nomiso.Jobs.Journal.{Store}
use nomiso.Jobs.Effects.{fail_job, retries, deadline_hit}
use nomiso.Jobs.Completion.{Failed, fail_job-Failed}

-- The job goes back to the queue, with an attempt left, before its deadline and after a backoff.
pub record Requeued (h : Host) (now : ℕ) (error : JobError) (j : JobRecord) : Type 0 where
  pub retryable : error.retryable ≡ true
  pub room : j.attempts < j.budget.max_attempts
  pub in_time : deadline_hit now j ≡ false
  pub state : j.state ≡ pending
  pub backoff : j.not_before ≡ some (now_plus_ms h now (backoff_ms j.budget j.attempts))
  pub unowned : j.owner ≡ none
  pub open_end : j.completed_at ≡ none

-- The job is over, for one of three reasons.
pub record Finished (now : ℕ) (error : JobError) (j : JobRecord) : Type 0 where
  pub state : j.state ≡ failed
  pub closed : j.completed_at ≡ some now
  pub reason :
      ((deadline_hit now j ≡ true) × (j.terminal_reason ≡ some (codes "deadline exceeded")))
      ⊎ ((j.budget.max_attempts ≤ j.attempts)
          × (j.terminal_reason ≡ some (codes "attempt budget exhausted")))
      ⊎ ((error.retryable ≡ false) × (j.terminal_reason ≡ some (codes "non-retryable failure")))

outcome :
    (h : Host) (now : ℕ) (id : Text) (fence : ℕ) (worker : Text) (error : JobError) (s s' : Store)
    (j : JobRecord)
    → Failed h id fence worker error now s s' j
    → Requeued h now error j ⊎ Finished now error j
outcome h now id fence worker error s s' j d = elim (Bool-cases (retries now error d.row.job)) [
  | inl q ↦ inl (
      rw d.returned (record {
        retryable = ground arith;
        room = ground arith;
        in_time = ground arith;
        state = rw q refl;
        backoff = rw q refl;
        unowned = refl;
        open_end = rw q refl;
      }))
  | inr q ↦
      inr (rw d.returned (record { state = rw q refl; closed = rw q refl; reason = ground arith }))
]

-- A failure that returns a job leaves it either back in the queue, if the error is retryable, an
-- attempt is left and the deadline has not passed, not to be claimed before its backoff, without
-- an owner; or failed for good, since the deadline has passed, the attempts are used up or the
-- error is not retryable, with that reason.
pub fail_job-outcome :
    (h : Host) (now : ℕ) (id : Text) (fence : ℕ) (worker : Text) (error : JobError) (s s' : Store)
    (j : JobRecord)
    → fail_job h now id fence worker error s ≡ (ok j, s')
    → Requeued h now error j ⊎ Finished now error j
fail_job-outcome h now id fence worker error s s' j e =
    outcome h now id fence worker error s s' j
      (fail_job-Failed h now id fence worker error s s' j e)

saturating_mul_mono : (a b c : ℕ) → b ≤ c → saturating_mul a b ≤ saturating_mul a c
unfolding saturating_mul
saturating_mul_mono a b c h = omega (arith, mul-le-mul_left a h)

saturating_mul-bound : (a b : ℕ) → saturating_mul a b ≤ u64_max
unfolding saturating_mul
saturating_mul-bound a b = omega arith

-- The backoff never shrinks with the attempts, stays a u64, and is constant from eight attempts on.
pub backoff_ms_mono :
    (budget : JobBudget) (m n : ℕ)
    → m ≤ n
    → (backoff_ms budget m ≤ backoff_ms budget n)
      × (backoff_ms budget n ≤ u64_max)
      × (8 ≤ m → backoff_ms budget m ≡ backoff_ms budget n)
unfolding backoff_ms
backoff_ms_mono budget m n h = (
  saturating_mul_mono _ _ _ (pow-le-pow_right (omega arith) (omega arith)),
  saturating_mul-bound _ _,
  λ e.
      let same : min m 8 ≡ min n 8 = omega arith in
      ap (λ k. saturating_mul (unwrap_or budget.retry_backoff_ms job_backoff_default_ms) (2 ^ k))
        same,
)
