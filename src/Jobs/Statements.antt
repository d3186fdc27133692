-- ===== src/Jobs/Statements.antt =====
-- What each commit leaves in the store: the store it found, or one keyed update of it.
use nomiso.Prelude.{
  ℕ, ◌≡◌, refl, inl, inr, Bool, true, false, List, [], ◌∷◌, ◌++◌, Option, none, some, Bool-cases,
}
use nomiso.Prelude.Text.{Text}
use nomiso.Errors.{ok, Result-cases}
use nomiso.Exec.{pure, ◌>>=◌}
use nomiso.Host.{Host, now_plus_ms}
use nomiso.Json.{Json}
use nomiso.Scope
use nomiso.Jobs.{JobRecord, JobError, JobInput, EnqueueJobRequest, validate_enqueue, JobLease}
use nomiso.Jobs.Journal.{JobRow, Store, update, job_bare_key, tomb, holds, is_live_in}
use nomiso.Jobs.Inputs.{job_dedup_key, job_inputs_value, inputs_hold}
use nomiso.Jobs.Enqueue.{
  new_row, slot_taken, enqueue_commit, enqueue_job, expired_row, expire_guard,
  mark_deadline_expired,
}
use nomiso.Jobs.Claim.{claimed_row, claim_guard, claim_commit}
use nomiso.Jobs.Effects.{
  renewed_row, renew_commit, saved_row, checkpoint_commit, completed_row, complete_commit,
  failed_row, fail_commit, or_lost,
}
use nomiso.Jobs.Control.{cancelled_row, cancel_commit, superseded_row, supersede_commit, or_current}

abbrev pub set_jobs : Store → List JobRow → Store
set_jobs s rows = record s { jobs = rows }

-- A keyed update of the table.
abbrev pub set_row : Store → Text → (JobRow → Bool) → (JobRow → JobRow) → Store
set_row s key p f = set_jobs s (update key p f s.jobs)

or_lost-store : (o : Option JobRecord) (s : Store) → (or_lost o s).1 ≡ s
or_lost-store none s = refl
or_lost-store (some j) s = refl

or_current-store : (id : Text) (o : Option JobRecord) (s : Store) → (or_current id o s).1 ≡ s
or_current-store id none s = refl
or_current-store id (some j) s = refl

renewed-store :
    (lease_until : ℕ) (o : Option JobRecord) (s : Store)
    → ((or_lost o >>= (λ j.
          pure {S = Store} {A = JobLease}
            (record { job = j; fence = j.fence; lease_until = lease_until })))
        s).1
      ≡ s
renewed-store lease_until none s = refl
renewed-store lease_until (some j) s = refl

new_row_slot :
    (h : Host) (now : ℕ) (key scope dedup : Text) (inputs : List JobInput) (req : EnqueueJobRequest)
    (rows : List JobRow)
    → slot_taken (new_row h now key scope dedup inputs req).dedup_slot rows ≡ false
    → slot_taken dedup rows ≡ false
unfolding new_row
new_row_slot h now key scope dedup inputs req rows free = free

module _ {ℓ} (P : Store → Type ℓ) (s : Store) (base : P s) where
  pub expired-store :
      (now : ℕ) (job : JobRecord)
      → ((key : Text)
          → job_bare_key job.id ≡ ok key
          → P (set_row s key (expire_guard job) (expired_row now key)))
      → P (mark_deadline_expired now job s).1
  unfolding mark_deadline_expired
  expired-store now job k = elim (Result-cases (job_bare_key job.id)) [
    | inl (key, e) ↦ rw e (k key e)
    | inr (x, e) ↦ rw e base
  ]

  pub claim-store :
      (h : Host) (now : ℕ) (worker : Text) (job : JobRecord)
      → ((key : Text)
          → job_bare_key job.id ≡ ok key
          → P (
              set_row s key
                (claim_guard now job)
                (claimed_row now worker (now_plus_ms h now job.budget.lease_ms) job)))
      → P (claim_commit h now worker job s).1
  unfolding claim_commit
  claim-store h now worker job k = elim (Result-cases (job_bare_key job.id)) [
    | inl (key, e) ↦ rw e (k key e)
    | inr (x, e) ↦ rw e base
  ]

  pub renew-store :
      (h : Host) (now : ℕ) (id : Text) (fence : ℕ) (worker : Text) (job : JobRecord)
      → ((key : Text)
          → job_bare_key id ≡ ok key
          → P (
              set_row s key
                (holds fence worker)
                (renewed_row now (now_plus_ms h now job.budget.lease_ms))))
      → P (renew_commit h now id fence worker job s).1
  unfolding renew_commit
  renew-store h now id fence worker job k = elim (Result-cases (job_bare_key id)) [
    | inl (key, e) ↦ rw (e, renewed-store (now_plus_ms h now job.budget.lease_ms)) (k key e)
    | inr (x, e) ↦ rw e base
  ]

  pub checkpoint-store :
      (now : ℕ) (id : Text) (fence : ℕ) (worker : Text) (body : Json)
      → ((key : Text)
          → job_bare_key id ≡ ok key
          → P (set_row s key (holds fence worker) (saved_row now body)))
      → P (checkpoint_commit now id fence worker body s).1
  unfolding checkpoint_commit
  checkpoint-store now id fence worker body k = elim (Result-cases (job_bare_key id)) [
    | inl (key, e) ↦ rw (e, or_lost-store) (k key e)
    | inr (x, e) ↦ rw e base
  ]

  pub complete-store :
      (now : ℕ) (id : Text) (fence : ℕ) (worker : Text) (result : Json) (job : JobRecord)
      → ((key own : Text)
          → job_bare_key id ≡ ok key
          → job_bare_key job.id ≡ ok own
          → inputs_hold s job.scope job.inputs ≡ ok true
          → P (set_row s key (holds fence worker) (completed_row now result (tomb own) job)))
      → P (complete_commit now id fence worker result job s).1
  unfolding complete_commit
  complete-store now id fence worker result job k = elim (Result-cases (job_bare_key job.id)) [
    | inr (x, e) ↦ rw e base
    | inl (own, e) ↦ elim (Result-cases (inputs_hold s job.scope job.inputs)) [
      | inr (x, d) ↦ rw (e, d) base
      | inl (held, d) ↦ elim (Result-cases (job_bare_key id)) [
        | inr (x, c) ↦ rw (e, d, c) base
        | inl (key, c) ↦ elim (Bool-cases held) [
          | inl b ↦ rw (e, d, c, b, or_lost-store) (k key own c e (rw b at d))
          | inr b ↦ rw (e, d, c, b) base
        ]
      ]
    ]
  ]

  pub fail-store :
      (h : Host) (now : ℕ) (id : Text) (fence : ℕ) (worker : Text) (error : JobError)
      (job : JobRecord)
      → ((key own : Text)
          → job_bare_key id ≡ ok key
          → job_bare_key job.id ≡ ok own
          → P (set_row s key (holds fence worker) (failed_row h now error own job)))
      → P (fail_commit h now id fence worker error job s).1
  unfolding fail_commit
  fail-store h now id fence worker error job k = elim (Result-cases (job_bare_key job.id)) [
    | inr (x, e) ↦ rw e base
    | inl (own, e) ↦ elim (Result-cases (job_bare_key id)) [
      | inr (x, c) ↦ rw (e, c) base
      | inl (key, c) ↦ rw (e, c, or_lost-store) (k key own c e)
    ]
  ]

  pub cancel-store :
      (now : ℕ) (scope id reason : Text) (job : JobRecord)
      → ((key own : Text)
          → job_bare_key id ≡ ok key
          → job_bare_key job.id ≡ ok own
          → P (set_row s key (is_live_in scope) (cancelled_row now reason own job)))
      → P (cancel_commit now scope id reason job s).1
  unfolding cancel_commit
  cancel-store now scope id reason job k = elim (Result-cases (job_bare_key id)) [
    | inr (x, c) ↦ rw c base
    | inl (key, c) ↦ elim (Result-cases (job_bare_key job.id)) [
      | inr (x, e) ↦ rw (c, e) base
      | inl (own, e) ↦ rw (c, e, or_current-store) (k key own c e)
    ]
  ]

  pub supersede-store :
      (now : ℕ) (scope id replacement reason : Text) (job : JobRecord)
      → ((key own : Text)
          → job_bare_key id ≡ ok key
          → job_bare_key job.id ≡ ok own
          → P (set_row s key (is_live_in scope) (superseded_row now replacement reason own job)))
      → P (supersede_commit now scope id replacement reason job s).1
  unfolding supersede_commit
  supersede-store now scope id replacement reason job k = elim (Result-cases (job_bare_key id)) [
    | inr (x, c) ↦ rw c base
    | inl (key, c) ↦ elim (Result-cases (job_bare_key job.id)) [
      | inr (x, e) ↦ rw (c, e) base
      | inl (own, e) ↦ rw (c, e, or_current-store) (k key own c e)
    ]
  ]

  pub enqueue_commit-store :
      (inputs : List JobInput) (row : JobRow)
      → (slot_taken row.dedup_slot s.jobs ≡ false → P (set_jobs s (s.jobs ++ row ∷ [])))
      → P (enqueue_commit inputs row s).1
  unfolding enqueue_commit
  enqueue_commit-store inputs row k = elim (Result-cases (inputs_hold s row.scope inputs)) [
    | inr (x, d) ↦ rw d base
    | inl (held, d) ↦ elim (Bool-cases held) [
      | inr b ↦ rw (d, b) base
      | inl b ↦ elim (Bool-cases (slot_taken row.dedup_slot s.jobs)) [
        | inl taken ↦ rw (d, b, taken) base
        | inr free ↦ rw (d, b, free) (k free)
      ]
    ]
  ]

  pub enqueue-store :
      (h : Host) (now : ℕ) (new_key : Text) (req : EnqueueJobRequest)
      → ((scope dedup : Text) (inputs : List JobInput)
          → validate_enqueue h req ≡ ok tt
          → job_dedup_key h req scope ≡ ok dedup
          → slot_taken dedup s.jobs ≡ false
          → P (set_jobs s (s.jobs ++ new_row h now new_key scope dedup inputs req ∷ [])))
      → P (enqueue_job h now new_key req s).1
  unfolding enqueue_job
  enqueue-store h now new_key req k = elim (Result-cases (validate_enqueue h req)) [
    | inr (x, a) ↦ rw a base
    | inl (u, a) ↦ elim (Result-cases (Scope.parse req.scope)) [
      | inr (x, b) ↦ rw (a, b) base
      | inl (path, b) ↦ elim (Result-cases (job_dedup_key h req path.as_str)) [
        | inr (x, c) ↦ rw (a, b, c) base
        | inl (dedup, c) ↦ elim (Result-cases (job_inputs_value req.inputs)) [
          | inr (x, d) ↦ rw (a, b, c, d) base
          | inl (inputs, d) ↦
              rw (a, b, c, d)
                (enqueue_commit-store req.inputs _ (λ free.
                  k path.as_str dedup inputs a c
                    (new_row_slot h now new_key path.as_str dedup inputs req s.jobs free)))
        ]
      ]
    ]
  ]
