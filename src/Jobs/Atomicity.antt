-- ===== src/Jobs/Atomicity.antt =====
-- A method of the journal that returns an error has written nothing.
use nomiso.Prelude.{
  ℕ, ◌≡◌, refl, ap, inl, inr, ◌⊎◌, Bool, true, false, List, [], ◌∷◌, Option, none, some, arith,
  Bool-cases, not, if◌then◌else◌,
}
use nomiso.Prelude.Text.{Text, text_eq}
use nomiso.Errors.{Result, Error, ok, err, Result-cases, refuse_if}
use nomiso.Exec.{Exec, lift, query, pure, fail, ◌>>=◌}
use nomiso.Host.{Host, now_plus_ms}
use nomiso.Jobs.{
  JobRecord, EnqueueJobRequest, JobError, validate_enqueue, validate_job_body, JobInput,
}
use nomiso.Scope
use nomiso.Jobs.Journal.{
  JobRow, Store, find, update, updated, update_job, job_bare_key, job_by_key, holds, is_live_in,
  tomb,
}
use nomiso.Jobs.Effects.{
  checkpoint_commit, checkpoint_job, complete_commit, complete_job, complete_row, fail_commit,
  fail_job, renew_commit, renew_job_lease, completed_row, failed_row, renewed_row, saved_row,
  or_lost,
}
use nomiso.Jobs.Enqueue.{enqueue_commit, enqueue_job, insert_job, new_row}
use nomiso.Jobs.Control.{
  cancel_commit, cancel_job, supersede_commit, supersede_job, check_live, cancelled_row,
  superseded_row, or_current,
}
use nomiso.Json.{Json, is_object}
use nomiso.Jobs.Inputs.{inputs_hold, job_dedup_key, job_inputs_value}

-- The method keeps the store when it fails.
abbrev pub Atomic : {A : Type 0} → Exec Store A → Type 0
Atomic m = (s : Store) (x : Error) → (m s).0 ≡ err x → (m s).1 ≡ s

pub lift_then :
    {A B : Type 0} (r : Result A) (f : A → Exec Store B)
    → ((a : A) → Atomic (f a))
    → Atomic (lift r >>= f)
lift_then r f k s x e = elim (Result-cases r) [
  | inl (a, d) ↦ rw d (k a s x (rw d at e))
  | inr (y, d) ↦ rw d refl
]

pub query_then :
    {A B : Type 0} (q : Store → Result A) (f : A → Exec Store B)
    → ((a : A) → Atomic (f a))
    → Atomic (query q >>= f)
query_then q f k s x e = elim (Result-cases (q s)) [
  | inl (a, d) ↦ rw d (k a s x (rw d at e))
  | inr (y, d) ↦ rw d refl
]

-- A keyed statement writes its row, or nothing.
pub update_cases :
    (key : Text) (p : JobRow → Bool) (f : JobRow → JobRow) (rows : List JobRow)
    → ((r : JobRow) × (find key rows ≡ some r)
        × (p r ≡ true)
        × (updated p f (find key rows) ≡ some (f r).job))
      ⊎ ((updated p f (find key rows) ≡ none) × (update key p f rows ≡ rows))
unfolding find update
update_cases key p f [] = inr (refl, refl)
update_cases key p f (x ∷ rows) = elim (Bool-cases (text_eq x.key key)) [
  | inl same ↦ elim (Bool-cases (p x)) [
    | inl q ↦ rw same (inl (x, refl, q, rw q refl))
    | inr q ↦ rw (same, q) (inr (refl, refl))
  ]
  | inr other ↦ elim (update_cases key p f rows) [
    | inl c ↦ rw other (inl c)
    | inr (a, b) ↦ rw other (inr (a, ap (◌∷◌ x) b))
  ]
]

pub update_then :
    {A : Type 0} (key : Text) (p : JobRow → Bool) (f : JobRow → JobRow)
    (k : Option JobRecord → Exec Store A)
    → ((s : Store) → (k none s).1 ≡ s)
    → ((j : JobRecord) (s : Store) → (a : A) × ((k (some j) s).0 ≡ ok a))
    → Atomic (update_job key p f >>= k)
update_then key p f k refused done s x e = elim (update_cases key p f s.jobs) [
  | inl (r, a, q, u) ↦
      absurd (cc ((done (f r).job (record s { jobs = update key p f s.jobs })).1, rw u at e))
  | inr (u, v) ↦ rw (u, v) (refused _)
]

module _ (h : Host) (now : ℕ) where
  renew_commit-Atomic :
      (id : Text) (fence : ℕ) (worker : Text) (job : JobRecord)
      → Atomic (renew_commit h now id fence worker job)
  unfolding renew_commit
  renew_commit-Atomic id fence worker job = lift_then (job_bare_key id) _ λ key.
      update_then key (holds fence worker) (renewed_row now (now_plus_ms h now job.budget.lease_ms))
        (λ o. or_lost o >>= λ j. pure (record {
          job = j;
          fence = j.fence;
          lease_until = now_plus_ms h now job.budget.lease_ms;
        }))
        (λ s. refl) (λ j s. (_, refl))

  renew-Atomic :
      (id : Text) (fence : ℕ) (worker : Text) → Atomic (renew_job_lease h now id fence worker)
  unfolding renew_job_lease
  renew-Atomic id fence worker =
      query_then (job_by_key id) _ λ job. renew_commit-Atomic id fence worker job

  checkpoint_commit-Atomic :
      (id : Text) (fence : ℕ) (worker : Text) (body : Json)
      → Atomic (checkpoint_commit now id fence worker body)
  unfolding checkpoint_commit
  checkpoint_commit-Atomic id fence worker body = lift_then (job_bare_key id) _ λ key.
      update_then key (holds fence worker) (saved_row now body) or_lost (λ s. refl)
        (λ j s. (_, refl))

  checkpoint-Atomic :
      (id : Text) (fence : ℕ) (worker : Text) (body : Json)
      → Atomic (checkpoint_job h now id fence worker body)
  unfolding checkpoint_job
  checkpoint-Atomic id fence worker body = lift_then (validate_job_body h body) _ λ u.
      lift_then (refuse_if (not (is_object body)) _) _
        λ v. query_then (job_by_key id) _ λ job. checkpoint_commit-Atomic id fence worker body

  complete_row-Atomic :
      (key : Text) (fence : ℕ) (worker : Text) (result : Json) (tombstone : Text) (job : JobRecord)
      (held : Bool) (y : Error)
      → Atomic (if held then complete_row now key fence worker result tombstone job else fail y)
  unfolding complete_row
  complete_row-Atomic key fence worker result tombstone job true y =
      update_then key (holds fence worker) (completed_row now result tombstone job) or_lost
        (λ s. refl) (λ j s. (_, refl))
  complete_row-Atomic key fence worker result tombstone job false y = λ s x e. refl

  complete_commit-Atomic :
      (id : Text) (fence : ℕ) (worker : Text) (result : Json) (job : JobRecord)
      → Atomic (complete_commit now id fence worker result job)
  unfolding complete_commit
  complete_commit-Atomic id fence worker result job = lift_then (job_bare_key job.id) _ λ own.
      query_then (λ s. inputs_hold s job.scope job.inputs) _
        λ held.
          lift_then (job_bare_key id) _
            λ key. complete_row-Atomic key fence worker result (tomb own) job held _

  complete-Atomic :
      (id : Text) (fence : ℕ) (worker : Text) (result : Json)
      → Atomic (complete_job h now id fence worker result)
  unfolding complete_job
  complete-Atomic id fence worker result = lift_then (validate_job_body h result) _ λ u.
      lift_then (refuse_if (not (is_object result)) _) _
        λ v. query_then (job_by_key id) _ λ job. complete_commit-Atomic id fence worker result job

  fail_commit-Atomic :
      (id : Text) (fence : ℕ) (worker : Text) (error : JobError) (job : JobRecord)
      → Atomic (fail_commit h now id fence worker error job)
  unfolding fail_commit
  fail_commit-Atomic id fence worker error job = lift_then (job_bare_key job.id) _ λ own.
      lift_then (job_bare_key id) _ λ key.
        update_then key (holds fence worker) (failed_row h now error own job) or_lost (λ s. refl)
          (λ j s. (_, refl))

  fail-Atomic :
      (id : Text) (fence : ℕ) (worker : Text) (error : JobError)
      → Atomic (fail_job h now id fence worker error)
  unfolding fail_job
  fail-Atomic id fence worker error =
      query_then (job_by_key id) _ λ job. fail_commit-Atomic id fence worker error job

  insert_job-Atomic :
      (row : JobRow) (held : Bool) (y : Error) → Atomic (if held then insert_job row else fail y)
  unfolding insert_job
  insert_job-Atomic row true y s x e = ground arith
  insert_job-Atomic row false y s x e = refl

  enqueue_commit-Atomic :
      (inputs : List JobInput) (row : JobRow) → Atomic (enqueue_commit inputs row)
  unfolding enqueue_commit
  enqueue_commit-Atomic inputs row =
      query_then (λ s. inputs_hold s row.scope inputs) _ λ held. insert_job-Atomic row held _

  enqueue-Atomic : (key : Text) (req : EnqueueJobRequest) → Atomic (enqueue_job h now key req)
  unfolding enqueue_job
  enqueue-Atomic key req = lift_then (validate_enqueue h req) _ λ u.
      lift_then (Scope.parse req.scope) _ λ path.
        lift_then (job_dedup_key h req path.as_str) _ λ dedup.
          lift_then (job_inputs_value req.inputs) _ λ inputs.
            enqueue_commit-Atomic req.inputs (new_row h now key path.as_str dedup inputs req)

  cancel_commit-Atomic :
      (scope id reason : Text) (job : JobRecord) → Atomic (cancel_commit now scope id reason job)
  unfolding cancel_commit
  cancel_commit-Atomic scope id reason job = lift_then (job_bare_key id) _ λ key.
      lift_then (job_bare_key job.id) _ λ own.
        update_then key (is_live_in scope) (cancelled_row now reason own job) (or_current id)
          (λ s. refl) (λ j s. (_, refl))

  cancel-Atomic : (scope id reason : Text) → Atomic (cancel_job now scope id reason)
  unfolding cancel_job
  cancel-Atomic scope id reason = lift_then (Scope.parse scope) _ λ path.
      query_then (job_by_key id) _ λ job.
        lift_then (check_live path.as_str job) _ λ u. cancel_commit-Atomic path.as_str id reason job

  supersede_commit-Atomic :
      (scope id replacement reason : Text) (job : JobRecord)
      → Atomic (supersede_commit now scope id replacement reason job)
  unfolding supersede_commit
  supersede_commit-Atomic scope id replacement reason job = lift_then (job_bare_key id) _ λ key.
      lift_then (job_bare_key job.id) _ λ own.
        update_then key (is_live_in scope) (superseded_row now replacement reason own job)
          (or_current id) (λ s. refl) (λ j s. (_, refl))

  supersede-Atomic :
      (scope id replacement reason : Text) → Atomic (supersede_job now scope id replacement reason)
  unfolding supersede_job
  supersede-Atomic scope id replacement reason = lift_then (Scope.parse scope) _ λ path.
      query_then (job_by_key id) _ λ job. lift_then (check_live path.as_str job) _ λ u.
        query_then (job_by_key replacement) _ λ other.
          lift_then (refuse_if (not (text_eq other.scope path.as_str)) _) _
            λ v. supersede_commit-Atomic path.as_str id other.id reason job

-- An enqueue, a renewal, a checkpoint, a completion, a failure, a cancellation and a supersession
-- that return an error leave the store as it was.
pub error_writes_nothing :
    (h : Host) (now : ℕ)
    → ((key : Text) (req : EnqueueJobRequest) → Atomic (enqueue_job h now key req))
      × ((id : Text) (fence : ℕ) (worker : Text) → Atomic (renew_job_lease h now id fence worker))
      × ((id : Text) (fence : ℕ) (worker : Text) (body : Json)
          → Atomic (checkpoint_job h now id fence worker body))
      × ((id : Text) (fence : ℕ) (worker : Text) (result : Json)
          → Atomic (complete_job h now id fence worker result))
      × ((id : Text) (fence : ℕ) (worker : Text) (error : JobError)
          → Atomic (fail_job h now id fence worker error))
      × ((scope id reason : Text) → Atomic (cancel_job now scope id reason))
      × ((scope id replacement reason : Text)
          → Atomic (supersede_job now scope id replacement reason))
error_writes_nothing h now = (
  enqueue-Atomic h now,
  renew-Atomic h now,
  checkpoint-Atomic h now,
  complete-Atomic h now,
  fail-Atomic h now,
  cancel-Atomic h now,
  supersede-Atomic h now,
)
