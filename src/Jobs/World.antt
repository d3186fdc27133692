-- ===== src/Jobs/World.antt =====
-- The journal under any interleaving of its clients: a step is a read of a job or one committed
-- statement, and a statement may use a job that its client read at any earlier moment.
use nomiso.Prelude.{ℕ, ◌≡◌, ◌⊎◌, false, List, [], ◌∷◌, ◌++◌, Option, none, some, leb}
use nomiso.Prelude.Text.{Text, codes}
use nomiso.Errors.{ok}
use nomiso.Exec.{Exec}
use nomiso.Host.{Host}
use nomiso.Json.{Json}
use nomiso.Endpoints.{EndpointKind}
use nomiso.Jobs.{JobRecord, JobError, EnqueueJobRequest}
use nomiso.Jobs.Journal.{Store, Endpoint, JobRow, find, job_bare_key, norm_record_id}
use nomiso.Jobs.Enqueue.{enqueue_job, mark_deadline_expired}
use nomiso.Jobs.Claim.{claim_commit}
use nomiso.Jobs.Effects.{renew_commit, checkpoint_commit, complete_commit, fail_commit}
use nomiso.Jobs.Control.{cancel_commit, supersede_commit}

-- The store, and the jobs that clients have read.
pub record World : Type 0 where
  pub store : Store
  pub seen : List JobRecord

abbrev pub In : JobRecord → List JobRecord → Type 0
In job [] = ⊥
In job (x ∷ xs) = (job ≡ x) ⊎ In job xs

-- A generated record key, which an id renders and gives back.
abbrev pub IsPlainKey : Text → Type 0
IsPlainKey key =
    job_bare_key (norm_record_id (codes "nomiso_job:" ++ key) (codes "nomiso_job")) ≡ ok key

-- The id that a call names is the id of the job that the call read.
abbrev pub SameJob : Text → JobRecord → Type 0
SameJob id job = job_bare_key id ≡ job_bare_key job.id

abbrev pub after : {A : Type 0} → World → Exec Store A → World
after w m = record w { store = (m w.store).1 }

pub data Step (h : Host) (w : World) : World → Type 0 where
  reads :
      (key : Text) (r : JobRow)
      → find key w.store.jobs ≡ some r
      → Step h w (record w { seen = r.job ∷ w.seen })
  enqueues :
      (now : ℕ) (key : Text) (req : EnqueueJobRequest)
      → find key w.store.jobs ≡ none
      → IsPlainKey key
      → Step h w (after w (enqueue_job h now key req))
  sweeps :
      (now : ℕ) (job : JobRecord)
      → In job w.seen
      → Step h w (after w (mark_deadline_expired now job))
  -- the loop of `claim_job` skips a job whose attempts are used up
  claims :
      (now : ℕ) (worker : Text) (job : JobRecord)
      → In job w.seen
      → leb job.budget.max_attempts job.attempts ≡ false
      → Step h w (after w (claim_commit h now worker job))
  renews :
      (now : ℕ) (id : Text) (fence : ℕ) (worker : Text) (job : JobRecord)
      → Step h w (after w (renew_commit h now id fence worker job))
  checkpoints :
      (now : ℕ) (id : Text) (fence : ℕ) (worker : Text) (body : Json)
      → Step h w (after w (checkpoint_commit now id fence worker body))
  completes :
      (now : ℕ) (id : Text) (fence : ℕ) (worker : Text) (result : Json) (job : JobRecord)
      → In job w.seen
      → SameJob id job
      → Step h w (after w (complete_commit now id fence worker result job))
  fails :
      (now : ℕ) (id : Text) (fence : ℕ) (worker : Text) (error : JobError) (job : JobRecord)
      → In job w.seen
      → SameJob id job
      → Step h w (after w (fail_commit h now id fence worker error job))
  cancels :
      (now : ℕ) (scope id reason : Text) (job : JobRecord)
      → In job w.seen
      → SameJob id job
      → Step h w (after w (cancel_commit now scope id reason job))
  supersedes :
      (now : ℕ) (scope id replacement reason : Text) (job : JobRecord)
      → In job w.seen
      → SameJob id job
      → Step h w (after w (supersede_commit now scope id replacement reason job))
  -- writes to memories, entities, artifacts and spans
  moves :
      (endpoint : EndpointKind → Text → Option Endpoint)
      → Step h w (record w { store = record w.store { endpoint = endpoint } })

pub data Reach (h : Host) (w : World) : World → Type 0 where
  here : Reach h w w
  next : {u v : World} → Reach h w u → Step h u v → Reach h w v

abbrev pub empty_world : World
empty_world = record { store = record { jobs = []; endpoint = λ kind key. none }; seen = [] }
