-- ===== src/Jobs/Scenario.antt =====
-- A run of the job journal on concrete data: a job is enqueued, claimed and cancelled.
use nomiso.Prelude.{
  ℕ, ◌≡◌, refl, true, inl, [], ◌∷◌, Option, none, some, arith, ap, subst, sym, false,
}
use nomiso.Prelude.Text.{
  Text, codes, text_eq, trim, trim_matches, is_whitespace, strip_prefix, starts_with, ends_with,
  utf8_len, text_mem, join_with,
}
use nomiso.Errors.{ok}
use nomiso.Host.{Host, now_plus_ms}
use nomiso.Exec.{Exec}
use nomiso.Json.{Json, object, is_object, sorted, end}
use nomiso.Scope.{parse, split, contains_empty_segment, check_segments}
use nomiso.Jobs.{
  JobBudget, EnqueueJobRequest, ClaimJobRequest, JobLease, validate_enqueue, JobError,
  validate_job_body, ListJobsRequest, summarise,
}
use nomiso.Jobs.Journal.{
  JobRow, Store, find, update, job_bare_key, norm_record_id, close_history_with, tomb, job_by_key,
}
use nomiso.Jobs.Inputs.{job_dedup_key, job_inputs_value, inputs_hold}
use nomiso.Jobs.Enqueue.{enqueue_job, enqueue_commit, new_row, slot_taken}
use nomiso.Jobs.Claim.{claim_job, claim_loop, claim_commit, claimed_row, candidates}
use nomiso.Jobs.World.{
  World, IsPlainKey, Reach, here, next, empty_world, after, enqueues, claims, reads, cancels,
}
use nomiso.Prelude.Sort.{sort}
use nomiso.Jobs.Control.{cancel_commit, cancelled_row, cancel_job, check_live}
use nomiso.Jobs.Effects.{
  complete_job, complete_commit, complete_row, completed_row, fail_job, fail_commit, failed_row,
  renew_job_lease, renew_commit, renewed_row, checkpoint_job, checkpoint_commit, saved_row,
}
use nomiso.Jobs.Deduplication.{Accepted}
use nomiso.Jobs.Inspect.{list_jobs}

abbrev pub host : Host
host = record { max_timestamp = 1000000000000000; blake3_hex = λ t. t; json_text = λ v. codes "{}" }

abbrev pub key_a : Text
key_a = codes "a"

abbrev pub budget : JobBudget
budget = record { max_attempts = 3; lease_ms = 1000; retry_backoff_ms = none; deadline_ms = none }

abbrev pub request : EnqueueJobRequest
request = record {
  scope = codes "org/acme";
  kind = codes "index";
  inputs = [];
  composition = none;
  payload = none;
  budget = budget;
  dedup_hint = none;
}

abbrev pub dedup : Text
dedup = codes "nomiso.job-dedup.v0\norg/acme\nindex\n\n{}\n"

unfoldable pub enqueued : JobRow
unfolding new_row norm_record_id trim trim_matches is_whitespace strip_prefix
enqueued = new_row host 5 key_a (codes "org/acme") dedup [] request

abbrev pub world_1 : World
world_1 = after empty_world (enqueue_job host 5 key_a request)

pub enqueue_runs : world_1.store.jobs ≡ enqueued ∷ []
unfolding enqueue_job enqueue_commit validate_enqueue job_dedup_key job_inputs_value inputs_hold
    new_row norm_record_id trim trim_matches is_whitespace strip_prefix slot_taken parse split
    contains_empty_segment check_segments starts_with ends_with utf8_len text_eq sort sorted
    join_with enqueued
enqueue_runs = refl

pub plain_a : IsPlainKey key_a
unfolding job_bare_key norm_record_id trim trim_matches is_whitespace strip_prefix
plain_a = refl

pub enqueued_run : Reach host empty_world world_1
unfolding find
enqueued_run = next here (enqueues 5 key_a request refl plain_a)

pub find-enqueued : find key_a world_1.store.jobs ≡ some enqueued
unfolding find text_eq enqueued
find-enqueued = rw enqueue_runs refl

-- A client reads the job, and worker `w1` claims it.
abbrev pub world_2 : World
world_2 = record world_1 { seen = enqueued.job ∷ [] }

pub read_run : Reach host empty_world world_2
read_run = next enqueued_run (reads key_a enqueued find-enqueued)

abbrev pub first_claim : Exec Store (Option JobLease)
first_claim = claim_commit host 10 (codes "w1") enqueued.job

abbrev pub world_3 : World
world_3 = after world_2 first_claim

pub claim_run : Reach host empty_world world_3
unfolding enqueued
claim_run = next read_run (claims 10 (codes "w1") enqueued.job (inl refl) refl)

abbrev pub claimed : JobRow
claimed = claimed_row 10 (codes "w1") 1000000010 enqueued.job enqueued

pub first_claim_runs : first_claim world_2.store ≡ (
  ok (some (record { job = claimed.job; fence = 1; lease_until = 1000000010 })),
  record world_2.store { jobs = claimed ∷ [] },
)
unfolding claim_commit job_bare_key find update text_eq now_plus_ms norm_record_id trim trim_matches
    is_whitespace strip_prefix enqueued enqueue_job
first_claim_runs = rw enqueue_runs refl

pub find-claimed : find key_a world_3.store.jobs ≡ some claimed
unfolding find text_eq enqueued
find-claimed = rw first_claim_runs refl

-- The job is cancelled, and stays cancelled.
abbrev pub world_4 : World
world_4 = record world_3 { seen = claimed.job ∷ world_3.seen }

abbrev pub world_5 : World
world_5 =
    after world_4 (cancel_commit 40 (codes "org/acme") (codes "a") (codes "no use") claimed.job)

abbrev pub dropped : JobRow
dropped = cancelled_row 40 (codes "no use") key_a claimed.job claimed

pub cancel_run : Reach host empty_world world_5
unfolding job_bare_key trim trim_matches is_whitespace strip_prefix enqueued
cancel_run =
    next (next claim_run (reads key_a claimed find-claimed))
      (cancels 40 (codes "org/acme") (codes "a") (codes "no use") claimed.job (inl refl) refl)

pub find-dropped : find key_a world_5.store.jobs ≡ some dropped
unfolding cancel_commit find update text_eq job_bare_key close_history_with trim trim_matches
    is_whitespace strip_prefix enqueued
find-dropped = rw first_claim_runs refl

-- A worker of `org/acme` that takes kind `index` gets the lease.
abbrev pub worker : ClaimJobRequest
worker = record { worker = codes "w1"; scopes = codes "org/acme" ∷ []; kinds = codes "index" ∷ [] }

abbrev pub store_1 : Store
store_1 = record { jobs = enqueued ∷ []; endpoint = λ kind key. none }

pub world_1_store : world_1.store ≡ store_1
unfolding enqueue_job enqueue_commit validate_enqueue job_dedup_key job_inputs_value inputs_hold
    new_row norm_record_id trim trim_matches is_whitespace strip_prefix slot_taken parse split
    contains_empty_segment check_segments starts_with ends_with utf8_len text_eq sort sorted
    join_with enqueued
world_1_store = refl

abbrev pub lease : JobLease
lease = record { job = claimed.job; fence = 1; lease_until = 1000000010 }

pub worker_claims_store_1 : (claim_job host 10 worker store_1).0 ≡ ok (some lease)
unfolding claim_job claim_loop candidates text_mem trim trim_matches is_whitespace parse starts_with
    ends_with contains_empty_segment check_segments split utf8_len sort claim_commit job_bare_key
    find update text_eq strip_prefix now_plus_ms enqueued
worker_claims_store_1 = refl

pub worker_claims : (claim_job host 10 worker world_1.store).0 ≡ ok (some lease)
worker_claims =
    subst (λ (t : Store). (claim_job host 10 worker t).0 ≡ ok (some lease)) (sym world_1_store)
      worker_claims_store_1

abbrev pub store_2 : Store
store_2 = record { jobs = claimed ∷ []; endpoint = λ kind key. none }

abbrev pub body : Json
body = object end

-- The worker completes its job.
abbrev pub store_3 : Store
store_3 = record store_2 { jobs = completed_row 20 body (tomb key_a) claimed.job claimed ∷ [] }

pub completes_store_2 :
    complete_job host 20 (codes "a") 1 (codes "w1") body store_2
    ≡ (ok (completed_row 20 body (tomb key_a) claimed.job claimed).job, store_3)
unfolding complete_job complete_commit complete_row validate_job_body utf8_len is_object job_by_key
    job_bare_key inputs_hold find update text_eq trim trim_matches is_whitespace strip_prefix
    enqueued
completes_store_2 = refl

-- The worker renews its lease.
abbrev pub store_6 : Store
store_6 = record store_2 {
  jobs = renewed_row 20 (now_plus_ms host 20 budget.lease_ms) claimed ∷ [];
}

abbrev pub renewed : JobLease
renewed = record {
  job = (renewed_row 20 (now_plus_ms host 20 budget.lease_ms) claimed).job;
  fence = 1;
  lease_until = now_plus_ms host 20 budget.lease_ms;
}

pub renews_store_2 :
    renew_job_lease host 20 (codes "a") 1 (codes "w1") store_2 ≡ (ok renewed, store_6)
unfolding renew_job_lease renew_commit job_by_key job_bare_key find update text_eq trim trim_matches
    is_whitespace strip_prefix enqueued
renews_store_2 = refl

-- The worker saves a checkpoint.
abbrev pub store_7 : Store
store_7 = record store_2 { jobs = saved_row 20 body claimed ∷ [] }

pub saves_store_2 :
    checkpoint_job host 20 (codes "a") 1 (codes "w1") body store_2
    ≡ (ok (saved_row 20 body claimed).job, store_7)
unfolding checkpoint_job checkpoint_commit validate_job_body utf8_len is_object job_by_key
    job_bare_key find update text_eq trim trim_matches is_whitespace strip_prefix enqueued
saves_store_2 = refl

-- The job is cancelled while the worker holds it.
abbrev pub store_8 : Store
store_8 = record store_2 { jobs = dropped ∷ [] }

pub cancels_store_2 :
    cancel_job 40 (codes "org/acme") (codes "a") (codes "no use") store_2
    ≡ (ok dropped.job, store_8)
unfolding cancel_job cancel_commit check_live parse split contains_empty_segment check_segments
    starts_with ends_with utf8_len close_history_with job_by_key job_bare_key find update text_eq
    trim trim_matches is_whitespace strip_prefix enqueued
cancels_store_2 = refl

-- The worker fails, and may try again.
abbrev pub timeout : JobError
timeout = record { code = codes "timeout"; message = codes "no answer"; retryable = true }

abbrev pub store_4 : Store
store_4 = record store_2 { jobs = failed_row host 20 timeout key_a claimed.job claimed ∷ [] }

pub fails_store_2 :
    fail_job host 20 (codes "a") 1 (codes "w1") timeout store_2
    ≡ (ok (failed_row host 20 timeout key_a claimed.job claimed).job, store_4)
unfolding fail_job fail_commit job_by_key job_bare_key find update text_eq trim trim_matches
    is_whitespace strip_prefix enqueued
fails_store_2 = refl

-- The request again, against the job that it made.
pub Accepted-again : Accepted host world_1.store request enqueued.scope enqueued.dedup_key
unfolding validate_enqueue parse job_dedup_key job_inputs_value inputs_hold trim trim_matches
    is_whitespace starts_with ends_with contains_empty_segment check_segments split utf8_len sort
    sorted join_with enqueued
Accepted-again = record {
  path = record { as_str = codes "org/acme" };
  inputs = [];
  valid = refl;
  parsed = refl;
  scope_eq = refl;
  keyed = refl;
  stored = refl;
  held = refl;
}

first : Text → ℕ
first [] = 0
first (c ∷ t) = c

apart : (m n : ℕ) → m ≡ 110 → n ≡ 88 → m ≡ n → ⊥
apart m n a b e = omega arith

-- A key that starts with `n` is no tombstone.
pub no_tomb : (k : Text) → enqueued.dedup_key ≡ tomb k → ⊥
unfolding enqueued first
no_tomb k e = apart 110 88 refl refl (ap first e)

pub enqueues_empty :
    enqueue_job host 5 key_a request empty_world.store
    ≡ (ok (record { job = enqueued.job; deduplicated = false }), store_1)
unfolding enqueue_job enqueue_commit validate_enqueue job_dedup_key job_inputs_value inputs_hold
    new_row norm_record_id trim trim_matches is_whitespace strip_prefix slot_taken parse split
    contains_empty_segment check_segments starts_with ends_with utf8_len text_eq sort sorted
    join_with enqueued
enqueues_empty = refl

-- All jobs of the scope.
abbrev pub any_job : ListJobsRequest
any_job = record { scope = codes "org/acme"; state = none; kind = none; limit = none }

pub lists_store_2 : list_jobs any_job store_2 ≡ ok (summarise claimed.job ∷ [])
unfolding list_jobs parse split contains_empty_segment check_segments starts_with ends_with utf8_len
    trim trim_matches is_whitespace text_eq sort enqueued
lists_store_2 = refl
