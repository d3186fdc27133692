-- ===== src/Jobs/Tests.antt =====
-- The theorems on the job journal at concrete runs.
use nomiso.Prelude.{
  ℕ, ◌≡◌, refl, true, inl, List, none, some, arith, map, ◌≤◌, ap, ◌⊎◌, [], ◌∷◌, false, ◌↔◌,
}
use nomiso.Prelude.Text.{
  Text, codes, trim, trim_matches, is_whitespace, strip_prefix, text_leb, join_with, decimal,
}
use nomiso.Errors.{ok, traverse}
use nomiso.Json.{Json, sorted}
use nomiso.Scope
use nomiso.Scope.{parse, split, contains_empty_segment, check_segments, ScopePath}
use nomiso.Jobs.{
  EnqueueJobRequest, leased, JobError, backoff_ms, u64_max, summarise, JobInput, JobState, as_str,
  parse_state,
}
use nomiso.Jobs.Journal.{find, job_bare_key, tomb}
use nomiso.Jobs.Enqueue.{enqueue_job}
use nomiso.Jobs.Claim.{claim_commit}
use nomiso.Jobs.World.{here, empty_world}
use nomiso.Jobs.Steps.{run-Inv, terminal_final}
use nomiso.Jobs.Invariant.{Inv}
use nomiso.Jobs.Leases.{claimed_once}
use nomiso.Jobs.Fencing.{Refused, stale_fence-Refused}
use nomiso.Jobs.Control.{cancel_job, supersede_job}
use nomiso.Jobs.Grants.{claim_job-InGrant, InGrant}
use nomiso.Jobs.Calls.{Runs, perform, claim}
use nomiso.Jobs.Methods.{perform-Runs}
use nomiso.Jobs.Scenario.{
  host, key_a, budget, request, enqueued, world_1, enqueued_run, find-enqueued, world_2, read_run,
  world_3, claim_run, claimed, first_claim_runs, find-claimed, world_5, dropped, cancel_run,
  find-dropped, worker, worker_claims, store_2, body, store_3, completes_store_2, timeout, store_4,
  fails_store_2, Accepted-again, no_tomb, enqueues_empty, store_1, any_job, lists_store_2, store_6,
  store_7, renewed, renews_store_2, saves_store_2, store_8, cancels_store_2,
}
use nomiso.Jobs.Effects.{
  complete_job, completed_row, fail_job, failed_row, renew_job_lease, checkpoint_job, saved_row,
}
use nomiso.Jobs.Deduplication.{enqueue_job-deduplicates}
use nomiso.Jobs.Completion.{Completed, complete_job-Completed}
use nomiso.Jobs.Retry.{Requeued, Finished, fail_job-outcome, backoff_ms_mono}
use nomiso.Jobs.Atomicity.{Atomic, error_writes_nothing}
use nomiso.Jobs.Acceptance.{Enqueued, enqueue_job-Enqueued}
use nomiso.Jobs.Listing.{Listing, list_jobs-Listing}
use nomiso.Endpoints
use nomiso.Endpoints.{memory, bare_key, EndpointKind, parse_kind}
use nomiso.Jobs.Inputs.{job_dedup_key, input_identity, dedup_material, input_bare_key}
use nomiso.Prelude.Sort.{sort}
use nomiso.Jobs.Identity.{job_dedup_key_shuffled}
use mathlib.Core.List.{Permᴰ}
use nomiso.Jobs.Names.{parse_state-eq_some_iff}
use nomiso.Jobs.Renewal.{Renewed, renew_job_lease-Renewed, Saved, checkpoint_job-Saved}
use nomiso.Jobs.Cancellation.{Cancelled, cancel_job-Cancelled}

run-Inv_example : Inv world_3
run-Inv_example = run-Inv host world_3 claim_run

-- A second claimant that read the job before the first claim loses.
claimed_once_example :
    claim_commit host 20 (codes "w2") enqueued.job world_3.store ≡ (ok none, world_3.store)
unfolding enqueued
claimed_once_example =
    claimed_once host world_2 world_3 10 (codes "w1") enqueued.job _ read_run (inl refl) refl
      (ap (λ t. t.0) first_claim_runs) here 20 (codes "w2")

-- Fence 0 is not the fence of the lease.
stale_fence-Refused_example : Refused host world_3.store 30 (codes "a") 0 (codes "w1")
unfolding job_bare_key trim trim_matches is_whitespace strip_prefix enqueued
stale_fence-Refused_example =
    stale_fence-Refused host world_3 world_3 key_a claimed 0 claim_run find-claimed (omega arith)
      here 30 (codes "a") (codes "w1") refl

terminal_final_example : find key_a world_5.store.jobs ≡ some dropped
terminal_final_example =
    terminal_final host world_5 world_5 key_a dropped cancel_run find-dropped refl here

claim_job-InGrant_example :
    (paths : List ScopePath) × (traverse Scope.parse worker.scopes ≡ ok paths)
    × InGrant (map (λ p. p.as_str) paths) worker.kinds claimed.job
    × (claimed.job.state ≡ leased)
    × (claimed.job.owner ≡ some (trim worker.worker))
    × (claimed.job.attempts ≤ claimed.job.budget.max_attempts)
    × (1 ≡ claimed.job.fence)
claim_job-InGrant_example = claim_job-InGrant host world_1 10 worker _ enqueued_run worker_claims

perform-Runs_example : Runs host world_1 (perform host 10 (claim worker) world_1.store)
perform-Runs_example = perform-Runs host world_1 10 (claim worker) enqueued_run tt

complete_job-Completed_example :
    Completed
      (codes "a")
      1
      (codes "w1")
      body
      20
      store_2
      store_3
      (completed_row 20 body (tomb key_a) claimed.job claimed).job
complete_job-Completed_example =
    complete_job-Completed host 20 (codes "a") 1 (codes "w1") body store_2 store_3 _
      completes_store_2

renew_job_lease-Renewed_example : Renewed host (codes "a") 1 (codes "w1") 20 store_2 store_6 renewed
renew_job_lease-Renewed_example =
    renew_job_lease-Renewed host 20 (codes "a") 1 (codes "w1") store_2 store_6 renewed
      renews_store_2

checkpoint_job-Saved_example :
    Saved (codes "a") 1 (codes "w1") body 20 store_2 store_7 (saved_row 20 body claimed).job
checkpoint_job-Saved_example =
    checkpoint_job-Saved host 20 (codes "a") 1 (codes "w1") body store_2 store_7 _ saves_store_2

cancel_job-Cancelled_example :
    Cancelled (codes "org/acme") (codes "a") (codes "no use") 40 store_2 store_8 dropped.job
cancel_job-Cancelled_example =
    cancel_job-Cancelled 40 (codes "org/acme") (codes "a") (codes "no use") store_2 store_8 _
      cancels_store_2

fail_job-outcome_example :
    Requeued host 20 timeout (failed_row host 20 timeout key_a claimed.job claimed).job
    ⊎ Finished 20 timeout (failed_row host 20 timeout key_a claimed.job claimed).job
fail_job-outcome_example =
    fail_job-outcome host 20 (codes "a") 1 (codes "w1") timeout store_2 store_4 _ fails_store_2

backoff_ms_mono_example :
    (backoff_ms budget 9 ≤ backoff_ms budget 12)
    × (backoff_ms budget 12 ≤ u64_max)
    × (8 ≤ 9 → backoff_ms budget 9 ≡ backoff_ms budget 12)
backoff_ms_mono_example = backoff_ms_mono budget 9 12 (omega arith)

enqueue_job-deduplicates_example :
    enqueue_job host 50 (codes "b") request world_1.store
    ≡ (ok (record { job = enqueued.job; deduplicated = true }), world_1.store)
unfolding enqueued
enqueue_job-deduplicates_example =
    enqueue_job-deduplicates host world_1 50 key_a (codes "b") enqueued request no_tomb enqueued_run
      find-enqueued refl Accepted-again

error_writes_nothing_example :
    ((key : Text) (req : EnqueueJobRequest) → Atomic (enqueue_job host 60 key req))
    × ((id : Text) (fence : ℕ) (worker : Text) → Atomic (renew_job_lease host 60 id fence worker))
    × ((id : Text) (fence : ℕ) (worker : Text) (body : Json)
        → Atomic (checkpoint_job host 60 id fence worker body))
    × ((id : Text) (fence : ℕ) (worker : Text) (result : Json)
        → Atomic (complete_job host 60 id fence worker result))
    × ((id : Text) (fence : ℕ) (worker : Text) (error : JobError)
        → Atomic (fail_job host 60 id fence worker error))
    × ((scope id reason : Text) → Atomic (cancel_job 60 scope id reason))
    × ((scope id replacement reason : Text) → Atomic (supersede_job 60 scope id replacement reason))
error_writes_nothing_example = error_writes_nothing host 60

enqueue_job-Enqueued_example :
    Enqueued host 5 key_a request empty_world.store store_1
      (record { job = enqueued.job; deduplicated = false })
enqueue_job-Enqueued_example =
    enqueue_job-Enqueued host 5 key_a request empty_world.store store_1 _ enqueues_empty

list_jobs-Listing_example : Listing any_job store_2 (summarise claimed.job ∷ [])
list_jobs-Listing_example = list_jobs-Listing any_job store_2 _ lists_store_2

-- Two inputs in the other order.
abbrev input_1 : JobInput
input_1 = record { kind = memory; id = codes "m1"; revision = some 1 }

abbrev input_2 : JobInput
input_2 = record { kind = memory; id = codes "m2"; revision = none }

abbrev two_inputs : EnqueueJobRequest
two_inputs = record request { inputs = input_1 ∷ input_2 ∷ [] }

abbrev key_of_two : Text
key_of_two = codes "nomiso.job-dedup.v0\norg/acme\nindex\nmemory:m1:1,memory:m2:0\n{}\n"

keys_two : job_dedup_key host two_inputs (codes "org/acme") ≡ ok key_of_two
unfolding job_dedup_key input_identity dedup_material input_bare_key bare_key trim trim_matches
    is_whitespace strip_prefix sort text_leb join_with decimal sorted
keys_two = refl

job_dedup_key_shuffled_example :
    job_dedup_key host (record two_inputs { inputs = input_2 ∷ input_1 ∷ [] }) (codes "org/acme")
    ≡ ok key_of_two
job_dedup_key_shuffled_example =
    job_dedup_key_shuffled host two_inputs (codes "org/acme") key_of_two (input_2 ∷ input_1 ∷ [])
      keys_two (Permᴰ.swap refl refl)

parse_state-eq_some_iff_example :
    ((x : JobState) → (parse_state (codes "leased") ≡ some x) ↔ (codes "leased" ≡ as_str x))
    × ((k : EndpointKind)
        → (parse_kind (codes "leased") ≡ some k) ↔ (codes "leased" ≡ Endpoints.as_str k))
parse_state-eq_some_iff_example = parse_state-eq_some_iff (codes "leased")
