-- ===== src/Jobs/Calls.antt =====
-- The public methods of the journal as calls, each of which is a run of the interleaving steps.
use nomiso.Prelude.{
  ℕ, ◌≡◌, refl, sym, ◌∙◌, true, false, List, [], ◌∷◌, none, leb, inl, inr, ◌⊎◌, Bool-cases,
  Option-cases,
}
use nomiso.Prelude.Text.{Text}
use nomiso.Errors.{Result-cases}
use nomiso.Host.{Host}
use nomiso.Json.{Json}
use nomiso.Jobs.{JobRecord, JobError, ClaimJobRequest, EnqueueJobRequest}
use nomiso.Jobs.Journal.{Store, find}
use nomiso.Jobs.Enqueue.{enqueue_job, mark_deadline_expired}
use nomiso.Jobs.Claim.{claim_commit, claim_loop, claim_job, past_deadline}
use nomiso.Jobs.Effects.{renew_job_lease, checkpoint_job, complete_job, fail_job}
use nomiso.Jobs.Control.{cancel_job, supersede_job}
use nomiso.Jobs.World.{World, Reach, claims, sweeps, here, next, after, IsPlainKey}
use nomiso.Jobs.ClaimLoop.{AllSeen, Reach-trans}

pub data Call : Type 0 where
  enqueue : Text → EnqueueJobRequest → Call
  claim : ClaimJobRequest → Call
  renew : Text → ℕ → Text → Call
  checkpoint : Text → ℕ → Text → Json → Call
  complete : Text → ℕ → Text → Json → Call
  fail : Text → ℕ → Text → JobError → Call
  cancel : Text → Text → Text → Call
  supersede : Text → Text → Text → Text → Call

-- The store after a call. The key of an inserted row comes with the call.
unfoldable pub perform : Host → ℕ → Call → Store → Store
perform h now (enqueue key req) s = (enqueue_job h now key req s).1
perform h now (claim req) s = (claim_job h now req s).1
perform h now (renew id fence worker) s = (renew_job_lease h now id fence worker s).1
perform h now (checkpoint id fence worker body) s = (checkpoint_job h now id fence worker body s).1
perform h now (complete id fence worker result) s = (complete_job h now id fence worker result s).1
perform h now (fail id fence worker error) s = (fail_job h now id fence worker error s).1
perform h now (cancel scope id reason) s = (cancel_job now scope id reason s).1
perform h now (supersede scope id replacement reason) s =
    (supersede_job now scope id replacement reason s).1

-- A generated key is plain and new.
abbrev pub FreshKey : Store → Call → Type 0
FreshKey s (enqueue key req) = (find key s.jobs ≡ none) × IsPlainKey key
FreshKey s _ = Unit

-- A run to a store.
abbrev pub Runs : Host → World → Store → Type 0
Runs h w s = (u : World) × Reach h w u × (u.store ≡ s)

pub stay : (h : Host) (w : World) → Runs h w w.store
stay h w = (w, here, refl)

module _ (h : Host) (now : ℕ) (worker : Text) (job : JobRecord) (rest : List JobRecord)
    (s : Store) where
  swept_store :
      past_deadline now job ≡ true
      → ((claim_loop h now worker (job ∷ rest) s).1 ≡ (mark_deadline_expired now job s).1)
        ⊎ ((claim_loop h now worker (job ∷ rest) s).1
            ≡ (claim_loop h now worker rest (mark_deadline_expired now job s).1).1)
  unfolding claim_loop
  swept_store p = elim (Result-cases (mark_deadline_expired now job s).0) [
    | inl (u, e) ↦ inr (rw (p, e))
    | inr (x, e) ↦ inl (rw (p, e))
  ]

  skipped_store :
      past_deadline now job ≡ false
      → leb job.budget.max_attempts job.attempts ≡ true
      → (claim_loop h now worker (job ∷ rest) s).1 ≡ (claim_loop h now worker rest s).1
  unfolding claim_loop
  skipped_store p q = rw (p, q)

  tried_store :
      past_deadline now job ≡ false
      → leb job.budget.max_attempts job.attempts ≡ false
      → ((claim_loop h now worker (job ∷ rest) s).1 ≡ (claim_commit h now worker job s).1)
        ⊎ ((claim_loop h now worker (job ∷ rest) s).1
            ≡ (claim_loop h now worker rest (claim_commit h now worker job s).1).1)
  unfolding claim_loop
  tried_store p q = elim (Result-cases (claim_commit h now worker job s).0) [
    | inr (x, e) ↦ inl (rw (p, q, e))
    | inl (o, e) ↦ elim (Option-cases o) [
      | inl d ↦ inr (rw (p, q, e, d))
      | inr (l, d) ↦ inl (rw (p, q, e, d))
    ]
  ]

Runs-after :
    (h : Host) (w u : World) (s t : Store)
    → Reach h w u
    → (s ≡ u.store) ⊎ (s ≡ t)
    → Runs h u t
    → Runs h w s
Runs-after h w u s t r (inl e) k = (u, r, sym e)
Runs-after h w u s t r (inr e) (v, q, d) = (v, Reach-trans h r q, d ∙ sym e)

pub claim_loop-Runs :
    (h : Host) (now : ℕ) (worker : Text) (jobs : List JobRecord) (w : World)
    → AllSeen w jobs
    → Runs h w (claim_loop h now worker jobs w.store).1
claim_loop-Runs h now worker [] w seen = unfold claim_loop in stay h w
claim_loop-Runs h now worker (job ∷ rest) w seen = elim (Bool-cases (past_deadline now job)) [
  | inl p ↦
      let u = after w (mark_deadline_expired now job) in
      Runs-after h w u _ _ (next here (sweeps now job seen.0))
        (swept_store h now worker job rest w.store p) (claim_loop-Runs h now worker rest u seen.1)
  | inr p ↦ elim (Bool-cases (leb job.budget.max_attempts job.attempts)) [
    | inl q ↦
        Runs-after h w w _ _ here (inr (skipped_store h now worker job rest w.store p q))
          (claim_loop-Runs h now worker rest w seen.1)
    | inr q ↦
        let u = after w (claim_commit h now worker job) in
        Runs-after h w u _ _ (next here (claims now worker job seen.0 q))
          (tried_store h now worker job rest w.store p q)
          (claim_loop-Runs h now worker rest u seen.1)
  ]
]
