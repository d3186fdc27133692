-- ===== src/Jobs/Leases.antt =====
-- What a granted lease is, and that a job as it was read is leased at most once.
use nomiso.Prelude.{
  ℕ, ◌+◌, ◌<◌, ◌≡◌, refl, ◌∙◌, ap, true, false, none, some, arith, leb, inl, inr, Option-cases,
}
use nomiso.Prelude.Text.{Text}
use nomiso.Errors.{ok, err, Result-cases, Error}
use nomiso.Host.{Host, now_plus_ms}
use nomiso.Jobs.{JobRecord, JobLease}
use nomiso.Jobs.Journal.{JobRow, Store, find, job_bare_key}
use nomiso.Jobs.Claim.{claim_commit, claim_guard, claimed_row}
use nomiso.Jobs.Rows.{find-update_self}
use nomiso.Jobs.Statements.{set_row}
use nomiso.Jobs.World.{World, In, Reach, claims, next, empty_world, after}
use nomiso.Jobs.Steps.{run-Inv, Reach-EvolvesAll}
use nomiso.Jobs.Fencing.{update_refused}

-- A lease comes from one row, which was claimable under the fence that the claimant had read. The
-- row is in the store afterwards as the lease describes it.
pub record Granted (h : Host) (now : ℕ) (worker : Text) (job : JobRecord) (s : Store)
    (lease : JobLease) : Type 0 where
  pub key : Text
  pub row : JobRow
  pub named : job_bare_key job.id ≡ ok key
  pub at_key : find key s.jobs ≡ some row
  pub guarded : claim_guard now job row ≡ true
  pub lease_job :
      lease.job ≡ (claimed_row now worker (now_plus_ms h now job.budget.lease_ms) job row).job
  pub lease_fence : lease.fence ≡ row.fence + 1
  pub lease_end : lease.lease_until ≡ now_plus_ms h now job.budget.lease_ms
  pub stored :
      find key (claim_commit h now worker job s).1.jobs
      ≡ some (claimed_row now worker (now_plus_ms h now job.budget.lease_ms) job row)

module _ (h : Host) (now : ℕ) (worker : Text) (job : JobRecord) (s : Store) where
  claimed : JobRow → JobRow
  claimed = claimed_row now worker (now_plus_ms h now job.budget.lease_ms) job

  claim_commit-store_eq :
      (key : Text)
      → job_bare_key job.id ≡ ok key
      → (claim_commit h now worker job s).1 ≡ set_row s key (claim_guard now job) claimed
  unfolding claim_commit claimed
  claim_commit-store_eq key named = rw named

  granted_row :
      (key : Text) (r : JobRow) (lease : JobLease)
      → job_bare_key job.id ≡ ok key
      → find key s.jobs ≡ some r
      → (claim_commit h now worker job s).0 ≡ ok (some lease)
      → (claim_guard now job r ≡ true)
        × (lease.job ≡ (claimed r).job)
        × (lease.fence ≡ r.fence + 1)
        × (lease.lease_until ≡ now_plus_ms h now job.budget.lease_ms)
  unfolding claim_commit claimed
  granted_row key r lease named e g = ground arith

  no_row :
      (key : Text) (lease : JobLease)
      → job_bare_key job.id ≡ ok key
      → find key s.jobs ≡ none
      → (claim_commit h now worker job s).0 ≡ ok (some lease)
      → ⊥
  unfolding claim_commit
  no_row key lease named e g = ground arith

  bad_id :
      (lease : JobLease) (x : Error)
      → job_bare_key job.id ≡ err x
      → (claim_commit h now worker job s).0 ≡ ok (some lease)
      → ⊥
  unfolding claim_commit
  bad_id lease x named g = ground arith

  pub claim_commit-Granted :
      (lease : JobLease)
      → (claim_commit h now worker job s).0 ≡ ok (some lease)
      → Granted h now worker job s lease
  unfolding claimed
  claim_commit-Granted lease g = elim (Result-cases (job_bare_key job.id)) [
    | inr (x, e) ↦ absurd (bad_id lease x e g)
    | inl (key, named) ↦ elim (Option-cases (find key s.jobs)) [
      | inl e ↦ absurd (no_row key lease named e g)
      | inr (r, e) ↦
          let (guarded, j, f, u) = granted_row key r lease named e g in
          record {
            key = key;
            row = r;
            named = named;
            at_key = e;
            guarded = guarded;
            lease_job = j;
            lease_fence = f;
            lease_end = u;
            stored =
                ap (λ (t : Store). find key t.jobs) (claim_commit-store_eq key named)
                ∙ (rw guarded at
                    (find-update_self key (claim_guard now job) claimed (λ x. refl) s.jobs r e));
          }
    ]
  ]

  pub claim_refused :
      (key : Text) (r : JobRow)
      → job_bare_key job.id ≡ ok key
      → find key s.jobs ≡ some r
      → claim_guard now job r ≡ false
      → claim_commit h now worker job s ≡ (ok none, s)
  unfolding claim_commit claimed
  claim_refused key r named e q =
      let (a, b) = update_refused key (claim_guard now job) claimed s.jobs r e q in rw (named, b, a)

claim_guard-stale :
    (now : ℕ) (job : JobRecord) (r : JobRow) → job.fence < r.fence → claim_guard now job r ≡ false
claim_guard-stale now job r h = ground arith

guard→fence :
    (now : ℕ) (job : JobRecord) (r : JobRow) → claim_guard now job r ≡ true → r.fence ≡ job.fence
guard→fence now job r h = ground arith

-- From any reachable journal: once one claimant has been granted the lease of a job as it was
-- read, then after any further run every claim that rests on the same read returns none and
-- writes nothing, whoever claims and whenever.
pub claimed_once :
    (h : Host) (w w' : World) (now : ℕ) (worker : Text) (job : JobRecord) (lease : JobLease)
    → Reach h empty_world w
    → In job w.seen
    → leb job.budget.max_attempts job.attempts ≡ false
    → (claim_commit h now worker job w.store).0 ≡ ok (some lease)
    → Reach h (after w (claim_commit h now worker job)) w'
    → (now' : ℕ) (worker' : Text) → claim_commit h now' worker' job w'.store ≡ (ok none, w'.store)
claimed_once h w w' now worker job lease start i room g run now' worker' =
    let d = claim_commit-Granted h now worker job w.store lease g in
    let begun : Reach h empty_world (after w (claim_commit h now worker job)) =
      next start (claims now worker job i room) in
    let (r', e', v) = Reach-EvolvesAll h (run-Inv h _ begun) run d.key _ d.stored in
    claim_refused h now' worker' job w'.store d.key r' d.named e' (
      claim_guard-stale now' job r'
        (omega (arith, guard→fence now job d.row d.guarded, v.fence_grows)))
