-- ===== src/Jobs/ClaimLoop.antt =====
-- The loop of `claim_job` over its candidates, as a run of journal steps that ends in one grant.
use nomiso.Prelude.{
  ℕ, ◌≡◌, refl, ◌∙◌, ap, true, false, List, [], ◌∷◌, Option, some, arith, All, leb, inl, inr,
  Bool-cases, Option-cases, ◌⊎◌,
}
use nomiso.Prelude.Text.{Text}
use nomiso.Errors.{ok, Result-cases}
use nomiso.Host.{Host}
use nomiso.Jobs.{JobRecord, JobLease}
use nomiso.Jobs.Journal.{Store}
use nomiso.Jobs.Enqueue.{mark_deadline_expired}
use nomiso.Jobs.Claim.{claim_commit, claim_loop, past_deadline}
use nomiso.Jobs.World.{World, In, Reach, claims, sweeps, here, next, after}

-- A job among the candidates won the lease in a journal that the loop reached.
pub record Won (h : Host) (now : ℕ) (worker : Text) (w : World) (jobs : List JobRecord)
    (lease : JobLease) : Type 0 where
  pub world : World
  pub job : JobRecord
  pub run : Reach h w world
  pub seen : world.seen ≡ w.seen
  pub among : In job jobs
  pub in_time : past_deadline now job ≡ false
  pub room : leb job.budget.max_attempts job.attempts ≡ false
  pub granted : (claim_commit h now worker job world.store).0 ≡ ok (some lease)

abbrev pub AllSeen : World → List JobRecord → Type 0
AllSeen w jobs = All (λ j. In j w.seen) jobs

pub Reach-trans : (h : Host) {a b c : World} → Reach h a b → Reach h b c → Reach h a c
Reach-trans h r here = r
Reach-trans h r (next s st) = next (Reach-trans h r s) st

Won-later :
    (h : Host) (now : ℕ) (worker : Text) (w u : World) (x : JobRecord) (jobs : List JobRecord)
    (lease : JobLease)
    → Reach h w u
    → u.seen ≡ w.seen
    → Won h now worker u jobs lease
    → Won h now worker w (x ∷ jobs) lease
Won-later h now worker w u x jobs lease r e d = record {
  world = d.world;
  job = d.job;
  run = Reach-trans h r d.run;
  seen = d.seen ∙ e;
  among = inr d.among;
  in_time = d.in_time;
  room = d.room;
  granted = d.granted;
}

module _ (h : Host) (now : ℕ) (worker : Text) (job : JobRecord) (rest : List JobRecord)
    (s : Store) where
  swept_step :
      past_deadline now job ≡ true
      → {lease : JobLease} → (claim_loop h now worker (job ∷ rest) s).0 ≡ ok (some lease)
      → (claim_loop h now worker rest (mark_deadline_expired now job s).1).0 ≡ ok (some lease)
  unfolding claim_loop
  swept_step p {lease} g = elim (Result-cases (mark_deadline_expired now job s).0) [
    | inl (u, e) ↦ rw (p, e) at g
    | inr (x, e) ↦ absurd (cc (rw (p, e) at g))
  ]

  skipped_step :
      past_deadline now job ≡ false
      → leb job.budget.max_attempts job.attempts ≡ true
      → {lease : JobLease} → (claim_loop h now worker (job ∷ rest) s).0 ≡ ok (some lease)
      → (claim_loop h now worker rest s).0 ≡ ok (some lease)
  unfolding claim_loop
  skipped_step p q {lease} g = rw (p, q) at g

  tried_step :
      past_deadline now job ≡ false
      → leb job.budget.max_attempts job.attempts ≡ false
      → {lease : JobLease} → (claim_loop h now worker (job ∷ rest) s).0 ≡ ok (some lease)
      → ((claim_commit h now worker job s).0 ≡ ok (some lease))
        ⊎ ((claim_loop h now worker rest (claim_commit h now worker job s).1).0 ≡ ok (some lease))
  unfolding claim_loop
  tried_step p q {lease} g = elim (Result-cases (claim_commit h now worker job s).0) [
    | inr (x, e) ↦ absurd (cc (rw (p, q, e) at g))
    | inl (o, e) ↦ elim (Option-cases o) [
      | inl d ↦ inr (rw (p, q, e, d) at g)
      | inr (l, d) ↦ inl (e ∙ ap (λ (x : Option JobLease). ok x) d ∙ (rw (p, q, e, d) at g))
    ]
  ]

no_candidates :
    (h : Host) (now : ℕ) (worker : Text) (s : Store) {lease : JobLease}
    → (claim_loop h now worker [] s).0 ≡ ok (some lease)
    → ⊥
unfolding claim_loop
no_candidates h now worker s g = ground arith

pub claim_loop-Won :
    (h : Host) (now : ℕ) (worker : Text) (jobs : List JobRecord) (w : World) (lease : JobLease)
    → AllSeen w jobs
    → (claim_loop h now worker jobs w.store).0 ≡ ok (some lease)
    → Won h now worker w jobs lease
claim_loop-Won h now worker [] w lease seen g = absurd (no_candidates h now worker w.store g)
claim_loop-Won h now worker (job ∷ rest) w lease seen g =
    elim (Bool-cases (past_deadline now job)) [
      | inl p ↦
          let u = after w (mark_deadline_expired now job) in
          Won-later h now worker w u job rest lease (next here (sweeps now job seen.0)) refl (
            claim_loop-Won h now worker rest u lease seen.1
              (swept_step h now worker job rest w.store p g))
      | inr p ↦ elim (Bool-cases (leb job.budget.max_attempts job.attempts)) [
        | inl q ↦ Won-later h now worker w w job rest lease here refl (
            claim_loop-Won h now worker rest w lease seen.1
              (skipped_step h now worker job rest w.store p q g))
        | inr q ↦ elim (tried_step h now worker job rest w.store p q g) [
          | inl won ↦ record {
            world = w;
            job = job;
            run = here;
            seen = refl;
            among = inl refl;
            in_time = p;
            room = q;
            granted = won;
          }
          | inr lost ↦
              let u = after w (claim_commit h now worker job) in
              Won-later h now worker w u job rest lease (next here (claims now worker job seen.0 q))
                refl (claim_loop-Won h now worker rest u lease seen.1 lost)
        ]
      ]
    ]
