-- ===== src/Jobs/Grants.antt =====
-- What `claim_job` leases: only jobs of the worker's grant, within their budget.
use nomiso.Prelude.{
  ℕ, ◌+◌, ◌≤◌, ◌≡◌, refl, sym, subst, Bool, true, false, List, [], ◌∷◌, some, arith, All, All-map,
  All-take, All-filter, All-filter_of, leb, ◌&&◌, inl, inr, filter, take, map, ◌++◌,
}
use nomiso.Prelude.Text.{Text, text_mem, trim}
use nomiso.Prelude.Sort.{sort, All-sort}
use nomiso.Errors.{ok, err, Error, Result-cases, traverse}
use nomiso.Host.{Host, now_plus_ms}
use nomiso.Scope
use nomiso.Scope.{ScopePath}
use nomiso.Jobs.{JobRecord, JobLease, ClaimJobRequest, leased}
use nomiso.Jobs.Journal.{JobRow, Store, find}
use nomiso.Jobs.Claim.{
  claim_guard, claimed_row, claimable, candidates, claim_loop, claim_job, created_before,
}
use nomiso.Jobs.Rows.{Earlier, find_self, RowOk, All-find}
use nomiso.Jobs.Invariant.{Inv, In-All, snapshot_row}
use nomiso.Jobs.World.{World, In, Reach, reads, here, next, empty_world}
use nomiso.Jobs.Steps.{run-Inv}
use nomiso.Jobs.Leases.{claim_commit-Granted}
use nomiso.Jobs.ClaimLoop.{AllSeen, Reach-trans, Won, claim_loop-Won}

abbrev pub InGrant : List Text → List Text → JobRecord → Type 0
InGrant scopes kinds j = (text_mem j.scope scopes ≡ true) × (text_mem j.kind kinds ≡ true)

All-map_job :
    (P : JobRecord → Type 0) (rows : List JobRow)
    → All (λ r. P r.job) rows
    → All P (map (λ r. r.job) rows)
All-map_job P [] h = tt
All-map_job P (r ∷ rows) h = (h.0, All-map_job P rows h.1)

-- The rows of the claim scan.
scanned : ℕ → List Text → List Text → List JobRow → List JobRow
scanned now scopes kinds rows = take 8 (
    sort created_before
      (filter (λ r. (text_mem r.scope scopes && text_mem r.kind kinds) && claimable now r) rows))

scanned_of :
    (P : JobRow → Type 0) (now : ℕ) (scopes kinds : List Text) (rows : List JobRow)
    → All P rows
    → All P (scanned now scopes kinds rows)
unfolding scanned
scanned_of P now scopes kinds rows a = All-take P 8 _ (
    All-sort created_before P _ (
      All-filter_of P (λ r. (text_mem r.scope scopes && text_mem r.kind kinds) && claimable now r)
        rows a))

scanned-InGrant :
    (now : ℕ) (scopes kinds : List Text) (rows : List JobRow)
    → All (λ r. InGrant scopes kinds r.job) (scanned now scopes kinds rows)
unfolding scanned
scanned-InGrant now scopes kinds rows =
    let test : JobRow → Bool =
      λ r. (text_mem r.scope scopes && text_mem r.kind kinds) && claimable now r in
    All-take (λ r. InGrant scopes kinds r.job) 8 _
      (All-sort created_before (λ r. InGrant scopes kinds r.job) _
        (All-map (λ r. test r ≡ true) (λ r. InGrant scopes kinds r.job) (filter test rows)
          (λ r e. ground arith) (All-filter test rows)))

candidates-eq :
    (now : ℕ) (scopes kinds : List Text) (rows : List JobRow)
    → candidates now scopes kinds rows ≡ map (λ r. r.job) (scanned now scopes kinds rows)
unfolding candidates scanned
candidates-eq now scopes kinds rows = refl

-- The scan reads every row that it returns.
abbrev read_rows : World → List JobRow → World
read_rows w rows = record w { seen = map (λ r. r.job) rows ++ w.seen }

reads-All :
    (h : Host) (w : World) (rows : List JobRow)
    → All (λ r. find r.key w.store.jobs ≡ some r) rows
    → Reach h w (read_rows w rows)
reads-All h w [] a = here
reads-All h w (r ∷ rows) a = next (reads-All h w rows a.1) (reads r.key r a.0)

In-append : (j : JobRecord) (xs ys : List JobRecord) → In j xs → In j (xs ++ ys)
In-append j [] ys i = absurd i
In-append j (x ∷ xs) ys (inl e) = inl e
In-append j (x ∷ xs) ys (inr i) = inr (In-append j xs ys i)

All-In :
    (jobs seen : List JobRecord)
    → ((j : JobRecord) → In j jobs → In j seen)
    → All (λ j. In j seen) jobs
All-In [] seen f = tt
All-In (x ∷ jobs) seen f = (f x (inl refl), All-In jobs seen (λ j i. f j (inr i)))

In-of_All :
    (P : JobRecord → Type 0) (jobs : List JobRecord) (j : JobRecord) → All P jobs → In j jobs → P j
In-of_All P [] j a i = absurd i
In-of_All P (x ∷ jobs) j a (inl e) = subst P (sym e) a.0
In-of_All P (x ∷ jobs) j a (inr i) = In-of_All P jobs j a.1 i

won_facts :
    (h : Host) (now : ℕ) (worker : Text) (job : JobRecord) (r : JobRow) (lease : JobLease)
    (scopes kinds : List Text)
    → Earlier job r
    → text_mem job.scope scopes ≡ true
    → text_mem job.kind kinds ≡ true
    → leb job.budget.max_attempts job.attempts ≡ false
    → claim_guard now job r ≡ true
    → lease.job ≡ (claimed_row now worker (now_plus_ms h now job.budget.lease_ms) job r).job
    → lease.fence ≡ r.fence + 1
    → RowOk r
    → InGrant scopes kinds lease.job
      × (lease.job.state ≡ leased)
      × (lease.job.owner ≡ some worker)
      × (lease.job.attempts ≤ lease.job.budget.max_attempts)
      × (lease.fence ≡ lease.job.fence)
won_facts h now worker job r lease scopes kinds e s k room g j f v = ground arith

-- A lease that the loop wins among jobs of the grant.
pub Won-job :
    (h : Host) (now : ℕ) (worker : Text) (w : World) (jobs : List JobRecord) (lease : JobLease)
    (scopes kinds : List Text)
    → Reach h empty_world w
    → AllSeen w jobs
    → All (InGrant scopes kinds) jobs
    → Won h now worker w jobs lease
    → InGrant scopes kinds lease.job
      × (lease.job.state ≡ leased)
      × (lease.job.owner ≡ some worker)
      × (lease.job.attempts ≤ lease.job.budget.max_attempts)
      × (lease.fence ≡ lease.job.fence)
Won-job h now worker w jobs lease scopes kinds start seen grant d =
    let g = claim_commit-Granted h now worker d.job d.world.store lease d.granted in
    let v = run-Inv h d.world (Reach-trans h start d.run) in
    let i : In d.job d.world.seen =
      rw d.seen (In-of_All (λ j. In j w.seen) jobs d.job seen d.among) in
    let (e, _) =
      snapshot_row d.world.store.jobs d.job g.key g.row v.rows
        (In-All d.world.store.jobs d.world.seen d.job v.snapshots i) g.named g.at_key in
    let (s, k) = In-of_All (InGrant scopes kinds) jobs d.job grant d.among in
    won_facts h now worker d.job g.row lease scopes kinds e s k d.room g.guarded g.lease_job
      g.lease_fence (All-find RowOk g.key d.world.store.jobs g.row v.rows g.at_key)

no_paths :
    (h : Host) (now : ℕ) (req : ClaimJobRequest) (s : Store) (lease : JobLease) (x : Error)
    → traverse Scope.parse req.scopes ≡ err x
    → (claim_job h now req s).0 ≡ ok (some lease)
    → ⊥
unfolding claim_job
no_paths h now req s lease x e g = ground arith

loop_of :
    (h : Host) (now : ℕ) (req : ClaimJobRequest) (s : Store) (lease : JobLease)
    (paths : List ScopePath)
    → traverse Scope.parse req.scopes ≡ ok paths
    → (claim_job h now req s).0 ≡ ok (some lease)
    → (claim_loop h now
        (trim req.worker)
        (candidates now (map (λ p. p.as_str) paths) req.kinds s.jobs)
        s).0
      ≡ ok (some lease)
unfolding claim_job
loop_of h now req s lease paths e g = ground arith

-- The claim scan as a run that reads its candidates.
pub scan-Reach :
    (h : Host) (w : World) (now : ℕ) (scopes kinds : List Text)
    → Inv w
    → (seen : List JobRecord) × Reach h w (record w { seen = seen })
      × AllSeen (record w { seen = seen }) (candidates now scopes kinds w.store.jobs)
scan-Reach h w now scopes kinds v =
    let rows = scanned now scopes kinds w.store.jobs in
    let u = read_rows w rows in
    (
      u.seen,
      reads-All h w rows (
          scanned_of (λ r. find r.key w.store.jobs ≡ some r) now scopes kinds w.store.jobs
            (find_self w.store.jobs v.distinct)),
      rw (candidates-eq now scopes kinds w.store.jobs)
          (All-In _ u.seen (λ j i. In-append j _ w.seen i)),
    )

claim_job-loop :
    (h : Host) (now : ℕ) (req : ClaimJobRequest) (s : Store) (lease : JobLease)
    → (claim_job h now req s).0 ≡ ok (some lease)
    → (paths : List ScopePath) × (traverse Scope.parse req.scopes ≡ ok paths)
      × ((claim_loop h now
            (trim req.worker)
            (candidates now (map (λ p. p.as_str) paths) req.kinds s.jobs)
            s).0
          ≡ ok (some lease))
unfolding claim_job
claim_job-loop h now req s lease g = elim (Result-cases (traverse Scope.parse req.scopes)) [
  | inl (paths, e) ↦ (paths, e, loop_of h now req s lease paths e g)
  | inr (x, e) ↦ absurd (no_paths h now req s lease x e g)
]

-- A lease that `claim_job` returns, from any reachable journal, is of a job whose scope is among
-- the worker's parsed scopes and whose kind is on its list; it is leased to the trimmed worker
-- name, within its attempt budget, under the fence that the lease carries.
pub claim_job-InGrant :
    (h : Host) (w : World) (now : ℕ) (req : ClaimJobRequest) (lease : JobLease)
    → Reach h empty_world w
    → (claim_job h now req w.store).0 ≡ ok (some lease)
    → (paths : List ScopePath) × (traverse Scope.parse req.scopes ≡ ok paths)
      × InGrant (map (λ p. p.as_str) paths) req.kinds lease.job
      × (lease.job.state ≡ leased)
      × (lease.job.owner ≡ some (trim req.worker))
      × (lease.job.attempts ≤ lease.job.budget.max_attempts)
      × (lease.fence ≡ lease.job.fence)
claim_job-InGrant h w now req lease start g =
    let (paths, e, loop) = claim_job-loop h now req w.store lease g in
    let scopes : List Text = map (λ p. p.as_str) paths in
    let rows = scanned now scopes req.kinds w.store.jobs in
    let jobs = candidates now scopes req.kinds w.store.jobs in
    let named = candidates-eq now scopes req.kinds w.store.jobs in
    let v = run-Inv h w start in
    let (seen_jobs, scan, seen) = scan-Reach h w now scopes req.kinds v in
    let u : World = record w { seen = seen_jobs } in
    let run = Reach-trans h start scan in
    let grant : All (InGrant scopes req.kinds) jobs = rw named (
      All-map_job (InGrant scopes req.kinds) rows
        (scanned-InGrant now scopes req.kinds w.store.jobs)) in
    let (i, st, o, at, f) =
      Won-job h now (trim req.worker) u jobs lease scopes req.kinds run seen grant
        (claim_loop-Won h now (trim req.worker) jobs u lease seen loop) in
    (paths, e, i, st, o, at, f)
