-- ===== src/Jobs/Fencing.antt =====
-- Fencing: a worker whose lease was taken over can commit nothing.
use nomiso.Prelude.{
  ℕ, ◌≡◌, ap, Bool, false, List, [], ◌∷◌, none, some, arith, inl, inr, Bool-cases, ◌<◌,
}
use nomiso.Prelude.Text.{Text, text_eq}
use nomiso.Errors.{ok, err, lease_lost, Error, stale_input, Result-cases}
use nomiso.Host.{Host, now_plus_ms}
use nomiso.Json.{Json}
use nomiso.Jobs.{JobRecord, JobError}
use nomiso.Jobs.Journal.{JobRow, Store, find, update, updated, holds, job_bare_key, tomb}
use nomiso.Jobs.Effects.{
  renew_commit, checkpoint_commit, complete_commit, fail_commit, renewed_row, saved_row, failed_row,
  completed_row,
}
use nomiso.Jobs.Inputs.{inputs_hold}
use nomiso.Jobs.World.{World, Reach, empty_world}
use nomiso.Jobs.Steps.{Reach-EvolvesAll, run-Inv}

-- A statement whose condition fails on its row writes nothing and returns no row.
pub update_refused :
    (key : Text) (p : JobRow → Bool) (f : JobRow → JobRow) (rows : List JobRow) (r : JobRow)
    → find key rows ≡ some r
    → p r ≡ false
    → (update key p f rows ≡ rows) × (updated p f (find key rows) ≡ none)
unfolding find update
update_refused key p f [] r e q = absurd (cc)
update_refused key p f (x ∷ rows) r e q = elim (Bool-cases (text_eq x.key key)) [
  | inl same ↦ ground arith
  | inr other ↦
      let (a, b) = update_refused key p f rows r (rw other at e) q in rw other (ap (◌∷◌ x) a, b)
]

-- Every effect under a fence that is not the row's is refused, and the store stays.
abbrev pub Refused : Host → Store → ℕ → Text → ℕ → Text → Type 0
Refused h s now id fence worker =
    ((job : JobRecord)
      → renew_commit h now id fence worker job s
        ≡ (err (lease_lost "job is not leased to worker under fence"), s))
    × ((body : Json)
        → checkpoint_commit now id fence worker body s
          ≡ (err (lease_lost "job is not leased to worker under fence"), s))
    × ((result : Json) (job : JobRecord)
        → (x : Error) × (complete_commit now id fence worker result job s ≡ (err x, s)))
    × ((error : JobError) (job : JobRecord)
        → (x : Error) × (fail_commit h now id fence worker error job s ≡ (err x, s)))

module _ (h : Host) (s : Store) (now fence : ℕ) (id key worker : Text) (r : JobRow)
    (named : job_bare_key id ≡ ok key) (e : find key s.jobs ≡ some r)
    (q : holds fence worker r ≡ false) where
  renew_refused :
      (job : JobRecord)
      → renew_commit h now id fence worker job s
        ≡ (err (lease_lost "job is not leased to worker under fence"), s)
  unfolding renew_commit
  renew_refused job =
      let (a, b) =
        update_refused key (holds fence worker)
          (renewed_row now (now_plus_ms h now job.budget.lease_ms)) s.jobs r e q in
      rw (named, b, a)

  checkpoint_refused :
      (body : Json)
      → checkpoint_commit now id fence worker body s
        ≡ (err (lease_lost "job is not leased to worker under fence"), s)
  unfolding checkpoint_commit
  checkpoint_refused body =
      let (a, b) = update_refused key (holds fence worker) (saved_row now body) s.jobs r e q in
      rw (named, b, a)

  complete_refused :
      (result : Json) (job : JobRecord)
      → (x : Error) × (complete_commit now id fence worker result job s ≡ (err x, s))
  unfolding complete_commit
  complete_refused result job = elim (Result-cases (job_bare_key job.id)) [
    | inr (x, c) ↦ (x, rw c)
    | inl (own, c) ↦ elim (Result-cases (inputs_hold s job.scope job.inputs)) [
      | inr (x, d) ↦ (x, rw (c, d))
      | inl (held, d) ↦ elim (Bool-cases held) [
        | inr b ↦ (
          stale_input "job inputs no longer satisfy pinned revisions; replan the work",
          rw (c, d, named, b),
        )
        | inl b ↦
            let (f, g) =
              update_refused key (holds fence worker) (completed_row now result (tomb own) job)
                s.jobs r e q in
            (lease_lost "job is not leased to worker under fence", rw (c, d, named, b, g, f))
      ]
    ]
  ]

  pub fail_refused :
      (error : JobError) (job : JobRecord)
      → (x : Error) × (fail_commit h now id fence worker error job s ≡ (err x, s))
  unfolding fail_commit
  fail_refused error job = elim (Result-cases (job_bare_key job.id)) [
    | inr (x, c) ↦ (x, rw c)
    | inl (own, c) ↦
        let (f, g) =
          update_refused key (holds fence worker) (failed_row h now error own job) s.jobs r e q in
        (lease_lost "job is not leased to worker under fence", rw (c, named, g, f))
  ]

  effects-Refused : Refused h s now id fence worker
  effects-Refused = (renew_refused, checkpoint_refused, complete_refused, fail_refused)

stale_holds :
    (fence : ℕ) (worker : Text) (r : JobRow) → fence < r.fence → holds fence worker r ≡ false
stale_holds fence worker r h = ground arith

-- From any reachable journal in which a job's fence has passed `fence`, after any further run: an
-- effect under `fence` returns an error and writes nothing, be it a renewal, a checkpoint, a
-- completion or a failure, by any worker and with any job that it read.
pub stale_fence-Refused :
    (h : Host) (w w' : World) (key : Text) (r : JobRow) (fence : ℕ)
    → Reach h empty_world w
    → find key w.store.jobs ≡ some r
    → fence < r.fence
    → Reach h w w'
    → (now : ℕ) (id worker : Text) → job_bare_key id ≡ ok key
    → Refused h w'.store now id fence worker
stale_fence-Refused h w w' key r fence start e old run now id worker named =
    let (r', e', d) = Reach-EvolvesAll h (run-Inv h w start) run key r e in
    effects-Refused h w'.store now fence id key worker r' named e'
      (stale_holds fence worker r' (omega arith))
