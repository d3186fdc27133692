-- ===== src/Jobs/Methods.antt =====
-- Every method of the journal, called on a reachable journal, is a run of the interleaving steps.
use nomiso.Prelude.{
  ℕ, ◌≡◌, refl, sym, ◌∙◌, ap, subst, ◌∷◌, Option, none, some, inl, inr, Bool-cases, map, is_empty,
  ◌||◌,
}
use nomiso.Prelude.Text.{Text, trim, text_eq}
use nomiso.Errors.{ok, Result-cases, traverse}
use nomiso.Host.{Host}
use nomiso.Json.{Json, is_object}
use nomiso.Scope
use nomiso.Scope.{ScopePath}
use nomiso.Jobs.{JobRecord, JobError, ClaimJobRequest, validate_job_body}
use nomiso.Jobs.Journal.{JobRow, Store, find, job_bare_key, job_by_key, found}
use nomiso.Jobs.Claim.{candidates, claim_job}
use nomiso.Jobs.Effects.{
  renew_job_lease, renew_commit, checkpoint_job, checkpoint_commit, complete_job, complete_commit,
  fail_job, fail_commit,
}
use nomiso.Jobs.Control.{cancel_job, cancel_commit, supersede_job, supersede_commit, check_live}
use nomiso.Jobs.World.{
  World, Reach, reads, enqueues, renews, checkpoints, completes, fails, cancels, supersedes, here,
  next, empty_world, after, SameJob,
}
use nomiso.Jobs.Rows.{find-key, All-find, RowOk}
use nomiso.Jobs.Invariant.{Inv}
use nomiso.Jobs.Steps.{run-Inv}
use nomiso.Jobs.ClaimLoop.{Reach-trans}
use nomiso.Jobs.Grants.{scan-Reach}
use nomiso.Jobs.Calls.{
  Call, perform, FreshKey, Runs, claim_loop-Runs, stay, enqueue, claim, renew, checkpoint, complete,
  fail, cancel, supersede,
}
use nomiso.Jobs.Enqueue.{enqueue_job}

-- A read of a job by id is a step, after which the job is the one that the id names.
record Read (h : Host) (w : World) (id : Text) (job : JobRecord) : Type 0 where
  key : Text
  row : JobRow
  named : job_bare_key id ≡ ok key
  at_key : find key w.store.jobs ≡ some row
  job_eq : row.job ≡ job
  same : SameJob id job

found-eq_ok :
    (o : Option JobRow) {job : JobRecord}
    → found o ≡ ok job
    → (r : JobRow) × (o ≡ some r) × (r.job ≡ job)
found-eq_ok none e = absurd (cc e)
found-eq_ok (some r) e = (r, refl, cc)

by_key :
    (id : Text) (s : Store) (job : JobRecord)
    → job_by_key id s ≡ ok job
    → (key : Text) × (job_bare_key id ≡ ok key) × (found (find key s.jobs) ≡ ok job)
unfolding job_by_key
by_key id s job e = elim (Result-cases (job_bare_key id)) [
  | inl (key, n) ↦ (key, n, rw n at e)
  | inr (x, n) ↦ absurd (cc (rw n at e))
]

read :
    (h : Host) (w : World) (id : Text) (job : JobRecord)
    → Inv w
    → job_by_key id w.store ≡ ok job
    → Read h w id job
read h w id job v e =
    let (key, n, f) = by_key id w.store job e in
    let (r, a, j) = found-eq_ok (find key w.store.jobs) f in
    let k = find-key key w.store.jobs r a in
    record {
      key = key;
      row = r;
      named = n;
      at_key = a;
      job_eq = j;
      same =
          n
          ∙ sym (
              ap (λ (x : JobRecord). job_bare_key x.id) (sym j)
              ∙ (All-find RowOk key w.store.jobs r v.rows a).named
              ∙ ap ok k);
    }

-- After the read.
abbrev having_read : World → JobRecord → World
having_read w job = record w { seen = job ∷ w.seen }

Read-Reach :
    (h : Host) (w : World) (id : Text) (job : JobRecord)
    → Read h w id job
    → Reach h w (having_read w job)
Read-Reach h w id job d =
    subst (λ j. Reach h w (having_read w j)) d.job_eq (next here (reads d.key d.row d.at_key))

module _ (h : Host) (w : World) (now : ℕ) (v : Inv w) where
  renew-Runs :
      (id : Text) (fence : ℕ) (worker : Text)
      → Runs h w (renew_job_lease h now id fence worker w.store).1
  unfolding renew_job_lease
  renew-Runs id fence worker = elim (Result-cases (job_by_key id w.store)) [
    | inr (x, e) ↦ rw e (stay h w)
    | inl (job, e) ↦ rw e (
      after w (renew_commit h now id fence worker job),
      next here (renews now id fence worker job),
      refl,
    )
  ]

  checkpoint-Runs :
      (id : Text) (fence : ℕ) (worker : Text) (body : Json)
      → Runs h w (checkpoint_job h now id fence worker body w.store).1
  unfolding checkpoint_job
  checkpoint-Runs id fence worker body = elim (Result-cases (validate_job_body h body)) [
    | inr (x, a) ↦ rw a (stay h w)
    | inl (u, a) ↦ elim (Bool-cases (is_object body)) [
      | inr b ↦ rw (a, b) (stay h w)
      | inl b ↦ elim (Result-cases (job_by_key id w.store)) [
        | inr (x, e) ↦ rw (a, b, e) (stay h w)
        | inl (job, e) ↦
            rw (a, b, e)
              (
                after w (checkpoint_commit now id fence worker body),
                next here (checkpoints now id fence worker body),
                refl,
              )
      ]
    ]
  ]

  complete-Runs :
      (id : Text) (fence : ℕ) (worker : Text) (result : Json)
      → Runs h w (complete_job h now id fence worker result w.store).1
  unfolding complete_job
  complete-Runs id fence worker result = elim (Result-cases (validate_job_body h result)) [
    | inr (x, a) ↦ rw a (stay h w)
    | inl (u, a) ↦ elim (Bool-cases (is_object result)) [
      | inr b ↦ rw (a, b) (stay h w)
      | inl b ↦ elim (Result-cases (job_by_key id w.store)) [
        | inr (x, e) ↦ rw (a, b, e) (stay h w)
        | inl (job, e) ↦
            let d = read h w id job v e in
            rw (a, b, e)
              (
                after (having_read w job) (complete_commit now id fence worker result job),
                next (Read-Reach h w id job d)
                    (completes now id fence worker result job (inl refl) d.same),
                refl,
              )
      ]
    ]
  ]

  cancel-Runs : (scope id reason : Text) → Runs h w (cancel_job now scope id reason w.store).1
  unfolding cancel_job
  cancel-Runs scope id reason = elim (Result-cases (Scope.parse scope)) [
    | inr (x, a) ↦ rw a (stay h w)
    | inl (path, a) ↦ elim (Result-cases (job_by_key id w.store)) [
      | inr (x, e) ↦ rw (a, e) (stay h w)
      | inl (job, e) ↦ elim (Result-cases (check_live path.as_str job)) [
        | inr (x, b) ↦ rw (a, e, b) (stay h w)
        | inl (u, b) ↦
            let d = read h w id job v e in
            rw (a, e, b)
              (
                after (having_read w job) (cancel_commit now path.as_str id reason job),
                next (Read-Reach h w id job d)
                    (cancels now path.as_str id reason job (inl refl) d.same),
                refl,
              )
      ]
    ]
  ]

  supersede-Runs :
      (scope id replacement_id reason : Text)
      → Runs h w (supersede_job now scope id replacement_id reason w.store).1
  unfolding supersede_job
  supersede-Runs scope id replacement_id reason = elim (Result-cases (Scope.parse scope)) [
    | inr (x, a) ↦ rw a (stay h w)
    | inl (path, a) ↦ elim (Result-cases (job_by_key id w.store)) [
      | inr (x, e) ↦ rw (a, e) (stay h w)
      | inl (job, e) ↦ elim (Result-cases (check_live path.as_str job)) [
        | inr (x, b) ↦ rw (a, e, b) (stay h w)
        | inl (u, b) ↦ elim (Result-cases (job_by_key replacement_id w.store)) [
          | inr (x, c) ↦ rw (a, e, b, c) (stay h w)
          | inl (other, c) ↦ elim (Bool-cases (text_eq other.scope path.as_str)) [
            | inr q ↦ rw (a, e, b, c, q) (stay h w)
            | inl q ↦
                let d = read h w id job v e in
                rw (a, e, b, c, q)
                  (
                    after (having_read w job)
                        (supersede_commit now path.as_str id other.id reason job),
                    next (Read-Reach h w id job d)
                        (supersedes now path.as_str id other.id reason job (inl refl) d.same),
                    refl,
                  )
          ]
        ]
      ]
    ]
  ]

  fail-Runs :
      (id : Text) (fence : ℕ) (worker : Text) (error : JobError)
      → Runs h w (fail_job h now id fence worker error w.store).1
  unfolding fail_job
  fail-Runs id fence worker error = elim (Result-cases (job_by_key id w.store)) [
    | inr (x, e) ↦ rw e (stay h w)
    | inl (job, e) ↦
        let d = read h w id job v e in
        rw e (
          after (having_read w job) (fail_commit h now id fence worker error job),
          next (Read-Reach h w id job d) (fails now id fence worker error job (inl refl) d.same),
          refl,
        )
  ]

  claim-Runs : (req : ClaimJobRequest) → Runs h w (claim_job h now req w.store).1
  unfolding claim_job
  claim-Runs req =
      elim (Bool-cases
        (is_empty (trim req.worker) || (is_empty req.scopes || is_empty req.kinds))) [
          | inl b ↦ rw b (stay h w)
          | inr b ↦ elim (Result-cases (traverse Scope.parse req.scopes)) [
            | inr (x, a) ↦ rw (b, a) (stay h w)
            | inl (paths, a) ↦
                let (seen, run, all_seen) =
                  scan-Reach h w now (map (λ (p : ScopePath). p.as_str) paths) req.kinds v in
                let u : World = record w { seen = seen } in
                let (z, q, d) =
                  claim_loop-Runs h now (trim req.worker)
                    (candidates now (map (λ (p : ScopePath). p.as_str) paths) req.kinds
                      w.store.jobs)
                    u all_seen in
                rw (b, a) (z, Reach-trans h run q, d)
          ]
        ]

-- From any reachable journal, whatever a method call does to the store is a run of the
-- interleaving steps (for an enqueue: if the generated key is plain and new), so what holds of
-- every run holds of every sequence of calls.
pub perform-Runs :
    (h : Host) (w : World) (now : ℕ) (call : Call)
    → Reach h empty_world w
    → FreshKey w.store call
    → Runs h w (perform h now call w.store)
unfolding perform
perform-Runs h w now (enqueue key req) start fresh =
    (after w (enqueue_job h now key req), next here (enqueues now key req fresh.0 fresh.1), refl)
perform-Runs h w now (claim req) start fresh = claim-Runs h w now (run-Inv h w start) req
perform-Runs h w now (renew id fence worker) start fresh =
    renew-Runs h w now (run-Inv h w start) id fence worker
perform-Runs h w now (checkpoint id fence worker body) start fresh =
    checkpoint-Runs h w now (run-Inv h w start) id fence worker body
perform-Runs h w now (complete id fence worker result) start fresh =
    complete-Runs h w now (run-Inv h w start) id fence worker result
perform-Runs h w now (fail id fence worker error) start fresh =
    fail-Runs h w now (run-Inv h w start) id fence worker error
perform-Runs h w now (cancel scope id reason) start fresh =
    cancel-Runs h w now (run-Inv h w start) scope id reason
perform-Runs h w now (supersede scope id replacement reason) start fresh =
    supersede-Runs h w now (run-Inv h w start) scope id replacement reason
