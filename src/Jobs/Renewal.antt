-- ===== src/Jobs/Renewal.antt =====
-- What the renewal of a lease and a checkpoint commit.
use nomiso.Prelude.{ℕ, ◌≡◌, refl, ap, sym, ◌∙◌, inl, inr, true, some, Bool-cases}
use nomiso.Prelude.Text.{Text}
use nomiso.Errors.{ok, Result-cases}
use nomiso.Host.{Host, now_plus_ms}
use nomiso.Json.{Json, is_object}
use nomiso.Jobs.{JobLease, JobRecord, validate_job_body, leased}
use nomiso.Jobs.Journal.{JobRow, Store, find, update, job_bare_key, job_by_key, holds}
use nomiso.Jobs.Effects.{
  renew_commit, renew_job_lease, renewed_row, checkpoint_commit, checkpoint_job, saved_row,
}
use nomiso.Jobs.Completion.{by_key, LeasedTo, holds-LeasedTo}
use nomiso.Jobs.Rows.{find-update_self}

-- A renewal under the lease of the row.
pub record Renewed (h : Host) (id : Text) (fence : ℕ) (worker : Text) (now : ℕ) (s s' : Store)
    (l : JobLease) : Type 0 where
  pub key : Text
  pub row : JobRow
  pub named : job_bare_key id ≡ ok key
  pub at_key : find key s.jobs ≡ some row
  pub lease : LeasedTo fence worker row
  -- the lease that is returned ends at the budgeted time from now, under the same fence
  pub ends : l.lease_until ≡ now_plus_ms h now row.job.budget.lease_ms
  pub under : l.fence ≡ fence
  pub moved : l.job.lease_until ≡ some (now_plus_ms h now row.job.budget.lease_ms)
  pub same_state : l.job.state ≡ leased
  pub same_owner : l.job.owner ≡ some worker
  pub same_fence : l.job.fence ≡ fence
  -- its job is the job of the row after the call
  pub row_after : JobRow
  pub at_key_after : find key s'.jobs ≡ some row_after
  pub holds_job : row_after.job ≡ l.job
  pub written : s' ≡ record s {
    jobs =
        update key
          (holds fence worker)
          (renewed_row now (now_plus_ms h now row.job.budget.lease_ms))
          s.jobs;
  }
  pub stored :
      find key s'.jobs ≡ some (renewed_row now (now_plus_ms h now row.job.budget.lease_ms) row)
  pub returned : l ≡ record {
    job = (renewed_row now (now_plus_ms h now row.job.budget.lease_ms) row).job;
    fence = row.job.fence;
    lease_until = now_plus_ms h now row.job.budget.lease_ms;
  }

module _ (h : Host) (now : ℕ) (id : Text) (fence : ℕ) (worker : Text) (s s' : Store) (l : JobLease)
    (key : Text) (row : JobRow) (named : job_bare_key id ≡ ok key)
    (at_key : find key s.jobs ≡ some row) where
  renew_commit-Renewed :
      renew_commit h now id fence worker row.job s ≡ (ok l, s')
      → Renewed h id fence worker now s s' l
  unfolding renew_commit
  renew_commit-Renewed e = elim (Bool-cases (holds fence worker row)) [
    | inr q ↦ absurd (cc (rw (named, at_key, q) at e))
    | inl q ↦
        let write = renewed_row now (now_plus_ms h now row.job.budget.lease_ms) in
        let b : record s { jobs = update key (holds fence worker) write s.jobs } ≡ s' =
          cc (rw (named, at_key, q) at e) in
        let returned : l ≡ record {
          job = (write row).job;
          fence = row.job.fence;
          lease_until = now_plus_ms h now row.job.budget.lease_ms;
        } =
          cc (rw (named, at_key, q) at e) in
        let held = holds-LeasedTo fence worker row q in
        let stored : find key s'.jobs ≡ some (write row) =
          ap (λ (t : Store). find key t.jobs) (sym b)
          ∙ (rw q at
              (find-update_self key (holds fence worker) write (λ x. refl) s.jobs row at_key)) in
        record {
          key = key;
          row = row;
          named = named;
          at_key = at_key;
          lease = held;
          ends = ap (λ (x : JobLease). x.lease_until) returned;
          under = ap (λ (x : JobLease). x.fence) returned ∙ held.1;
          moved = ap (λ (x : JobLease). x.job.lease_until) returned;
          same_state = ap (λ (x : JobLease). x.job.state) returned ∙ held.0;
          same_owner = ap (λ (x : JobLease). x.job.owner) returned ∙ held.2;
          same_fence = ap (λ (x : JobLease). x.job.fence) returned ∙ held.1;
          row_after = write row;
          at_key_after = stored;
          holds_job = ap (λ (x : JobLease). x.job) (sym returned);
          written = sym b;
          stored = stored;
          returned = returned;
        }
  ]

-- A renewal that returns a lease was made by the worker that holds the job's lease under this
-- fence. The store changes by this one update, and the lease that it returns ends at the
-- budgeted time from now: its job has this end, is still leased to the worker under this fence, and
-- is the job of the row afterwards.
pub renew_job_lease-Renewed :
    (h : Host) (now : ℕ) (id : Text) (fence : ℕ) (worker : Text) (s s' : Store) (l : JobLease)
    → renew_job_lease h now id fence worker s ≡ (ok l, s')
    → Renewed h id fence worker now s s' l
unfolding renew_job_lease
renew_job_lease-Renewed h now id fence worker s s' l e = elim (Result-cases (job_by_key id s)) [
  | inr (x, c) ↦ absurd (cc (rw c at e))
  | inl (job, c) ↦
      let (key, row, named, at_key, d) = by_key id s job c in
      renew_commit-Renewed h now id fence worker s s' l key row named at_key (rw d (rw c at e))
]

-- A checkpoint under the lease of the row.
pub record Saved (id : Text) (fence : ℕ) (worker : Text) (checkpoint : Json) (now : ℕ)
    (s s' : Store) (j : JobRecord) : Type 0 where
  pub key : Text
  pub row : JobRow
  pub named : job_bare_key id ≡ ok key
  pub at_key : find key s.jobs ≡ some row
  pub is_body : is_object checkpoint ≡ true
  pub lease : LeasedTo fence worker row
  pub in_place : j.checkpoint ≡ some checkpoint
  pub same_state : j.state ≡ leased
  pub same_owner : j.owner ≡ some worker
  pub same_fence : j.fence ≡ fence
  -- the job is the job of the row after the call
  pub row_after : JobRow
  pub at_key_after : find key s'.jobs ≡ some row_after
  pub holds_job : row_after.job ≡ j
  pub written :
      s' ≡ record s { jobs = update key (holds fence worker) (saved_row now checkpoint) s.jobs }
  pub stored : find key s'.jobs ≡ some (saved_row now checkpoint row)
  pub returned : j ≡ (saved_row now checkpoint row).job

module _ (now : ℕ) (id : Text) (fence : ℕ) (worker : Text) (checkpoint : Json) (s s' : Store)
    (j : JobRecord) (key : Text) (row : JobRow) (named : job_bare_key id ≡ ok key)
    (at_key : find key s.jobs ≡ some row) where
  checkpoint_commit-Saved :
      is_object checkpoint ≡ true
      → checkpoint_commit now id fence worker checkpoint s ≡ (ok j, s')
      → Saved id fence worker checkpoint now s s' j
  unfolding checkpoint_commit
  checkpoint_commit-Saved is_body e = elim (Bool-cases (holds fence worker row)) [
    | inr q ↦ absurd (cc (rw (named, at_key, q) at e))
    | inl q ↦
        let write = saved_row now checkpoint in
        let b : record s { jobs = update key (holds fence worker) write s.jobs } ≡ s' =
          cc (rw (named, at_key, q) at e) in
        let a : (write row).job ≡ j = cc (rw (named, at_key, q) at e) in
        let held = holds-LeasedTo fence worker row q in
        let stored : find key s'.jobs ≡ some (write row) =
          ap (λ (t : Store). find key t.jobs) (sym b)
          ∙ (rw q at
              (find-update_self key (holds fence worker) write (λ x. refl) s.jobs row at_key)) in
        record {
          key = key;
          row = row;
          named = named;
          at_key = at_key;
          is_body = is_body;
          lease = held;
          in_place = ap (λ (x : JobRecord). x.checkpoint) (sym a);
          same_state = ap (λ (x : JobRecord). x.state) (sym a) ∙ held.0;
          same_owner = ap (λ (x : JobRecord). x.owner) (sym a) ∙ held.2;
          same_fence = ap (λ (x : JobRecord). x.fence) (sym a) ∙ held.1;
          row_after = write row;
          at_key_after = stored;
          holds_job = a;
          written = sym b;
          stored = stored;
          returned = sym a;
        }
  ]

-- A checkpoint that returns a job is an object that was stored by the worker that holds the job's
-- lease under this fence. The store changes by this one update, and the job that it returns has
-- this checkpoint, is still leased to the worker under this fence, and is the job of the row
-- afterwards.
pub checkpoint_job-Saved :
    (h : Host) (now : ℕ) (id : Text) (fence : ℕ) (worker : Text) (checkpoint : Json) (s s' : Store)
    (j : JobRecord)
    → checkpoint_job h now id fence worker checkpoint s ≡ (ok j, s')
    → Saved id fence worker checkpoint now s s' j
unfolding checkpoint_job
checkpoint_job-Saved h now id fence worker checkpoint s s' j e =
    elim (Result-cases (validate_job_body h checkpoint)) [
      | inr (x, a) ↦ absurd (cc (rw a at e))
      | inl (u, a) ↦ elim (Bool-cases (is_object checkpoint)) [
        | inr b ↦ absurd (cc (rw (a, b) at e))
        | inl b ↦ elim (Result-cases (job_by_key id s)) [
          | inr (x, c) ↦ absurd (cc (rw (a, b, c) at e))
          | inl (job, c) ↦
              let (key, row, named, at_key, d) = by_key id s job c in
              checkpoint_commit-Saved now id fence worker checkpoint s s' j key row named at_key b
                (rw (a, b, c) at e)
        ]
      ]
    ]
