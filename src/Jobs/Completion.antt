-- ===== src/Jobs/Completion.antt =====
-- What a completion and a failure commit.
use nomiso.Prelude.{
  ℕ, none, Option, arith, All, is_some_and, ◌++◌, ◌≡◌, refl, ap, sym, ◌∙◌, inl, inr, true, some,
  Bool-cases, Option-cases,
}
use nomiso.Prelude.Text.{Text, codes, text_eq, text_eq_iff}
use nomiso.Errors.{ok, Result-cases}
use nomiso.Host.{Host}
use nomiso.Json.{Json, is_object}
use nomiso.Jobs.{
  JobRecord, JobError, validate_job_body, JobState, pending, leased, succeeded, failed, cancelled,
  superseded,
}
use nomiso.Jobs.Pinned.{InPlace, inputs_hold-InPlace}
use nomiso.Jobs.Journal.{
  JobRow, Store, find, update, job_bare_key, job_by_key, tomb, holds, is_leased,
}
use nomiso.Jobs.Inputs.{inputs_hold}
use nomiso.Jobs.Effects.{
  complete_row, complete_commit, complete_job, completed_row, fail_commit, fail_job, failed_row,
}
use nomiso.Jobs.Rows.{find-update_self}

-- The row is leased to this worker under this fence.
abbrev pub LeasedTo : ℕ → Text → JobRow → Type 0
LeasedTo fence worker r = (r.state ≡ leased) × (r.fence ≡ fence) × (r.owner ≡ some worker)

is_leased-leased : (x : JobState) → is_leased x ≡ true → x ≡ leased
is_leased-leased pending h = absurd cc
is_leased-leased leased h = refl
is_leased-leased succeeded h = absurd cc
is_leased-leased failed h = absurd cc
is_leased-leased cancelled h = absurd cc
is_leased-leased superseded h = absurd cc

owner-some :
    (o : Option Text) (worker : Text)
    → is_some_and o (λ owner. text_eq owner worker) ≡ true
    → o ≡ some worker
owner-some none worker h = absurd cc
owner-some (some owner) worker h = ap some ((text_eq_iff owner worker).0 h)

pub holds-LeasedTo :
    (fence : ℕ) (worker : Text) (r : JobRow) → holds fence worker r ≡ true → LeasedTo fence worker r
holds-LeasedTo fence worker r h = (
  is_leased-leased r.state (ground arith),
  ground arith,
  owner-some r.owner worker (ground arith),
)

-- A completion under the lease of the row, with the inputs of the job in place.
pub record Completed (id : Text) (fence : ℕ) (worker : Text) (result : Json) (now : ℕ)
    (s s' : Store) (j : JobRecord) : Type 0 where
  pub key : Text
  pub row : JobRow
  pub own : Text
  pub named : job_bare_key id ≡ ok key
  pub at_key : find key s.jobs ≡ some row
  pub own_key : job_bare_key row.job.id ≡ ok own
  pub lease : LeasedTo fence worker row
  pub inputs : All (InPlace s row.scope) row.inputs
  pub state : j.state ≡ succeeded
  pub has_result : j.result ≡ some result
  pub completed : j.completed_at ≡ some now
  -- the row after the call, with its slot freed
  pub row_after : JobRow
  pub at_key_after : find key s'.jobs ≡ some row_after
  pub holds_job : row_after.job ≡ j
  pub slot_freed : row_after.dedup_slot ≡ codes "X|" ++ own
  pub stored : find key s'.jobs ≡ some (completed_row now result (tomb own) row.job row)
  pub returned : j ≡ (completed_row now result (tomb own) row.job row).job

pub by_key :
    (id : Text) (s : Store) (job : JobRecord)
    → job_by_key id s ≡ ok job
    → (key : Text) × (row : JobRow) × (job_bare_key id ≡ ok key)
      × (find key s.jobs ≡ some row)
      × (row.job ≡ job)
unfolding job_by_key
by_key id s job e = elim (Result-cases (job_bare_key id)) [
  | inr (x, n) ↦ absurd (cc (rw n at e))
  | inl (key, n) ↦ elim (Option-cases (find key s.jobs)) [
    | inl f ↦ absurd (cc (rw (n, f) at e))
    | inr (r, f) ↦ (key, r, n, f, cc (rw (n, f) at e))
  ]
]

module _ (now : ℕ) (id : Text) (fence : ℕ) (worker : Text) (result : Json) (s s' : Store)
    (j : JobRecord) (key : Text) (row : JobRow) (named : job_bare_key id ≡ ok key)
    (at_key : find key s.jobs ≡ some row) where
  complete_row-Completed :
      (own : Text)
      → job_bare_key row.job.id ≡ ok own
      → inputs_hold s row.scope row.inputs ≡ ok true
      → complete_row now key fence worker result (tomb own) row.job s ≡ (ok j, s')
      → Completed id fence worker result now s s' j
  unfolding complete_row
  complete_row-Completed own named_own held e = elim (Bool-cases (holds fence worker row)) [
    | inr q ↦ absurd (cc (rw (at_key, q) at e))
    | inl q ↦
        let a : (completed_row now result (tomb own) row.job row).job ≡ j =
          cc (rw (at_key, q) at e) in
        let b : record s {
          jobs =
              update key (holds fence worker) (completed_row now result (tomb own) row.job) s.jobs;
        }
            ≡ s' =
          cc (rw (at_key, q) at e) in
        let stored : find key s'.jobs ≡ some (completed_row now result (tomb own) row.job row) =
          ap (λ (t : Store). find key t.jobs) (sym b)
          ∙ (rw q at (
              find-update_self key (holds fence worker)
                (completed_row now result (tomb own) row.job) (λ x. refl) s.jobs row at_key)) in
        record {
          key = key;
          row = row;
          own = own;
          named = named;
          at_key = at_key;
          own_key = named_own;
          lease = holds-LeasedTo fence worker row q;
          inputs = inputs_hold-InPlace s row.scope row.inputs held;
          state = ap (λ (x : JobRecord). x.state) (sym a);
          has_result = ap (λ (x : JobRecord). x.result) (sym a);
          completed = ap (λ (x : JobRecord). x.completed_at) (sym a);
          row_after = completed_row now result (tomb own) row.job row;
          at_key_after = stored;
          holds_job = a;
          slot_freed = refl;
          stored = stored;
          returned = sym a;
        }
  ]

  complete_commit-Completed :
      complete_commit now id fence worker result row.job s ≡ (ok j, s')
      → Completed id fence worker result now s s' j
  unfolding complete_commit
  complete_commit-Completed e = elim (Result-cases (job_bare_key row.job.id)) [
    | inr (x, a) ↦ absurd (cc (rw a at e))
    | inl (own, a) ↦ elim (Result-cases (inputs_hold s row.scope row.inputs)) [
      | inr (x, b) ↦ absurd (cc (rw (a, b) at e))
      | inl (held, b) ↦ elim (Bool-cases held) [
        | inr d ↦ absurd (cc (rw (a, b, named, d) at e))
        | inl d ↦ complete_row-Completed own a (b ∙ ap ok d) (rw (a, b, named, d) at e)
      ]
    ]
  ]

-- A completion that returns a job was made by the worker that holds the job's lease under this
-- fence, with every input of the job there, in the job's scope and at its pinned revision if it has
-- versions; the job that it returns is succeeded, with this result and completed now, and is the job
-- of the row afterwards, which has its deduplication slot freed.
pub complete_job-Completed :
    (h : Host) (now : ℕ) (id : Text) (fence : ℕ) (worker : Text) (result : Json) (s s' : Store)
    (j : JobRecord)
    → complete_job h now id fence worker result s ≡ (ok j, s')
    → Completed id fence worker result now s s' j
unfolding complete_job
complete_job-Completed h now id fence worker result s s' j e =
    elim (Result-cases (validate_job_body h result)) [
      | inr (x, a) ↦ absurd (cc (rw a at e))
      | inl (u, a) ↦ elim (Bool-cases (is_object result)) [
        | inr b ↦ absurd (cc (rw (a, b) at e))
        | inl b ↦ elim (Result-cases (job_by_key id s)) [
          | inr (x, c) ↦ absurd (cc (rw (a, b, c) at e))
          | inl (job, c) ↦
              let (key, row, named, at_key, d) = by_key id s job c in
              complete_commit-Completed now id fence worker result s s' j key row named at_key
                (rw d (rw (a, b, c) at e))
        ]
      ]
    ]

-- A failure under the lease of the row.
pub record Failed (h : Host) (id : Text) (fence : ℕ) (worker : Text) (error : JobError) (now : ℕ)
    (s s' : Store) (j : JobRecord) : Type 0 where
  pub key : Text
  pub row : JobRow
  pub own : Text
  pub named : job_bare_key id ≡ ok key
  pub at_key : find key s.jobs ≡ some row
  pub own_key : job_bare_key row.job.id ≡ ok own
  pub lease : holds fence worker row ≡ true
  pub stored : find key s'.jobs ≡ some (failed_row h now error own row.job row)
  pub returned : j ≡ (failed_row h now error own row.job row).job

module _ (h : Host) (now : ℕ) (id : Text) (fence : ℕ) (worker : Text) (error : JobError)
    (s s' : Store) (j : JobRecord) (key : Text) (row : JobRow) (named : job_bare_key id ≡ ok key)
    (at_key : find key s.jobs ≡ some row) where
  fail_commit-Failed :
      fail_commit h now id fence worker error row.job s ≡ (ok j, s')
      → Failed h id fence worker error now s s' j
  unfolding fail_commit
  fail_commit-Failed e = elim (Result-cases (job_bare_key row.job.id)) [
    | inr (x, a) ↦ absurd (cc (rw a at e))
    | inl (own, a) ↦ elim (Bool-cases (holds fence worker row)) [
      | inr q ↦ absurd (cc (rw (a, named, at_key, q) at e))
      | inl q ↦
          let c : (failed_row h now error own row.job row).job ≡ j =
            cc (rw (a, named, at_key, q) at e) in
          let b : record s {
            jobs = update key (holds fence worker) (failed_row h now error own row.job) s.jobs;
          }
              ≡ s' =
            cc (rw (a, named, at_key, q) at e) in
          record {
            key = key;
            row = row;
            own = own;
            named = named;
            at_key = at_key;
            own_key = a;
            lease = q;
            stored =
                ap (λ (t : Store). find key t.jobs) (sym b)
                ∙ (rw q at (
                    find-update_self key (holds fence worker) (failed_row h now error own row.job)
                      (λ x. refl) s.jobs row at_key));
            returned = sym c;
          }
    ]
  ]

pub fail_job-Failed :
    (h : Host) (now : ℕ) (id : Text) (fence : ℕ) (worker : Text) (error : JobError) (s s' : Store)
    (j : JobRecord)
    → fail_job h now id fence worker error s ≡ (ok j, s')
    → Failed h id fence worker error now s s' j
unfolding fail_job
fail_job-Failed h now id fence worker error s s' j e = elim (Result-cases (job_by_key id s)) [
  | inr (x, c) ↦ absurd (cc (rw c at e))
  | inl (job, c) ↦
      let (key, row, named, at_key, d) = by_key id s job c in
      fail_commit-Failed h now id fence worker error s s' j key row named at_key (rw d (rw c at e))
]
