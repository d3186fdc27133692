-- ===== src/Jobs/Cancellation.antt =====
-- What a cancellation commits.
use nomiso.Prelude.{
  ℕ, none, arith, ◌⊎◌, ◌++◌, ◌≡◌, refl, ap, sym, ◌∙◌, inl, inr, true, false, some, Bool-cases, ◌||◌,
}
use nomiso.Prelude.Text.{Text, codes, text_eq, text_eq_iff}
use nomiso.Errors.{ok, Result-cases}
use nomiso.Scope
use nomiso.Scope.{ScopePath}
use nomiso.Jobs.{
  JobRecord, JobState, pending, leased, succeeded, failed, cancelled, superseded, terminal,
}
use nomiso.Jobs.Journal.{
  JobRow, Store, find, update, job_bare_key, job_by_key, is_live_in, is_pending, is_leased,
}
use nomiso.Jobs.Control.{cancel_commit, cancel_job, cancelled_row, check_live}
use nomiso.Jobs.Completion.{by_key}
use nomiso.Jobs.Rows.{find-update_self}

live_of_open : (x : JobState) → terminal x ≡ false → (is_pending x || is_leased x) ≡ true
live_of_open pending e = refl
live_of_open leased e = refl
live_of_open succeeded e = absurd cc
live_of_open failed e = absurd cc
live_of_open cancelled e = absurd cc
live_of_open superseded e = absurd cc

check_live-is_live :
    (scope : Text) (r : JobRow) → check_live scope r.job ≡ ok tt → is_live_in scope r ≡ true
unfolding check_live
check_live-is_live scope r e = elim (Bool-cases (text_eq r.job.scope scope)) [
  | inr a ↦ absurd (cc (rw a at e))
  | inl a ↦ elim (Bool-cases (terminal r.job.state)) [
    | inl b ↦ absurd (cc (rw (a, b) at e))
    | inr b ↦ rw (a, live_of_open r.job.state b) refl
  ]
]

-- The job waits or is leased, in this scope.
abbrev pub IsLiveIn : Text → JobRow → Type 0
IsLiveIn scope r = ((r.state ≡ pending) ⊎ (r.state ≡ leased)) × (r.scope ≡ scope)

live-state : (x : JobState) → (is_pending x || is_leased x) ≡ true → (x ≡ pending) ⊎ (x ≡ leased)
live-state pending h = inl refl
live-state leased h = inr refl
live-state succeeded h = absurd cc
live-state failed h = absurd cc
live-state cancelled h = absurd cc
live-state superseded h = absurd cc

is_live_in-IsLiveIn : (scope : Text) (r : JobRow) → is_live_in scope r ≡ true → IsLiveIn scope r
is_live_in-IsLiveIn scope r h =
    (live-state r.state (ground arith), ground (arith, text_eq_iff r.scope scope))

-- The cancellation of a live job of the scope.
pub record Cancelled (raw_scope id reason : Text) (now : ℕ) (s s' : Store) (j : JobRecord)
    : Type 0 where
  pub path : ScopePath
  pub key : Text
  pub row : JobRow
  pub own : Text
  pub parsed : Scope.parse raw_scope ≡ ok path
  pub named : job_bare_key id ≡ ok key
  pub at_key : find key s.jobs ≡ some row
  pub own_key : job_bare_key row.job.id ≡ ok own
  pub live : IsLiveIn path.as_str row
  pub state : j.state ≡ cancelled
  pub has_reason : j.terminal_reason ≡ some reason
  pub unowned : j.owner ≡ none
  pub unleased : j.lease_until ≡ none
  pub completed : j.completed_at ≡ some now
  -- the row after the call, with its slot freed
  pub row_after : JobRow
  pub at_key_after : find key s'.jobs ≡ some row_after
  pub holds_job : row_after.job ≡ j
  pub slot_freed : row_after.dedup_slot ≡ codes "X|" ++ own
  pub written : s' ≡ record s {
    jobs = update key (is_live_in path.as_str) (cancelled_row now reason own row.job) s.jobs;
  }
  pub stored : find key s'.jobs ≡ some (cancelled_row now reason own row.job row)
  pub returned : j ≡ (cancelled_row now reason own row.job row).job

module _ (now : ℕ) (raw_scope id reason : Text) (s s' : Store) (j : JobRecord) (path : ScopePath)
    (key : Text) (row : JobRow) (parsed : Scope.parse raw_scope ≡ ok path)
    (named : job_bare_key id ≡ ok key) (at_key : find key s.jobs ≡ some row) where
  cancel_commit-Cancelled :
      is_live_in path.as_str row ≡ true
      → cancel_commit now path.as_str id reason row.job s ≡ (ok j, s')
      → Cancelled raw_scope id reason now s s' j
  unfolding cancel_commit
  cancel_commit-Cancelled live e = elim (Result-cases (job_bare_key row.job.id)) [
    | inr (x, a) ↦ absurd (cc (rw (named, a) at e))
    | inl (own, named_own) ↦
        let write = cancelled_row now reason own row.job in
        let b : record s { jobs = update key (is_live_in path.as_str) write s.jobs } ≡ s' =
          cc (rw (named, named_own, at_key, live) at e) in
        let a : (write row).job ≡ j = cc (rw (named, named_own, at_key, live) at e) in
        let stored : find key s'.jobs ≡ some (write row) =
          ap (λ (t : Store). find key t.jobs) (sym b)
          ∙ (rw live at (
              find-update_self key (is_live_in path.as_str) write (λ x. refl) s.jobs row at_key)) in
        record {
          path = path;
          key = key;
          row = row;
          own = own;
          parsed = parsed;
          named = named;
          at_key = at_key;
          own_key = named_own;
          live = is_live_in-IsLiveIn path.as_str row live;
          state = ap (λ (x : JobRecord). x.state) (sym a);
          has_reason = ap (λ (x : JobRecord). x.terminal_reason) (sym a);
          unowned = ap (λ (x : JobRecord). x.owner) (sym a);
          unleased = ap (λ (x : JobRecord). x.lease_until) (sym a);
          completed = ap (λ (x : JobRecord). x.completed_at) (sym a);
          row_after = write row;
          at_key_after = stored;
          holds_job = a;
          slot_freed = refl;
          written = sym b;
          stored = stored;
          returned = sym a;
        }
  ]

-- A cancellation that returns a job was of a pending or leased job of the caller's scope. The store
-- changes by this one update; the job that it returns is cancelled for the given reason, without an
-- owner or an end of a lease and completed now, and is the job of the row afterwards, which has its
-- deduplication slot freed.
pub cancel_job-Cancelled :
    (now : ℕ) (raw_scope id reason : Text) (s s' : Store) (j : JobRecord)
    → cancel_job now raw_scope id reason s ≡ (ok j, s')
    → Cancelled raw_scope id reason now s s' j
unfolding cancel_job
cancel_job-Cancelled now raw_scope id reason s s' j e =
    elim (Result-cases (Scope.parse raw_scope)) [
      | inr (x, a) ↦ absurd (cc (rw a at e))
      | inl (path, a) ↦ elim (Result-cases (job_by_key id s)) [
        | inr (x, b) ↦ absurd (cc (rw (a, b) at e))
        | inl (job, b) ↦ elim (Result-cases (check_live path.as_str job)) [
          | inr (x, c) ↦ absurd (cc (rw (a, b, c) at e))
          | inl (u, c) ↦
              let (key, row, named, at_key, d) = by_key id s job b in
              cancel_commit-Cancelled now raw_scope id reason s s' j path key row a named at_key
                (check_live-is_live path.as_str row (rw d c)) (rw d (rw (a, b, c) at e))
        ]
      ]
    ]
