-- ===== src/Jobs/Acceptance.antt =====
-- What an enqueue commits.
use nomiso.Prelude.{
  ℕ, ◌≡◌, ◌≢◌, refl, inl, inr, ◌⊎◌, true, false, List, [], ◌∷◌, ◌++◌, some, none, arith, Bool-cases,
  Option-cases, ap, ◌∙◌, All, ◌&&◌,
}
use nomiso.Prelude.Text.{Text, text_eq, text_eq_iff, trim}
use nomiso.Errors.{ok, Result-cases}
use nomiso.Host.{Host, now_plus_ms}
use nomiso.Scope
use nomiso.Scope.{ScopePath}
use nomiso.Jobs.{
  JobInput, JobRecord, EnqueueJobRequest, EnqueueJobResult, validate_enqueue, pending,
}
use nomiso.Jobs.Journal.{JobRow, Store}
use nomiso.Jobs.Inputs.{job_dedup_key, job_inputs_value, inputs_hold}
use nomiso.Jobs.Pinned.{InPlace, inputs_hold-InPlace}
use nomiso.Jobs.Enqueue.{
  enqueue_job, enqueue_commit, insert_job, replay, new_row, slot_taken, find_live_job,
}

-- A row of the table that holds this slot in this scope.
pub record Holder (scope slot : Text) (rows : List JobRow) (job : JobRecord) : Type 0 where
  pub row : JobRow
  pub before : List JobRow
  pub later : List JobRow
  pub placed : rows ≡ before ++ row ∷ later
  pub same_slot : row.dedup_slot ≡ slot
  pub same_scope : row.scope ≡ scope
  pub holds_job : row.job ≡ job

find_live_job-Holder :
    (scope slot : Text) (rows : List JobRow) (job : JobRecord)
    → find_live_job scope slot rows ≡ some job
    → Holder scope slot rows job
unfolding find_live_job
find_live_job-Holder scope slot [] job h = absurd (cc h)
find_live_job-Holder scope slot (r ∷ rows) job h =
    elim (Bool-cases (text_eq r.dedup_slot slot && text_eq r.scope scope)) [
      | inl q ↦ record {
        row = r;
        before = [];
        later = rows;
        placed = refl;
        same_slot = ground (arith, text_eq_iff r.dedup_slot slot);
        same_scope = ground (arith, text_eq_iff r.scope scope);
        holds_job = cc (rw q at h);
      }
      | inr q ↦
          let d = find_live_job-Holder scope slot rows job (rw q at h) in
          record {
            row = d.row;
            before = r ∷ d.before;
            later = d.later;
            placed = ap (λ xs. r ∷ xs) d.placed;
            same_slot = d.same_slot;
            same_scope = d.same_scope;
            holds_job = d.holds_job;
          }
    ]

slot_taken-free :
    (slot : Text) (rows : List JobRow)
    → slot_taken slot rows ≡ false
    → All (λ r. r.dedup_slot ≢ slot) rows
unfolding slot_taken
slot_taken-free slot [] h = tt
slot_taken-free slot (r ∷ rows) h = (
  λ same. ground (arith, text_eq_iff r.dedup_slot slot),
  slot_taken-free slot rows (ground arith),
)

-- The row of a job that waits for its first claim.
pub record IsNew (h : Host) (now : ℕ) (new_key scope dedup : Text) (inputs : List JobInput)
    (req : EnqueueJobRequest) (row : JobRow) : Type 0 where
  pub at_key : row.key ≡ new_key
  pub holds_slot : row.dedup_slot ≡ dedup
  pub state : row.state ≡ pending
  pub has_kind : row.kind ≡ trim req.kind
  pub has_scope : row.scope ≡ scope
  pub has_dedup : row.dedup_key ≡ dedup
  pub has_inputs : row.inputs ≡ inputs
  pub has_composition : row.composition ≡ req.composition
  pub has_payload : row.payload ≡ req.payload
  pub has_budget : row.budget ≡ req.budget
  pub unclaimed : (row.attempts ≡ 0) × (row.fence ≡ 0) × (row.owner ≡ none)
  pub not_ended : (row.lease_until ≡ none) × (row.result ≡ none) × (row.completed_at ≡ none)
  pub expiry :
      (ms : ℕ) → req.budget.deadline_ms ≡ some ms → row.expires_at ≡ some (now_plus_ms h now ms)
  pub no_expiry : req.budget.deadline_ms ≡ none → row.expires_at ≡ none
  pub created : row.created_at ≡ now

new_row-IsNew :
    (h : Host) (now : ℕ) (new_key scope dedup : Text) (inputs : List JobInput)
    (req : EnqueueJobRequest)
    → IsNew h now new_key scope dedup inputs req (new_row h now new_key scope dedup inputs req)
unfolding new_row
new_row-IsNew h now new_key scope dedup inputs req = record {
  at_key = refl;
  holds_slot = refl;
  state = refl;
  has_kind = refl;
  has_scope = refl;
  has_dedup = refl;
  has_inputs = refl;
  has_composition = refl;
  has_payload = refl;
  has_budget = refl;
  unclaimed = (refl, refl, refl);
  not_ended = (refl, refl, refl);
  expiry = λ ms e. rw e refl;
  no_expiry = λ e. rw e refl;
  created = refl;
}

-- The result of an insert of a row.
pub record Inserted (inputs : List JobInput) (row : JobRow) (s s' : Store)
    (result : EnqueueJobResult) : Type 0 where
  pub in_place : All (InPlace s row.scope) inputs
  pub outcome :
      ((result.deduplicated ≡ true) × Holder row.scope row.dedup_slot s.jobs result.job × (s' ≡ s))
      ⊎ ((result.deduplicated ≡ false)
          × All (λ r. r.dedup_slot ≢ row.dedup_slot) s.jobs
          × (result.job ≡ row.job)
          × (s' ≡ record s { jobs = s.jobs ++ row ∷ [] }))

insert_job-Inserted :
    (inputs : List JobInput) (row : JobRow) (s s' : Store) (result : EnqueueJobResult)
    → inputs_hold s row.scope inputs ≡ ok true
    → insert_job row s ≡ (ok result, s')
    → Inserted inputs row s s' result
unfolding insert_job replay
insert_job-Inserted inputs row s s' result held e =
    elim (Bool-cases (slot_taken row.dedup_slot s.jobs)) [
      | inl q ↦ elim (Option-cases (find_live_job row.scope row.dedup_slot s.jobs)) [
        | inl f ↦ absurd (cc (rw (q, f) at e))
        | inr (job, f) ↦ record {
          in_place = inputs_hold-InPlace s row.scope inputs held;
          outcome = inl (
            cc (rw (q, f) at e),
            find_live_job-Holder row.scope row.dedup_slot s.jobs result.job
                (f ∙ cc (rw (q, f) at e)),
            cc (rw (q, f) at e),
          );
        }
      ]
      | inr q ↦ record {
        in_place = inputs_hold-InPlace s row.scope inputs held;
        outcome = inr (
          cc (rw q at e),
          slot_taken-free row.dedup_slot s.jobs q,
          cc (rw q at e),
          cc (rw q at e),
        );
      }
    ]

enqueue_commit-Inserted :
    (inputs : List JobInput) (row : JobRow) (s s' : Store) (result : EnqueueJobResult)
    → enqueue_commit inputs row s ≡ (ok result, s')
    → Inserted inputs row s s' result
unfolding enqueue_commit
enqueue_commit-Inserted inputs row s s' result e =
    elim (Result-cases (inputs_hold s row.scope inputs)) [
      | inr (x, a) ↦ absurd (cc (rw a at e))
      | inl (held, a) ↦ elim (Bool-cases held) [
        | inr b ↦ absurd (cc (rw (a, b) at e))
        | inl b ↦ insert_job-Inserted inputs row s s' result (a ∙ ap ok b) (rw (a, b) at e)
      ]
    ]

-- An enqueue that succeeds: a valid request in a parsed scope, keyed by its digest.
pub record Enqueued (h : Host) (now : ℕ) (new_key : Text) (req : EnqueueJobRequest) (s s' : Store)
    (result : EnqueueJobResult) : Type 0 where
  pub path : ScopePath
  pub dedup : Text
  pub inputs : List JobInput
  pub valid : validate_enqueue h req ≡ ok tt
  pub parsed : Scope.parse req.scope ≡ ok path
  pub keyed : job_dedup_key h req path.as_str ≡ ok dedup
  pub stored : job_inputs_value req.inputs ≡ ok inputs
  pub row : JobRow
  pub is_new : IsNew h now new_key path.as_str dedup inputs req row
  pub inserted : Inserted req.inputs row s s' result

-- An enqueue that succeeds had a valid request, a parsed scope and every input there, in this scope
-- and at its pinned revision if it has versions. It either reports a duplicate, the job of a row of
-- this scope that holds the deduplication key as its slot, and writes nothing; or no row held the
-- key, and a row is appended whose job is returned: pending, with the request's trimmed kind, body
-- and budget, without an owner, an attempt or a fence, created now.
pub enqueue_job-Enqueued :
    (h : Host) (now : ℕ) (new_key : Text) (req : EnqueueJobRequest) (s s' : Store)
    (result : EnqueueJobResult)
    → enqueue_job h now new_key req s ≡ (ok result, s')
    → Enqueued h now new_key req s s' result
unfolding enqueue_job
enqueue_job-Enqueued h now new_key req s s' result e =
    elim (Result-cases (validate_enqueue h req)) [
      | inr (x, a) ↦ absurd (cc (rw a at e))
      | inl (u, a) ↦ elim (Result-cases (Scope.parse req.scope)) [
        | inr (x, b) ↦ absurd (cc (rw (a, b) at e))
        | inl (path, b) ↦ elim (Result-cases (job_dedup_key h req path.as_str)) [
          | inr (x, c) ↦ absurd (cc (rw (a, b, c) at e))
          | inl (dedup, c) ↦ elim (Result-cases (job_inputs_value req.inputs)) [
            | inr (x, d) ↦ absurd (cc (rw (a, b, c, d) at e))
            | inl (inputs, d) ↦ record {
              path = path;
              dedup = dedup;
              inputs = inputs;
              valid = a;
              parsed = b;
              keyed = c;
              stored = d;
              row = new_row h now new_key path.as_str dedup inputs req;
              is_new = new_row-IsNew h now new_key path.as_str dedup inputs req;
              inserted =
                  enqueue_commit-Inserted req.inputs
                    (new_row h now new_key path.as_str dedup inputs req) s s' result
                    (rw (a, b, c, d) at e);
            }
          ]
        ]
      ]
    ]
