-- ===== src/Jobs/Deduplication.antt =====
-- Deduplication: while a job is live, an equal request is answered with that job.
use nomiso.Prelude.{
  ℕ, ◌≡◌, refl, ap, sym, ◌∙◌, inl, inr, true, false, ◌&&◌, List, [], ◌∷◌, some, arith, Bool-cases,
  All,
}
use nomiso.Prelude.Text.{Text, text_eq, text_eq_iff}
use nomiso.Errors.{ok}
use nomiso.Host.{Host}
use nomiso.Scope
use nomiso.Scope.{ScopePath}
use nomiso.Jobs.{JobRecord, JobInput, EnqueueJobRequest, validate_enqueue, terminal}
use nomiso.Jobs.Journal.{JobRow, Store, find, tomb}
use nomiso.Jobs.Inputs.{job_dedup_key, job_inputs_value, inputs_hold}
use nomiso.Jobs.Enqueue.{
  enqueue_job, enqueue_commit, insert_job, replay, new_row, slot_taken, find_live_job,
}
use nomiso.Jobs.Rows.{RowOk, find_self, All-find}
use nomiso.Jobs.Evolution.{OneLive, some_injective}
use nomiso.Jobs.World.{World, Reach, empty_world}
use nomiso.Jobs.Steps.{run-Inv}

slot_taken-find :
    (slot key : Text) (rows : List JobRow) (r : JobRow)
    → find key rows ≡ some r
    → r.dedup_slot ≡ slot
    → slot_taken slot rows ≡ true
unfolding slot_taken find
slot_taken-find slot key [] r e d = absurd (cc)
slot_taken-find slot key (x ∷ rows) r e d =
    ground (arith, text_eq_iff x.dedup_slot slot, slot_taken-find slot key rows r)

-- The job that `find_live_job` returns is of a row with the slot, in the scope.
pub record LiveFound (scope slot : Text) (P : JobRow → Type 0) (rows : List JobRow) : Type 0 where
  pub row : JobRow
  pub at_row : P row
  pub slot_eq : row.dedup_slot ≡ slot
  pub scope_eq : row.scope ≡ scope
  pub job_eq : find_live_job scope slot rows ≡ some row.job

find_live :
    (scope slot key : Text) (P : JobRow → Type 0) (rows : List JobRow) (r : JobRow)
    → All P rows
    → find key rows ≡ some r
    → r.dedup_slot ≡ slot
    → r.scope ≡ scope
    → LiveFound scope slot P rows
unfolding find_live_job find
find_live scope slot key P [] r h e a b = absurd (cc)
find_live scope slot key P (x ∷ rows) r h e a b =
    elim (Bool-cases (text_eq x.dedup_slot slot && text_eq x.scope scope)) [
      | inl q ↦ record {
        row = x;
        at_row = h.0;
        slot_eq = ground (arith, text_eq_iff x.dedup_slot slot);
        scope_eq = ground (arith, text_eq_iff x.scope scope);
        job_eq = rw q refl;
      }
      | inr q ↦ elim (Bool-cases (text_eq x.key key)) [
        | inl c ↦ absurd (ground (arith, text_eq_iff x.dedup_slot slot, text_eq_iff x.scope scope))
        | inr c ↦
            let d = find_live scope slot key P rows r h.1 (rw c at e) a b in
            record {
              row = d.row;
              at_row = d.at_row;
              slot_eq = d.slot_eq;
              scope_eq = d.scope_eq;
              job_eq = rw q d.job_eq;
            }
      ]
    ]

-- The row that holds the slot of a live row is that row.
slot_owner :
    (rows : List JobRow) (r r' : JobRow)
    → All RowOk rows
    → OneLive rows
    → ((k : Text) → r.dedup_key ≡ tomb k → ⊥)
    → find r.key rows ≡ some r
    → find r'.key rows ≡ some r'
    → terminal r.state ≡ false
    → r'.dedup_slot ≡ r.dedup_slot
    → r' ≡ r
slot_owner rows r r' rows_ok one no_tomb e e' live same =
    let v = All-find RowOk r.key rows r rows_ok e in
    let v' = All-find RowOk r'.key rows r' rows_ok e' in
    elim (Bool-cases (terminal r'.state)) [
      | inl q ↦ absurd (no_tomb r'.key (sym (v.slotted live) ∙ sym same ∙ v'.tombed q))
      | inr q ↦
          let k =
            one r.key r'.key r r' e e' live q (sym (v.slotted live) ∙ sym same ∙ v'.slotted q) in
          some_injective r' r (sym e' ∙ ap (λ (t : Text). find t rows) (sym k) ∙ e)
    ]

-- A request for which everything up to the insert succeeds.
pub record Accepted (h : Host) (s : Store) (req : EnqueueJobRequest) (scope dedup : Text)
    : Type 0 where
  pub path : ScopePath
  pub inputs : List JobInput
  pub valid : validate_enqueue h req ≡ ok tt
  pub parsed : Scope.parse req.scope ≡ ok path
  pub scope_eq : path.as_str ≡ scope
  pub keyed : job_dedup_key h req path.as_str ≡ ok dedup
  pub stored : job_inputs_value req.inputs ≡ ok inputs
  pub held : inputs_hold s path.as_str req.inputs ≡ ok true

enqueue_job-Accepted :
    (h : Host) (now : ℕ) (new_key : Text) (s : Store) (req : EnqueueJobRequest) (scope dedup : Text)
    (job : JobRecord)
    → Accepted h s req scope dedup
    → slot_taken dedup s.jobs ≡ true
    → find_live_job scope dedup s.jobs ≡ some job
    → enqueue_job h now new_key req s ≡ (ok (record { job = job; deduplicated = true }), s)
unfolding enqueue_job enqueue_commit insert_job replay new_row
enqueue_job-Accepted h now new_key s req scope dedup job a t f =
    rw (a.valid, a.parsed, a.keyed, a.stored, a.held, t) (rw (a.scope_eq, f) refl)

-- From any reachable journal, and if the live job's key does not read `X|…`, as no BLAKE3 digest
-- does: a request whose deduplication key and
-- scope are those of a live job, and which is valid with its inputs in place, is answered with
-- that job as a duplicate, whatever key was generated for it, and nothing is written.
pub enqueue_job-deduplicates :
    (h : Host) (w : World) (now : ℕ) (key new_key : Text) (r : JobRow) (req : EnqueueJobRequest)
    → ((k : Text) → r.dedup_key ≡ tomb k → ⊥)
    → Reach h empty_world w
    → find key w.store.jobs ≡ some r
    → terminal r.state ≡ false
    → Accepted h w.store req r.scope r.dedup_key
    → enqueue_job h now new_key req w.store
      ≡ (ok (record { job = r.job; deduplicated = true }), w.store)
enqueue_job-deduplicates h w now key new_key r req no_tomb start e live a =
    let v = run-Inv h w start in
    let rows = w.store.jobs in
    let slot = (All-find RowOk key rows r v.rows e).slotted live in
    let d =
      find_live r.scope r.dedup_key key (λ x. find x.key rows ≡ some x) rows r
        (find_self rows v.distinct) e slot refl in
    let at_key =
      All-find (λ x. find x.key rows ≡ some x) key rows r (find_self rows v.distinct) e in
    let same =
      slot_owner rows r d.row v.rows v.one_live no_tomb at_key d.at_row live
        (d.slot_eq ∙ sym slot) in
    enqueue_job-Accepted h now new_key w.store req r.scope r.dedup_key r.job a
      (slot_taken-find r.dedup_key key rows r e slot)
      (d.job_eq ∙ ap (λ (x : JobRow). some x.job) same)
