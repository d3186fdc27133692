-- ===== src/Jobs/Transitions.antt =====
-- Each statement on a row keeps the row's invariant and makes the row evolve.
use nomiso.Prelude.{ℕ, ◌≡◌, true, false, arith, leb}
use nomiso.Prelude.Text.{Text}
use nomiso.Host.{Host}
use nomiso.Json.{Json}
use nomiso.Jobs.{JobRecord, JobError}
use nomiso.Jobs.Journal.{JobRow, tomb, holds, is_live_in}
use nomiso.Jobs.Enqueue.{expired_row, expire_guard}
use nomiso.Jobs.Claim.{claimed_row, claim_guard}
use nomiso.Jobs.Effects.{renewed_row, saved_row, completed_row, failed_row}
use nomiso.Jobs.Control.{cancelled_row, superseded_row}
use nomiso.Jobs.Rows.{RowOk, Evolves, Earlier}

-- What a statement owes.
abbrev pub Keeps : JobRow → JobRow → Type 0
Keeps r r' = RowOk r' × Evolves r r'

pub claimed-Keeps :
    (now : ℕ) (worker : Text) (lease_until : ℕ) (job : JobRecord) (r : JobRow)
    → RowOk r
    → Earlier job r
    → leb job.budget.max_attempts job.attempts ≡ false
    → claim_guard now job r ≡ true
    → Keeps r (claimed_row now worker lease_until job r)
claimed-Keeps now worker until job r v e room h = ground arith

pub expired-Keeps :
    (now : ℕ) (key : Text) (job : JobRecord) (r : JobRow)
    → RowOk r
    → key ≡ r.key
    → expire_guard job r ≡ true
    → Keeps r (expired_row now key r)
expired-Keeps now key job r v e h = ground arith

pub renewed-Keeps :
    (now fence lease_until : ℕ) (worker : Text) (r : JobRow)
    → RowOk r
    → holds fence worker r ≡ true
    → Keeps r (renewed_row now lease_until r)
renewed-Keeps now fence until worker r v h = ground arith

pub saved-Keeps :
    (now fence : ℕ) (worker : Text) (checkpoint : Json) (r : JobRow)
    → RowOk r
    → holds fence worker r ≡ true
    → Keeps r (saved_row now checkpoint r)
saved-Keeps now fence worker checkpoint r v h = ground arith

pub completed-Keeps :
    (now fence : ℕ) (worker own : Text) (result : Json) (job : JobRecord) (r : JobRow)
    → RowOk r
    → own ≡ r.key
    → holds fence worker r ≡ true
    → Keeps r (completed_row now result (tomb own) job r)
completed-Keeps now fence worker own result job r v e h = ground arith

-- A retry keeps the attempts of the row, whatever the job that was read says of them.
pub failed-Keeps :
    (h : Host) (now fence : ℕ) (worker own : Text) (error : JobError) (job : JobRecord) (r : JobRow)
    → RowOk r
    → Earlier job r
    → own ≡ r.key
    → holds fence worker r ≡ true
    → Keeps r (failed_row h now error own job r)
failed-Keeps h now fence worker own error job r v e o g = ground arith

pub cancelled-Keeps :
    (now : ℕ) (scope reason own : Text) (job : JobRecord) (r : JobRow)
    → RowOk r
    → own ≡ r.key
    → is_live_in scope r ≡ true
    → Keeps r (cancelled_row now reason own job r)
cancelled-Keeps now scope reason own job r v e h = ground arith

pub superseded-Keeps :
    (now : ℕ) (scope replacement reason own : Text) (job : JobRecord) (r : JobRow)
    → RowOk r
    → own ≡ r.key
    → is_live_in scope r ≡ true
    → Keeps r (superseded_row now replacement reason own job r)
superseded-Keeps now scope replacement reason own job r v e h = ground arith
