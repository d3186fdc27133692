-- ===== src/Jobs.antt =====
-- crates/nomiso-core/src/job.rs: the records of the durable job journal, the retry backoff, the
-- resolution of intents and the validation of requests.
pub mod Journal
pub mod Inputs
pub mod Pinned
pub mod Enqueue
pub mod Claim
pub mod Effects
pub mod Control
pub mod Inspect
pub mod Names
pub mod Rows
pub mod Transitions
pub mod Statements
pub mod World
pub mod Evolution
pub mod Invariant
pub mod Steps
pub mod Fencing
pub mod Leases
pub mod ClaimLoop
pub mod Grants
pub mod Calls
pub mod Methods
pub mod Atomicity
pub mod Completion
pub mod Retry
pub mod Renewal
pub mod Cancellation
pub mod Deduplication
pub mod Identity
pub mod Acceptance
pub mod Listing
pub mod Scenario
mod Tests
use nomiso.Prelude.{
  ℕ, ◌+◌, ◌*◌, ◌^◌, ◌-◌, min, Bool, true, false, ◌||◌, not, List, [], ◌∷◌, ◌++◌, Option, none, some,
  ◌==◌, ltb, leb, if◌then◌else◌, is_empty, is_some, length, unwrap_or,
}
use nomiso.Prelude.Text.{Text, codes, text_eq, trim, utf8_len}
use nomiso.Errors.{Result, ok, err, invalid_op, payload_too_large, refuse_if, ◌>>=◌, ◌>>◌}
use nomiso.Json.{Json, is_object}
use nomiso.Host.{Host}
use nomiso.Endpoints.{EndpointKind, memory}

abbrev pub job_kind_max : ℕ
job_kind_max = 64

abbrev pub job_inputs_max : ℕ
job_inputs_max = 64

abbrev pub job_body_max_bytes : ℕ
job_body_max_bytes = 16 * 1024

abbrev pub job_history_max : ℕ
job_history_max = 20

abbrev pub job_backoff_default_ms : ℕ
job_backoff_default_ms = 1_000

pub data JobState : Type 0 where
  pending leased succeeded failed cancelled superseded : JobState

-- `JobState::as_str` and `JobState::parse`
abbrev pub as_str : JobState → Text
as_str pending = codes "pending"
as_str leased = codes "leased"
as_str succeeded = codes "succeeded"
as_str failed = codes "failed"
as_str cancelled = codes "cancelled"
as_str superseded = codes "superseded"

unfoldable pub parse_state : Text → Option JobState
parse_state s =
    if text_eq s (codes "pending")
    then some pending
    else if text_eq s (codes "leased")
    then some leased
    else if text_eq s (codes "succeeded")
    then some succeeded
    else if text_eq s (codes "failed")
    then some failed
    else if text_eq s (codes "cancelled")
    then some cancelled
    else if text_eq s (codes "superseded")
    then some superseded
    else none

abbrev pub terminal : JobState → Bool
terminal pending = false
terminal leased = false
terminal succeeded = true
terminal failed = true
terminal cancelled = true
terminal superseded = true

pub record JobInput : Type 0 where
  pub kind : EndpointKind
  pub id : Text
  pub revision : Option ℕ

pub record JobBudget : Type 0 where
  pub max_attempts : ℕ  -- u32
  pub lease_ms : ℕ  -- u64
  pub retry_backoff_ms : Option ℕ
  pub deadline_ms : Option ℕ

-- `u64::saturating_mul`
abbrev pub u64_max : ℕ
u64_max = 18446744073709551615

unfoldable pub saturating_mul : ℕ → ℕ → ℕ
saturating_mul a b = min u64_max (a * b)

unfoldable pub backoff_ms : JobBudget → ℕ → ℕ
unfolding saturating_mul
backoff_ms self attempts =
    saturating_mul (unwrap_or self.retry_backoff_ms job_backoff_default_ms) (2 ^ min attempts 8)

pub record EnqueueJobRequest : Type 0 where
  pub scope : Text
  pub kind : Text
  pub inputs : List JobInput
  pub composition : Option Json
  pub payload : Option Json
  pub budget : JobBudget
  pub dedup_hint : Option Text

pub record JobAttempt : Type 0 where
  pub attempt : ℕ
  pub worker : Text
  pub fence : ℕ
  pub started_at : ℕ
  pub ended_at : Option ℕ
  pub error : Option Text

pub record JobError : Type 0 where
  pub code : Text
  pub message : Text
  pub retryable : Bool

pub record JobRecord : Type 0 where
  pub id : Text
  pub scope : Text
  pub kind : Text
  pub state : JobState
  pub dedup_key : Text
  pub inputs : List JobInput
  pub composition : Option Json
  pub payload : Option Json
  pub budget : JobBudget
  pub attempts : ℕ
  pub fence : ℕ
  pub owner : Option Text
  pub lease_until : Option ℕ
  pub not_before : Option ℕ
  pub expires_at : Option ℕ
  pub checkpoint : Option Json
  pub result : Option Json
  pub error : Option JobError
  pub replaced_by : Option Text
  pub terminal_reason : Option Text
  pub history : List JobAttempt
  pub created_at : ℕ
  pub updated_at : ℕ
  pub completed_at : Option ℕ

pub record EnqueueJobResult : Type 0 where
  pub job : JobRecord
  pub deduplicated : Bool

pub record JobIntent : Type 0 where
  pub kind : Text
  pub inputs : List JobInput
  pub self_input : Bool
  pub composition : Option Json
  pub payload : Option Json
  pub budget : JobBudget
  pub dedup_hint : Option Text

-- The record that a write creates, as an input pinned at revision 1.
self_inputs : Bool → Option Text → List JobInput
self_inputs true (some key) = record { kind = memory; id = key; revision = some 1 } ∷ []
self_inputs true none = []
self_inputs false key = []

unfoldable pub resolve : JobIntent → Text → Option Text → EnqueueJobRequest
unfolding self_inputs
resolve self scope self_key = record {
  scope = scope;
  kind = self.kind;
  inputs = self.inputs ++ self_inputs self.self_input self_key;
  composition = self.composition;
  payload = self.payload;
  budget = self.budget;
  dedup_hint = self.dedup_hint;
}

pub record ClaimJobRequest : Type 0 where
  pub worker : Text
  pub scopes : List Text
  pub kinds : List Text

pub record JobLease : Type 0 where
  pub job : JobRecord
  pub fence : ℕ
  pub lease_until : ℕ

pub record ListJobsRequest : Type 0 where
  pub scope : Text
  pub state : Option JobState
  pub kind : Option Text
  pub limit : Option ℕ

pub record JobSummary : Type 0 where
  pub id : Text
  pub scope : Text
  pub kind : Text
  pub state : JobState
  pub dedup_key : Text
  pub attempts : ℕ
  pub fence : ℕ
  pub owner : Option Text
  pub lease_until : Option ℕ
  pub not_before : Option ℕ
  pub error : Option JobError
  pub replaced_by : Option Text
  pub terminal_reason : Option Text
  pub has_checkpoint : Bool
  pub has_result : Bool
  pub created_at : ℕ
  pub updated_at : ℕ
  pub completed_at : Option ℕ

unfoldable pub summarise : JobRecord → JobSummary
summarise j = record {
  id = j.id;
  scope = j.scope;
  kind = j.kind;
  state = j.state;
  dedup_key = j.dedup_key;
  attempts = j.attempts;
  fence = j.fence;
  owner = j.owner;
  lease_until = j.lease_until;
  not_before = j.not_before;
  error = j.error;
  replaced_by = j.replaced_by;
  terminal_reason = j.terminal_reason;
  has_checkpoint = is_some j.checkpoint;
  has_result = is_some j.result;
  created_at = j.created_at;
  updated_at = j.updated_at;
  completed_at = j.completed_at;
}

-- The two rounds of the loop over the bodies of a request.
validate_object : Host → Option Json → Result (Unit {0})
validate_object h none = ok tt
validate_object h (some v) = do
  refuse_if (ltb job_body_max_bytes (utf8_len (h.json_text v)))
      (payload_too_large "job body exceeds 16384 bytes")
  refuse_if (not (is_object v)) (invalid_op "job body must be an object")

unfoldable pub validate_enqueue : Host → EnqueueJobRequest → Result (Unit {0})
unfolding validate_object
validate_enqueue h req = do
  let kind = trim req.kind
  refuse_if (is_empty kind || ltb job_kind_max (utf8_len kind))
      (invalid_op "job kind must be 1..64 bytes")
  refuse_if (ltb job_inputs_max (length req.inputs)) (payload_too_large "job inputs exceed 64")
  refuse_if (req.budget.max_attempts == 0) (invalid_op "job budget max_attempts must be >= 1")
  refuse_if (req.budget.lease_ms == 0) (invalid_op "job budget lease_ms must be > 0")
  validate_object h req.composition
  validate_object h req.payload

unfoldable pub validate_job_body : Host → Json → Result (Unit {0})
validate_job_body h body =
    refuse_if (ltb job_body_max_bytes (utf8_len (h.json_text body)))
      (payload_too_large "job body exceeds 16384 bytes")
