-- ===== src/Jobs/Journal.antt =====
-- crates/nomiso-store/src/surreal_store.rs and crates/nomiso-schema/schema/012_job_journal.surql:
-- the table of jobs, the statements that the methods run on it, and the keys of its rows.
use nomiso.Prelude.{
  ℕ, ◌-◌, Bool, true, false, ◌&&◌, ◌||◌, List, [], ◌∷◌, ◌++◌, Option, none, some, ◌==◌, ltb,
  if◌then◌else◌, is_empty, is_some_and, length, drop,
}
use nomiso.Prelude.Text.{Text, codes, text_eq, trim, trim_matches, strip_prefix}
use nomiso.Errors.{Result, ok, err, invalid_op, not_found, refuse_if, ◌>>=◌, ◌>>◌}
use nomiso.Exec.{Exec}
use nomiso.Endpoints.{EndpointKind, is_bracket, is_quote}
use nomiso.Jobs.{JobState, pending, leased, JobAttempt, JobRecord, job_history_max}

-- A row of `nomiso_job`: its record key, the decoded record and the column `dedup_slot`.
pub record JobRow : Type 0 where
  pub key : Text
  pub job : JobRecord
  pub open job use *
  pub dedup_slot : Text

-- What a job input may point at: the scope and the version of a record of another table.
pub record Endpoint : Type 0 where
  pub scope : Text
  pub version : ℕ

pub record Store : Type 0 where
  pub jobs : List JobRow
  pub endpoint : EndpointKind → Text → Option Endpoint

abbrev pub is_pending : JobState → Bool
is_pending pending = true
is_pending _ = false

abbrev pub is_leased : JobState → Bool
is_leased leased = true
is_leased _ = false

-- `SELECT … WHERE record::id(id) = $id LIMIT 1`
unfoldable pub find : Text → List JobRow → Option JobRow
find key [] = none
find key (r ∷ rows) = if text_eq r.key key then some r else find key rows

-- `UPDATE type::record('nomiso_job', $id) SET f WHERE p`
unfoldable pub update : Text → (JobRow → Bool) → (JobRow → JobRow) → List JobRow → List JobRow
update key p f [] = []
update key p f (r ∷ rows) =
    if text_eq r.key key then (if p r then f r else r) ∷ rows else r ∷ update key p f rows

-- The rows that an update returns: the new row, or none where the key or the condition fails.
abbrev pub updated : (JobRow → Bool) → (JobRow → JobRow) → Option JobRow → Option JobRecord
updated p f none = none
updated p f (some r) = if p r then some (f r).job else none

abbrev pub update_job : Text → (JobRow → Bool) → (JobRow → JobRow) → Exec Store (Option JobRecord)
update_job key p f s =
    (ok (updated p f (find key s.jobs)), record s { jobs = update key p f s.jobs })

-- `norm_record_id(raw, table)`
unfoldable pub norm_record_id : Text → Text → Text
norm_record_id raw table =
    let s = trim_matches is_quote raw in
    let prefixed = table ++ codes ":" in
    let stripped : Text = elim (strip_prefix prefixed s) [ some rest ↦ rest | none ↦ s ] in
    prefixed ++ trim_matches is_bracket stripped

-- `s.strip_prefix("job:").or_else(|| s.strip_prefix("nomiso_job:")).unwrap_or(s)`
strip_job : Text → Text
strip_job s = elim (strip_prefix (codes "job:") s) [
  | some rest ↦ rest
  | none ↦ elim (strip_prefix (codes "nomiso_job:") s) [ some rest ↦ rest | none ↦ s ]
]

unfoldable pub job_bare_key : Text → Result Text
unfolding strip_job
job_bare_key id = do
  let s = trim_matches is_bracket (strip_job (trim_matches is_quote (trim id)))
  refuse_if (is_empty s) (invalid_op "job id is empty")
  ok s

abbrev pub found : Option JobRow → Result JobRecord
found none = err (not_found "job")
found (some r) = ok r.job

unfoldable pub job_by_key : Text → Store → Result JobRecord
job_by_key id s = do key ← job_bare_key id; found (find key s.jobs)

-- `format!("X|{}", key)`: what frees the deduplication slot of a terminal job.
abbrev pub tomb : Text → Text
tomb key = codes "X|" ++ key

-- The condition of every effect of a worker: the lease is this worker's, under this fence.
abbrev pub holds : ℕ → Text → JobRow → Bool
holds fence worker r =
    is_leased r.state && (r.fence == fence && is_some_and r.owner (λ owner. text_eq owner worker))

-- `state IN ['pending', 'leased'] AND scope = $scope`
abbrev pub is_live_in : Text → JobRow → Bool
is_live_in scope r = (is_pending r.state || is_leased r.state) && text_eq r.scope scope

-- `close_history_with`: the open last attempt ends now, and the newest entries are kept.
close_attempt : ℕ → Option Text → JobAttempt → JobAttempt
close_attempt now error a = elim a.ended_at [
  | some t ↦ a
  | none ↦ elim error [
    | some e ↦ record a { ended_at = some now; error = some e }
    | none ↦ record a { ended_at = some now }
  ]
]

close_last : ℕ → Option Text → List JobAttempt → List JobAttempt
unfolding close_attempt
close_last now error [] = []
close_last now error (a ∷ []) = close_attempt now error a ∷ []
close_last now error (a ∷ b ∷ rest) = a ∷ close_last now error (b ∷ rest)

unfoldable pub close_history_with : ℕ → JobRecord → Option Text → List JobAttempt
unfolding close_last
close_history_with now job error =
    let history = close_last now error job.history in
    if ltb job_history_max (length history)
    then drop (length history - job_history_max) history
    else history
