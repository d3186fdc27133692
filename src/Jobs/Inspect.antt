-- ===== src/Jobs/Inspect.antt =====
-- crates/nomiso-store/src/surreal_store.rs: `get_job` and `list_jobs`.
use nomiso.Prelude.{
  ℕ, Bool, true, ◌&&◌, List, Option, none, some, ltb, leb, if◌then◌else◌, filter, take, map,
  unwrap_or,
}
use nomiso.Prelude.Text.{Text, text_eq}
use nomiso.Prelude.Sort.{sort}
use nomiso.Errors.{Result, ok, err, not_found, ◌>>=◌}
use nomiso.Scope
use nomiso.Jobs
use nomiso.Jobs.{JobState, JobRecord, JobSummary, ListJobsRequest, summarise}
use nomiso.Jobs.Journal.{JobRow, Store, find, job_bare_key}

-- `WHERE record::id(id) = $id AND scope = $scope`
in_scope : Text → Option JobRow → Result JobRecord
in_scope scope none = err (not_found "job")
in_scope scope (some r) = if text_eq r.scope scope then ok r.job else err (not_found "job")

unfoldable pub get_job : Text → Text → Store → Result JobRecord
unfolding in_scope
get_job raw_scope id s = do
  path ← Scope.parse raw_scope
  key ← job_bare_key id
  in_scope path.as_str (find key s.jobs)

-- `limit.unwrap_or(100).clamp(1, 500)`
unfoldable pub clamp : ℕ → ℕ → ℕ → ℕ
clamp lo hi x = if ltb x lo then lo else if ltb hi x then hi else x

abbrev pub state_matches : Option JobState → JobRow → Bool
state_matches none r = true
state_matches (some state) r = text_eq (Jobs.as_str r.state) (Jobs.as_str state)

abbrev pub kind_matches : Option Text → JobRow → Bool
kind_matches none r = true
kind_matches (some kind) r = text_eq r.kind kind

abbrev pub created_after : JobRow → JobRow → Bool
created_after a b = leb b.created_at a.created_at

abbrev pub selected : Text → ListJobsRequest → JobRow → Bool
selected scope req r =
    text_eq r.scope scope && (state_matches req.state r && kind_matches req.kind r)

unfoldable pub list_jobs : ListJobsRequest → Store → Result (List JobSummary)
unfolding clamp
list_jobs req s = do
  path ← Scope.parse req.scope
  let limit = clamp 1 500 (unwrap_or req.limit 100)
  let rows = sort created_after (filter (selected path.as_str req) s.jobs)
  ok (map (λ r. summarise r.job) (take limit rows))
