-- ===== src/TaskState/Tests.antt =====
-- Task states on a concrete table: a put that replaces version 1, and a second one that is late.
use nomiso.Prelude.{ℕ, ◌<◌, ◌≡◌, refl, false, [], ◌∷◌, some, arith}
use nomiso.Prelude.Text.{
  Text, codes, trim, trim_matches, is_whitespace, text_eq, utf8_len, starts_with, ends_with,
}
use nomiso.Errors.{ok, err, conflict}
use nomiso.Host.{Host}
use nomiso.Json.{Json, object, field, number, end, is_object}
use nomiso.Scope.{ScopePath, parse, split, contains_empty_segment, check_segments}
use nomiso.Validation.{default_limits}
use nomiso.TaskState.{
  PutTaskStateRequest, TaskStateRecord, update_rows, attempt, put_attempts, check_request,
  put_task_state,
}
use nomiso.TaskState.Swaps.{Swapped, put_task_state-Swapped}
use nomiso.TaskState.Once.{calm, Later, put_task_state_once}

abbrev host : Host
host = record { max_timestamp = 1000000000; blake3_hex = λ t. t; json_text = λ v. codes "{}" }

abbrev acme : ScopePath
acme = record { as_str = codes "org/acme" }

abbrev row_1 : TaskStateRecord
row_1 = record {
  id = codes "t1";
  scope = codes "org/acme";
  slot = codes "wm";
  body = object end;
  version = 1;
  sys_created = 3;
  sys_updated = 3;
}

abbrev new_body : Json
new_body = object (field (codes "step") (number (codes "2")) end)

abbrev row_2 : TaskStateRecord
row_2 = record row_1 { body = new_body; version = 2; sys_updated = 9 }

abbrev change : PutTaskStateRequest
change = record {
  scope = codes "org/acme";
  slot = codes "wm";
  body = new_body;
  expected_version = some 1;
  create_only = false;
}

abbrev keys : ℕ → Text
keys n = codes "k"

changes :
    put_task_state host default_limits calm 9 keys change (row_1 ∷ []) ≡ (ok row_2, row_2 ∷ [])
unfolding put_task_state parse split contains_empty_segment check_segments starts_with ends_with
    trim trim_matches is_whitespace text_eq utf8_len check_request is_object put_attempts attempt
    update_rows
changes = refl

put_task_state-Swapped_example : Swapped calm 9 change 1 (row_1 ∷ []) row_2 (row_2 ∷ [])
put_task_state-Swapped_example =
    put_task_state-Swapped host default_limits calm 9 keys change 1 (row_1 ∷ []) (row_2 ∷ []) row_2
      refl changes

parsed : parse change.scope ≡ ok acme
unfolding parse split contains_empty_segment check_segments starts_with ends_with trim trim_matches
    is_whitespace utf8_len
parsed = refl

valid : (check_request host default_limits change (row_2 ∷ [])).0 ≡ ok tt
unfolding check_request trim trim_matches is_whitespace utf8_len is_object
valid = refl

unchanged : Later (codes "org/acme") (trim change.slot) (row_2 ∷ []) (row_2 ∷ [])
unchanged r e = (r, e, omega arith)

put_task_state_once_example :
    (n : ℕ) × (1 < n)
    × (put_task_state host default_limits calm 12 keys change (row_2 ∷ [])
        ≡ (err (conflict 1 n), row_2 ∷ []))
put_task_state_once_example =
    put_task_state_once host default_limits calm 9 keys change 1 (row_1 ∷ []) (row_2 ∷ []) row_2
      refl changes acme (row_2 ∷ []) parsed unchanged change 12 keys refl parsed refl valid
