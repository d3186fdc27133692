-- ===== src/TaskState/Swaps.antt =====
-- Optimistic concurrency of task states: a write that expects a version replaces that version, and
-- no two writes replace the same one.
use nomiso.Prelude.{
  ℕ, suc, zero, ◌+◌, ◌<◌, ◌≡◌, refl, sym, ◌∙◌, ap, inl, inr, ◌⊎◌, Bool, true, false, ◌&&◌, not, [],
  ◌∷◌, Option, none, some, ◌==◌, arith, Bool-cases,
}
use nomiso.Prelude.Text.{Text, trim}
use nomiso.Errors.{ok, Result-cases}
use nomiso.Exec.{Exec, ◌>>◌}
use nomiso.Host.{Host}
use nomiso.Scope
use nomiso.Scope.{ScopePath}
use nomiso.Validation.{Limits}
use nomiso.TaskState.{
  PutTaskStateRequest, TaskStateRecord, Table, Outcome, runs, conflicts, conflicts_early, breaks,
  Weather, at_slot, lookup, expects, replaced, update_rows, after_update, attempt, put_attempts,
  check_request, put_task_state,
}

module _ (now : ℕ) (scope slot : Text) (req : PutTaskStateRequest) where
  -- The update replaced the row at the slot.
  pub record Replaced (rows : Table) (rec : TaskStateRecord) (after : Table) : Type 0 where
    pub row : TaskStateRecord
    pub at_row : lookup scope slot rows ≡ some row
    pub expected : expects req.expected_version row ≡ true
    pub not_create : req.create_only ≡ false
    pub result : rec ≡ replaced now req.body row
    pub stored : lookup scope slot after ≡ some rec

  -- The update found no row to replace, and wrote nothing.
  pub record Kept (rows after : Table) : Type 0 where
    pub same : after ≡ rows
    pub refused :
        (row : TaskStateRecord)
        → lookup scope slot rows ≡ some row
        → (expects req.expected_version row && not req.create_only) ≡ false

  pub update_cases :
      (rows : Table)
      → ((rec : TaskStateRecord) × ((update_rows now scope slot req rows).0 ≡ some rec)
          × Replaced rows rec (update_rows now scope slot req rows).1)
        ⊎ (((update_rows now scope slot req rows).0 ≡ none)
            × Kept rows (update_rows now scope slot req rows).1)
  unfolding update_rows lookup
  update_cases [] = inr (refl, record { same = refl; refused = λ row e. absurd (cc e) })
  update_cases (r ∷ rows) = elim (Bool-cases (at_slot scope slot r)) [
    | inl q ↦ elim (Bool-cases (expects req.expected_version r && not req.create_only)) [
      | inl g ↦
          rw (q, g)
            (inl (
              replaced now req.body r,
              refl,
              record {
                row = r;
                at_row = rw q refl;
                expected = ground arith;
                not_create = ground arith;
                result = refl;
                stored = rw q refl;
              },
            ))
      | inr g ↦ rw (q, g) (inr (refl, record { same = refl; refused = λ row e. cc (rw q at e, g) }))
    ]
    | inr q ↦ elim (update_cases rows) [
      | inl (rec, e, d) ↦ rw q (
          inl (
            rec,
            e,
            record {
              row = d.row;
              at_row = rw q d.at_row;
              expected = d.expected;
              not_create = d.not_create;
              result = d.result;
              stored = rw q d.stored;
            },
          ))
      | inr (e, k) ↦ rw q (
          inr
            (e, record { same = ap (◌∷◌ r) k.same; refused = λ row f. k.refused row (rw q at f) }))
    ]
  ]

add_zero : (n : ℕ) → n + 0 ≡ n
add_zero n = omega arith

zero_add : (n : ℕ) → 0 + n ≡ n
zero_add n = omega arith

add_suc : (n k : ℕ) → n + suc k ≡ suc n + k
add_suc n k = omega arith

module _ (now : ℕ) (scope slot : Text) (req : PutTaskStateRequest) where
  -- An attempt that returns a row has replaced it, or has left it to the next attempt.
  attempt-Replaced :
      (update creation : Outcome) (before between : Table → Table) (key : Text) (last : Bool)
      (again : Exec Table TaskStateRecord) (v : ℕ) (rows rows' : Table) (rec : TaskStateRecord)
      → req.expected_version ≡ some v
      → attempt update creation before between now key scope slot req last again rows
        ≡ (ok rec, rows')
      → ((update ≡ runs) × Replaced now scope slot req (before rows) rec rows')
        ⊎ (again (before rows) ≡ (ok rec, rows'))
  unfolding attempt after_update
  attempt-Replaced breaks creation before between key last again v rows rows' rec x e =
      absurd (cc e)
  attempt-Replaced runs creation before between key last again v rows rows' rec x e =
      elim (update_cases now scope slot req (before rows)) [
        | inl (r, a, d) ↦
            let same : r ≡ rec = cc (rw a at e) in
            let after : (update_rows now scope slot req (before rows)).1 ≡ rows' = cc (rw a at e) in
            inl (
              refl,
              record {
                row = d.row;
                at_row = d.at_row;
                expected = d.expected;
                not_create = d.not_create;
                result = sym same ∙ d.result;
                stored = ap (lookup scope slot) (sym after) ∙ d.stored ∙ ap some same;
              },
            )
        | inr (a, d) ↦ absurd (cc (rw (a, x) at e))
      ]
  attempt-Replaced conflicts creation before between key last again v rows rows' rec x e =
      elim (Bool-cases last) [ inl q ↦ absurd (cc (rw q at e)) | inr q ↦ inr (rw q at e) ]
  attempt-Replaced conflicts_early creation before between key last again v rows rows' rec x e =
      elim (Bool-cases last) [ inl q ↦ absurd (cc (rw q at e)) | inr q ↦ inr (rw q at e) ]

-- The table that an update finds: the table of the call, with what other clients wrote before this
-- update and before those of the attempts that came to nothing.
abbrev pub table_at : Weather → ℕ → ℕ → Table → Table
table_at weather n zero rows = weather.before_update n rows
table_at weather n (suc tries) rows = table_at weather (suc n) tries (weather.before_update n rows)

module _ (weather : Weather) (now : ℕ) (keys : ℕ → Text) (scope slot : Text)
    (req : PutTaskStateRequest) where
  -- One of the attempts that were left ran its update, which replaced the row that it found.
  record Tried (left n : ℕ) (rows : Table) (rec : TaskStateRecord) (rows' : Table) : Type 0 where
    tries : ℕ
    bound : tries < left
    ran : weather.update_outcome (n + tries) ≡ runs
    done : Replaced now scope slot req (table_at weather n tries rows) rec rows'

  -- A put that expects a version and returns a row has replaced a row in one of its attempts.
  put_attempts-Tried :
      (left n v : ℕ) (rows rows' : Table) (rec : TaskStateRecord)
      → req.expected_version ≡ some v
      → put_attempts left n weather now keys scope slot req rows ≡ (ok rec, rows')
      → Tried left n rows rec rows'
  unfolding put_attempts
  put_attempts-Tried zero n v rows rows' rec x e = absurd (cc e)
  put_attempts-Tried (suc left) n v rows rows' rec x e =
      elim (attempt-Replaced now scope slot req (weather.update_outcome n)
        (weather.create_outcome n) (weather.before_update n) (weather.before_create n) (keys n)
        (left == 0) (put_attempts left (suc n) weather now keys scope slot req) v rows rows' rec x
        e) [
          | inl (r, d) ↦ record {
            tries = 0;
            bound = omega arith;
            ran = ap weather.update_outcome (add_zero n) ∙ r;
            done = d;
          }
          | inr f ↦
              let d =
                put_attempts-Tried left (suc n) v (weather.before_update n rows) rows' rec x f in
              let b = d.bound in
              record {
                tries = suc d.tries;
                bound = omega arith;
                ran = ap weather.update_outcome (add_suc n d.tries) ∙ d.ran;
                done = d.done;
              }
        ]

-- The checks of a request write nothing.
pub check_request-same :
    (h : Host) (limits : Limits) (req : PutTaskStateRequest) (rows : Table)
    → (check_request h limits req rows).1 ≡ rows
unfolding check_request
check_request-same h limits req rows = ground arith

checked :
    (h : Host) (limits : Limits) (req : PutTaskStateRequest) (rows : Table)
    (k : Exec Table TaskStateRecord) (rec : TaskStateRecord) (rows' : Table)
    → (check_request h limits req >> k) rows ≡ (ok rec, rows')
    → (u : Unit {0}) × ((check_request h limits req rows).0 ≡ ok u) × (k rows ≡ (ok rec, rows'))
checked h limits req rows k rec rows' e = elim (Result-cases (check_request h limits req rows).0) [
  | inr (y, a) ↦ absurd (cc (rw a at e))
  | inl (u, a) ↦ (u, a, rw (a, check_request-same h limits req rows) at e)
]

-- What a put that expects a version has done: in one of three attempts its update found the row at
-- the slot at that version, and replaced it.
pub record Swapped (weather : Weather) (now : ℕ) (req : PutTaskStateRequest) (v : ℕ) (rows : Table)
    (rec : TaskStateRecord) (rows' : Table) : Type 0 where
  pub path : ScopePath
  pub parsed : Scope.parse req.scope ≡ ok path
  pub tries : ℕ
  pub bound : tries < 3
  pub ran : weather.update_outcome tries ≡ runs
  pub row : TaskStateRecord
  pub at_row : lookup path.as_str (trim req.slot) (table_at weather 0 tries rows) ≡ some row
  pub version : row.version ≡ v
  pub new_body : rec.body ≡ req.body
  pub new_version : rec.version ≡ v + 1
  pub at_now : rec.sys_updated ≡ now
  pub same_id : rec.id ≡ row.id
  pub same_slot : (rec.scope ≡ row.scope) × (rec.slot ≡ row.slot)
  pub same_created : rec.sys_created ≡ row.sys_created
  pub stored : lookup path.as_str (trim req.slot) rows' ≡ some rec

version_of :
    (o : Option ℕ) (v : ℕ) (row : TaskStateRecord)
    → o ≡ some v
    → expects o row ≡ true
    → row.version ≡ v
version_of o v row e h = let g : expects (some v) row ≡ true = rw e at h in ground arith

-- Whatever the database answers and whatever other clients write between the statements: a put
-- that expects a version and returns a row has, in one of its three attempts, run its update on the
-- table of the call with what other clients had written before this update, and found the row of its
-- slot at exactly this version. The row that it returns has the new body and the next version, the
-- identity of the row that it replaced, and is what the table holds afterwards.
pub put_task_state-Swapped :
    (h : Host) (limits : Limits) (weather : Weather) (now : ℕ) (keys : ℕ → Text)
    (req : PutTaskStateRequest) (v : ℕ) (rows rows' : Table) (rec : TaskStateRecord)
    → req.expected_version ≡ some v
    → put_task_state h limits weather now keys req rows ≡ (ok rec, rows')
    → Swapped weather now req v rows rec rows'
unfolding put_task_state
put_task_state-Swapped h limits weather now keys req v rows rows' rec x e =
    elim (Result-cases (Scope.parse req.scope)) [
      | inr (y, a) ↦ absurd (cc (rw a at e))
      | inl (path, a) ↦
          let (u, b, c) = checked h limits req rows _ rec rows' (rw a at e) in
          let q =
            put_attempts-Tried weather now keys path.as_str (trim req.slot) req 3 0 v rows rows' rec
              x c in
          let d = q.done in
          let at : d.row.version ≡ v = version_of req.expected_version v d.row x d.expected in
          record {
            path = path;
            parsed = a;
            tries = q.tries;
            bound = q.bound;
            ran = ap weather.update_outcome (sym (zero_add q.tries)) ∙ q.ran;
            row = d.row;
            at_row = d.at_row;
            version = at;
            new_body = ap (λ (r : TaskStateRecord). r.body) d.result;
            new_version = ap (λ (r : TaskStateRecord). r.version) d.result ∙ ap (λ n. n + 1) at;
            at_now = ap (λ (r : TaskStateRecord). r.sys_updated) d.result;
            same_id = ap (λ (r : TaskStateRecord). r.id) d.result;
            same_slot = (
              ap (λ (r : TaskStateRecord). r.scope) d.result,
              ap (λ (r : TaskStateRecord). r.slot) d.result,
            );
            same_created = ap (λ (r : TaskStateRecord). r.sys_created) d.result;
            stored = d.stored;
          }
    ]
