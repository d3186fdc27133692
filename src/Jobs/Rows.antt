-- ===== src/Jobs/Rows.antt =====
-- The invariant of a row of the job table, how a row may evolve, and what a keyed statement does
-- to the table.
use nomiso.Prelude.{
  ◌≤◌, ◌≡◌, refl, ap, sym, ◌∙◌, ◌≢◌, inl, inr, Bool, true, false, List, [], ◌∷◌, none, some, arith,
  if◌then◌else◌, is_some, All, Bool-cases, subst, ◌++◌, All-map,
}
use nomiso.Prelude.Text.{Text, text_eq, text_eq_iff, text_eq_refl}
use nomiso.Errors.{ok}
use nomiso.Jobs.{JobRecord, terminal}
use nomiso.Jobs.Journal.{JobRow, is_pending, is_leased, find, update, job_bare_key, tomb}

-- What holds of every row between two statements.
pub record RowOk (r : JobRow) : Type 0 where
  -- the id names the row
  pub named : job_bare_key r.job.id ≡ ok r.key
  -- every lease counts one attempt and one fence, within the budget
  pub fenced : r.attempts ≡ r.fence
  pub budgeted : r.attempts ≤ r.budget.max_attempts
  -- a pending job has no owner
  pub unowned : is_pending r.state ≡ true → r.owner ≡ none
  -- a leased job has an owner and an expiry
  pub owned : is_leased r.state ≡ true → is_some r.owner ≡ true
  pub expiring : is_leased r.state ≡ true → is_some r.lease_until ≡ true
  -- a live job holds its deduplication slot, a terminal one has left it
  pub slotted : terminal r.state ≡ false → r.dedup_slot ≡ r.dedup_key
  pub tombed : terminal r.state ≡ true → r.dedup_slot ≡ tomb r.key

-- How a row may change: its identity and its budget stay, the fence only grows, and a terminal row
-- is final.
pub record Evolves (r r' : JobRow) : Type 0 where
  pub same_key : r'.key ≡ r.key
  pub same_id : r'.job.id ≡ r.job.id
  pub same_scope : r'.scope ≡ r.scope
  pub same_kind : r'.kind ≡ r.kind
  pub same_dedup : r'.dedup_key ≡ r.dedup_key
  pub same_inputs : r'.inputs ≡ r.inputs
  pub same_budget : r'.budget ≡ r.budget
  pub same_expiry : r'.expires_at ≡ r.expires_at
  pub fence_grows : r.fence ≤ r'.fence
  pub final : terminal r.state ≡ true → r' ≡ r

pub Evolves-refl : (r : JobRow) → Evolves r r
Evolves-refl r = record {
  same_key = refl;
  same_id = refl;
  same_scope = refl;
  same_kind = refl;
  same_dedup = refl;
  same_inputs = refl;
  same_budget = refl;
  same_expiry = refl;
  fence_grows = omega arith;
  final = λ h. refl;
}

pub Evolves-trans : {a b c : JobRow} → Evolves a b → Evolves b c → Evolves a c
Evolves-trans {a} {b} {c} e d = record {
  same_key = d.same_key ∙ e.same_key;
  same_id = d.same_id ∙ e.same_id;
  same_scope = d.same_scope ∙ e.same_scope;
  same_kind = d.same_kind ∙ e.same_kind;
  same_dedup = d.same_dedup ∙ e.same_dedup;
  same_inputs = d.same_inputs ∙ e.same_inputs;
  same_budget = d.same_budget ∙ e.same_budget;
  same_expiry = d.same_expiry ∙ e.same_expiry;
  fence_grows = omega arith;
  final = λ h.
      let b_is_a = e.final h in d.final (ap (λ (r : JobRow). terminal r.state) b_is_a ∙ h) ∙ b_is_a;
}

-- A job as some client read it, against the row as it is now.
pub record Earlier (job : JobRecord) (r : JobRow) : Type 0 where
  pub same_id : job.id ≡ r.job.id
  pub same_scope : job.scope ≡ r.scope
  pub same_kind : job.kind ≡ r.kind
  pub same_dedup : job.dedup_key ≡ r.dedup_key
  pub same_inputs : job.inputs ≡ r.inputs
  pub same_budget : job.budget ≡ r.budget
  pub same_expiry : job.expires_at ≡ r.expires_at
  pub fence_le : job.fence ≤ r.fence
  pub fenced : job.attempts ≡ job.fence

pub Earlier-now : (r : JobRow) → RowOk r → Earlier r.job r
Earlier-now r v = record {
  same_id = refl;
  same_scope = refl;
  same_kind = refl;
  same_dedup = refl;
  same_inputs = refl;
  same_budget = refl;
  same_expiry = refl;
  fence_le = omega arith;
  fenced = v.fenced;
}

pub Earlier-Evolves :
    (job : JobRecord) (r r' : JobRow) → Earlier job r → Evolves r r' → Earlier job r'
Earlier-Evolves job r r' e d = record {
  same_id = e.same_id ∙ sym d.same_id;
  same_scope = e.same_scope ∙ sym d.same_scope;
  same_kind = e.same_kind ∙ sym d.same_kind;
  same_dedup = e.same_dedup ∙ sym d.same_dedup;
  same_inputs = e.same_inputs ∙ sym d.same_inputs;
  same_budget = e.same_budget ∙ sym d.same_budget;
  same_expiry = e.same_expiry ∙ sym d.same_expiry;
  fence_le = omega arith;
  fenced = e.fenced;
}

pub find-key : (key : Text) (rows : List JobRow) (r : JobRow) → find key rows ≡ some r → r.key ≡ key
unfolding find
find-key key [] r h = cc
find-key key (x ∷ rows) r h = ground (arith, text_eq_iff x.key key, find-key key rows r)

module _ (key : Text) (p : JobRow → Bool) (f : JobRow → JobRow) where
  -- Rows under other keys stay.
  pub find-update_ne :
      ((r : JobRow) → (f r).key ≡ r.key)
      → (j : Text) (rows : List JobRow) → j ≢ key
      → find j (update key p f rows) ≡ find j rows
  unfolding find update
  find-update_ne keeps j [] n = refl
  find-update_ne keeps j (x ∷ rows) n = ground (
    arith,
    text_eq_iff x.key key,
    text_eq_iff x.key j,
    text_eq_iff (f x).key j,
    keeps x,
    find-update_ne keeps j rows n,
  )

  -- The row under the key is changed where the condition holds.
  pub find-update_self :
      ((r : JobRow) → (f r).key ≡ r.key)
      → (rows : List JobRow) (r : JobRow) → find key rows ≡ some r
      → find key (update key p f rows) ≡ some (if p r then f r else r)
  unfolding find update
  find-update_self keeps [] r h = cc
  find-update_self keeps (x ∷ rows) r h = ground (
    arith,
    text_eq_iff x.key key,
    text_eq_iff (f x).key key,
    keeps x,
    find-update_self keeps rows r,
  )

  -- A property of all rows is kept if it is kept at the row under the key.
  pub All-update {ℓ} :
      (P : JobRow → Type ℓ) (rows : List JobRow)
      → All P rows
      → ((r : JobRow) → find key rows ≡ some r → p r ≡ true → P r → P (f r))
      → All P (update key p f rows)
  unfolding update find
  All-update P [] h k = tt
  All-update P (x ∷ rows) h k = elim (Bool-cases (text_eq x.key key)) [
    | inl e ↦ elim (Bool-cases (p x)) [
      | inl q ↦ rw (e, q) (k x (rw e) q h.0, h.1)
      | inr q ↦ rw (e, q) h
    ]
    | inr e ↦ rw e (h.0, All-update P rows h.1 (λ r found. k r (rw e found)))
  ]

pub All-find {ℓ} :
    (P : JobRow → Type ℓ) (key : Text) (rows : List JobRow) (r : JobRow)
    → All P rows
    → find key rows ≡ some r
    → P r
unfolding find
All-find P key [] r h e = absurd (cc)
All-find P key (x ∷ rows) r h e = elim (Bool-cases (text_eq x.key key)) [
  | inl q ↦ subst P (cc (e, q)) h.0
  | inr q ↦ All-find P key rows r h.1 (rw q at e)
]

-- No two rows share a key.
abbrev pub DistinctKeys : List JobRow → Type 0
DistinctKeys [] = Unit
DistinctKeys (r ∷ rows) = (find r.key rows ≡ none) × DistinctKeys rows

pub find-update-none :
    (key : Text) (p : JobRow → Bool) (f : JobRow → JobRow)
    → ((r : JobRow) → (f r).key ≡ r.key)
    → (j : Text) (rows : List JobRow) → find j rows ≡ none
    → find j (update key p f rows) ≡ none
unfolding find update
find-update-none key p f keeps j [] e = refl
find-update-none key p f keeps j (x ∷ rows) e =
    ground (arith, keeps x, find-update-none key p f keeps j rows)

pub DistinctKeys-update :
    (key : Text) (p : JobRow → Bool) (f : JobRow → JobRow)
    → ((r : JobRow) → (f r).key ≡ r.key)
    → (rows : List JobRow) → DistinctKeys rows
    → DistinctKeys (update key p f rows)
unfolding update
DistinctKeys-update key p f keeps [] d = tt
DistinctKeys-update key p f keeps (x ∷ rows) d = ground (
  arith,
  keeps x,
  find-update-none key p f keeps x.key rows d.0,
  DistinctKeys-update key p f keeps rows d.1,
)

find-append_none :
    (key : Text) (rows : List JobRow) (row : JobRow)
    → find key rows ≡ none
    → key ≢ row.key
    → find key (rows ++ row ∷ []) ≡ none
unfolding find
find-append_none key [] row e n = ground (arith, text_eq_iff row.key key)
find-append_none key (x ∷ rows) row e n = ground (arith, find-append_none key rows row)

other_key :
    (x row : JobRow) (rows : List JobRow) → find row.key (x ∷ rows) ≡ none → x.key ≡ row.key → ⊥
unfolding find
other_key x row rows fresh e = ground (arith, text_eq_iff x.key row.key)

pub DistinctKeys-append :
    (rows : List JobRow) (row : JobRow)
    → DistinctKeys rows
    → find row.key rows ≡ none
    → DistinctKeys (rows ++ row ∷ [])
unfolding find
DistinctKeys-append [] row d fresh = (refl, tt)
DistinctKeys-append (x ∷ rows) row d fresh = (
  find-append_none x.key rows row d.0 (λ e. other_key x row rows fresh e),
  DistinctKeys-append rows row d.1 (ground arith),
)

clash :
    (x r : JobRow) (rows : List JobRow)
    → find x.key rows ≡ none
    → find r.key rows ≡ some r
    → x.key ≡ r.key
    → ⊥
clash x r rows fresh e same = cc (ap (λ (t : Text). find t rows) same)

later :
    (x r : JobRow) (rows : List JobRow)
    → find x.key rows ≡ none
    → find r.key rows ≡ some r
    → find r.key (x ∷ rows) ≡ some r
unfolding find
later x r rows fresh e = elim (Bool-cases (text_eq x.key r.key)) [
  | inl same ↦ absurd (clash x r rows fresh e ((text_eq_iff x.key r.key).0 same))
  | inr other ↦ rw other e
]

-- A row of a table with distinct keys is the row under its key.
pub find_self : (rows : List JobRow) → DistinctKeys rows → All (λ r. find r.key rows ≡ some r) rows
unfolding find
find_self [] d = tt
find_self (x ∷ rows) d = (
  ground (arith, text_eq_refl x.key),
  All-map (λ r. find r.key rows ≡ some r) (λ r. find r.key (x ∷ rows) ≡ some r) rows
      (λ r e. later x r rows d.0 e) (find_self rows d.1),
)
