-- ===== src/Jobs/Invariant.antt =====
-- The journal's invariant under every interleaving, and the evolution of its rows.
use nomiso.Prelude.{
  ℕ, ◌<◌, ◌≡◌, refl, sym, ◌∙◌, ap, subst, inl, inr, Bool, true, List, [], ◌∷◌, ◌++◌, some, arith,
  All, All-append, Bool-cases, none, false,
}
use nomiso.Prelude.Text.{Text, text_eq, text_eq_iff}
use nomiso.Errors.{ok, Result}
use nomiso.Host.{Host}
use nomiso.Jobs.{JobRecord, JobInput, EnqueueJobRequest, validate_enqueue}
use nomiso.Jobs.Journal.{JobRow, find, update, job_bare_key}
use nomiso.Jobs.Enqueue.{new_row, slot_taken}
use nomiso.Jobs.Rows.{
  RowOk, Evolves-refl, Earlier, Earlier-Evolves, find-update_ne, find-update_self, All-update,
  All-find, DistinctKeys, DistinctKeys-update, DistinctKeys-append,
}
use nomiso.Jobs.Transitions.{Keeps}
use nomiso.Jobs.World.{World, In, IsPlainKey}
use nomiso.Jobs.Evolution.{
  EvolvesAll, EvolvesAll-refl, OneLive, OneLive-Origins, some_injective, update-Origins,
  OneLive-append,
}

-- A job that was read is an earlier state of a row that is still there.
abbrev pub Tracked : List JobRow → JobRecord → Type 0
Tracked rows job = (r : JobRow) × (find r.key rows ≡ some r) × Earlier job r

pub record Inv (w : World) : Type 0 where
  pub rows : All RowOk w.store.jobs
  pub distinct : DistinctKeys w.store.jobs
  -- no two live rows share a deduplication key
  pub one_live : OneLive w.store.jobs
  pub snapshots : All (Tracked w.store.jobs) w.seen

Tracked-EvolvesAll :
    (rows rows' : List JobRow) (job : JobRecord)
    → EvolvesAll rows rows'
    → Tracked rows job
    → Tracked rows' job
Tracked-EvolvesAll rows rows' job f (r, e, v) =
    let (r', e', d) = f r.key r e in
    (
      r',
      subst (λ (t : Text). find t rows' ≡ some r') (sym d.same_key) e',
      Earlier-Evolves job r r' v d,
    )

pub All-Tracked :
    (rows rows' : List JobRow) (seen : List JobRecord)
    → EvolvesAll rows rows'
    → All (Tracked rows) seen
    → All (Tracked rows') seen
All-Tracked rows rows' [] f h = tt
All-Tracked rows rows' (job ∷ seen) f h =
    (Tracked-EvolvesAll rows rows' job f h.0, All-Tracked rows rows' seen f h.1)

-- What a step owes: the rows stay well formed and evolve.
pub record Advances (rows rows' : List JobRow) : Type 0 where
  pub rows_ok : All RowOk rows'
  pub distinct : DistinctKeys rows'
  pub evolution : EvolvesAll rows rows'
  pub slots : OneLive rows → OneLive rows'

pub Advances-refl : (rows : List JobRow) → All RowOk rows → DistinctKeys rows → Advances rows rows
Advances-refl rows h d = record {
  rows_ok = h;
  distinct = d;
  evolution = EvolvesAll-refl rows;
  slots = λ s. s;
}

module _ (key : Text) (p : JobRow → Bool) (f : JobRow → JobRow)
    (keeps : (r : JobRow) → (f r).key ≡ r.key) where
  update-EvolvesAll :
      (rows : List JobRow)
      → All RowOk rows
      → ((r : JobRow) → find key rows ≡ some r → RowOk r → p r ≡ true → Keeps r (f r))
      → EvolvesAll rows (update key p f rows)
  update-EvolvesAll rows ok_rows k = λ j r e. elim (Bool-cases (text_eq j key)) [
    | inl same ↦
        let je : j ≡ key = (text_eq_iff j key).0 same in
        let e' : find key rows ≡ some r = rw je at e in
        let v = All-find RowOk key rows r ok_rows e' in
        let g = find-update_self key p f keeps rows r e' in
        rw je (elim (Bool-cases (p r)) [
          | inl q ↦ (f r, rw q at g, (k r e' v q).1)
          | inr q ↦ (r, rw q at g, Evolves-refl r)
        ])
    | inr other ↦ (
      r,
      find-update_ne key p f keeps j rows (λ d. cc ((text_eq_iff j key).1 d)) ∙ e,
      Evolves-refl r,
    )
  ]

  pub update-Advances :
      (rows : List JobRow)
      → All RowOk rows
      → DistinctKeys rows
      → ((r : JobRow) → find key rows ≡ some r → RowOk r → p r ≡ true → Keeps r (f r))
      → Advances rows (update key p f rows)
  update-Advances rows ok_rows distinct k = record {
    distinct = DistinctKeys-update key p f keeps rows distinct;
    rows_ok = All-update key p f RowOk rows ok_rows (λ r e q v. (k r e v q).0);
    evolution = update-EvolvesAll rows ok_rows k;
    slots =
        OneLive-Origins rows (update key p f rows) (update-EvolvesAll rows ok_rows k)
          (update-Origins key p f keeps rows);
  }

ok_injective : (a b : Text) → ◌≡◌ {A = Result Text} (ok a) (ok b) → a ≡ b
ok_injective a b h = cc

-- The row that a client's read stands for is the row under its key.
pub snapshot_row :
    (rows : List JobRow) (job : JobRecord) (own : Text) (r : JobRow)
    → All RowOk rows
    → Tracked rows job
    → job_bare_key job.id ≡ ok own
    → find own rows ≡ some r
    → Earlier job r × (own ≡ r.key)
snapshot_row rows job own r rows_ok (r₀, e₀, v₀) named e =
    let own_key : own ≡ r₀.key =
      ok_injective own r₀.key (
        sym named
        ∙ ap job_bare_key v₀.same_id
        ∙ (All-find RowOk r₀.key rows r₀ rows_ok e₀).named) in
    let same : r₀ ≡ r =
      some_injective r₀ r (sym e₀ ∙ ap (λ (t : Text). find t rows) (sym own_key) ∙ e) in
    (subst (Earlier job) same v₀, own_key ∙ ap (λ (x : JobRow). x.key) same)

pub In-All :
    (rows : List JobRow) (seen : List JobRecord) (job : JobRecord)
    → All (Tracked rows) seen
    → In job seen
    → Tracked rows job
In-All rows [] job h i = absurd i
In-All rows (x ∷ seen) job h (inl e) = subst (Tracked rows) (sym e) h.0
In-All rows (x ∷ seen) job h (inr i) = In-All rows seen job h.1 i

find-append :
    (key : Text) (rows : List JobRow) (row r : JobRow)
    → find key rows ≡ some r
    → find key (rows ++ row ∷ []) ≡ some r
unfolding find
find-append key [] row r e = cc
find-append key (x ∷ rows) row r e = ground (arith, find-append key rows row r)

-- A new row is well formed: its budget was validated, its key is plain.
pub validated_budget :
    (h : Host) (req : EnqueueJobRequest)
    → validate_enqueue h req ≡ ok tt
    → 0 < req.budget.max_attempts
unfolding validate_enqueue
validated_budget h req e = ground arith

pub new_row-RowOk :
    (h : Host) (now : ℕ) (key scope dedup : Text) (inputs : List JobInput) (req : EnqueueJobRequest)
    → IsPlainKey key
    → 0 < req.budget.max_attempts
    → RowOk (new_row h now key scope dedup inputs req)
unfolding new_row
new_row-RowOk h now key scope dedup inputs req plain budget = record {
  named = plain;
  fenced = refl;
  budgeted = omega arith;
  unowned = λ p. refl;
  owned = λ p. cc;
  expiring = λ p. cc;
  slotted = λ p. refl;
  tombed = λ p. cc;
}

pub append-Advances :
    (rows : List JobRow) (row : JobRow)
    → All RowOk rows
    → DistinctKeys rows
    → RowOk row
    → find row.key rows ≡ none
    → slot_taken row.dedup_slot rows ≡ false
    → row.dedup_slot ≡ row.dedup_key
    → Advances rows (rows ++ row ∷ [])
append-Advances rows row rows_ok distinct row_ok fresh free slot = record {
  slots = OneLive-append rows row rows_ok free slot;
  distinct = DistinctKeys-append rows row distinct fresh;
  rows_ok = All-append RowOk rows (row ∷ []) rows_ok (row_ok, tt);
  evolution = λ key r e. (r, find-append key rows row r e, Evolves-refl r);
}
