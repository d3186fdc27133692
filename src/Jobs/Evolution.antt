-- ===== src/Jobs/Evolution.antt =====
-- How the table of jobs evolves: every row stays and evolves, and no two live rows share a
-- deduplication key.
use nomiso.Prelude.{
  ◌≡◌, sym, ◌∙◌, inl, inr, ◌⊎◌, Bool, false, List, [], ◌∷◌, ◌++◌, some, arith, Bool-cases,
  Option-cases, All, ap, subst,
}
use nomiso.Prelude.Text.{Text, text_eq, text_eq_iff}
use nomiso.Jobs.{terminal}
use nomiso.Jobs.Journal.{JobRow, find, update}
use nomiso.Jobs.Enqueue.{slot_taken}
use nomiso.Jobs.Rows.{RowOk, Evolves, Evolves-refl, Evolves-trans, All-find, find-update-none}

pub some_injective : (a b : JobRow) → some a ≡ some b → a ≡ b
some_injective a b h = cc

-- Every row is still there, and has evolved.
abbrev pub EvolvesAll : List JobRow → List JobRow → Type 0
EvolvesAll rows rows' =
    (key : Text) (r : JobRow)
    → find key rows ≡ some r
    → (r' : JobRow) × (find key rows' ≡ some r') × Evolves r r'

pub EvolvesAll-refl : (rows : List JobRow) → EvolvesAll rows rows
EvolvesAll-refl rows key r e = (r, e, Evolves-refl r)

pub EvolvesAll-trans : (a b c : List JobRow) → EvolvesAll a b → EvolvesAll b c → EvolvesAll a c
EvolvesAll-trans a b c f g key r e =
    let (r₁, e₁, v₁) = f key r e in let (r₂, e₂, v₂) = g key r₁ e₁ in (r₂, e₂, Evolves-trans v₁ v₂)

-- No two live rows share a deduplication key.
abbrev pub OneLive : List JobRow → Type 0
OneLive rows =
    (j k : Text) (a b : JobRow)
    → find j rows ≡ some a
    → find k rows ≡ some b
    → terminal a.state ≡ false
    → terminal b.state ≡ false
    → a.dedup_key ≡ b.dedup_key
    → j ≡ k

-- Every row of the second table stands for a row of the first.
abbrev pub Origins : List JobRow → List JobRow → Type 0
Origins rows rows' =
    (key : Text) (r' : JobRow) → find key rows' ≡ some r' → (r : JobRow) × (find key rows ≡ some r)

origin :
    (rows rows' : List JobRow) (key : Text) (r' : JobRow)
    → EvolvesAll rows rows'
    → Origins rows rows'
    → find key rows' ≡ some r'
    → (r : JobRow) × (find key rows ≡ some r) × Evolves r r'
origin rows rows' key r' f o e =
    let (r, d) = o key r' e in
    let (r₁, e₁, v) = f key r d in (r, d, subst (Evolves r) (some_injective r₁ r' (sym e₁ ∙ e)) v)

live_before : (r r' : JobRow) → Evolves r r' → terminal r'.state ≡ false → terminal r.state ≡ false
live_before r r' v t = elim (Bool-cases (terminal r.state)) [
  | inr q ↦ q
  | inl q ↦ absurd (cc (ap (λ (x : JobRow). terminal x.state) (v.final q), q, t))
]

pub OneLive-Origins :
    (rows rows' : List JobRow)
    → EvolvesAll rows rows'
    → Origins rows rows'
    → OneLive rows
    → OneLive rows'
OneLive-Origins rows rows' f o h j k a b ea eb la lb same =
    let (a₀, da, va) = origin rows rows' j a f o ea in
    let (b₀, db, vb) = origin rows rows' k b f o eb in
    h j k a₀ b₀ da db (live_before a₀ a va la) (live_before b₀ b vb lb)
      (sym va.same_dedup ∙ same ∙ vb.same_dedup)

pub update-Origins :
    (key : Text) (p : JobRow → Bool) (f : JobRow → JobRow)
    → ((r : JobRow) → (f r).key ≡ r.key)
    → (rows : List JobRow) → Origins rows (update key p f rows)
update-Origins key p f keeps rows j r' e = elim (Option-cases (find j rows)) [
  | inr (r, d) ↦ (r, d)
  | inl d ↦ absurd (cc (find-update-none key p f keeps j rows d))
]

append_origin :
    (rows : List JobRow) (row : JobRow) (key : Text) (r : JobRow)
    → find key (rows ++ row ∷ []) ≡ some r
    → (find key rows ≡ some r) ⊎ ((r ≡ row) × (row.key ≡ key))
unfolding find
append_origin [] row key r e = elim (Bool-cases (text_eq row.key key)) [
  | inl q ↦ inr (sym (some_injective row r (rw q at e)), (text_eq_iff row.key key).0 q)
  | inr q ↦ absurd (cc (rw q at e))
]
append_origin (x ∷ rows) row key r e = elim (Bool-cases (text_eq x.key key)) [
  | inl q ↦ inl (rw q (rw q at e))
  | inr q ↦ rw q (append_origin rows row key r (rw q at e))
]

free_slot :
    (slot key : Text) (rows : List JobRow) (r : JobRow)
    → slot_taken slot rows ≡ false
    → find key rows ≡ some r
    → r.dedup_slot ≡ slot
    → ⊥
unfolding slot_taken find
free_slot slot key [] r s e d = cc
free_slot slot key (x ∷ rows) r s e d =
    ground (arith, text_eq_iff x.dedup_slot slot, free_slot slot key rows r)

-- A live row does not share the key of an inserted one.
not_live :
    (rows : List JobRow) (row r : JobRow) (key : Text)
    → All RowOk rows
    → slot_taken row.dedup_slot rows ≡ false
    → row.dedup_slot ≡ row.dedup_key
    → find key rows ≡ some r
    → terminal r.state ≡ false
    → r.dedup_key ≡ row.dedup_key
    → ⊥
not_live rows row r key rows_ok free slot e live same =
    free_slot row.dedup_slot key rows r free e
      ((All-find RowOk key rows r rows_ok e).slotted live ∙ same ∙ sym slot)

pub OneLive-append :
    (rows : List JobRow) (row : JobRow)
    → All RowOk rows
    → slot_taken row.dedup_slot rows ≡ false
    → row.dedup_slot ≡ row.dedup_key
    → OneLive rows
    → OneLive (rows ++ row ∷ [])
OneLive-append rows row rows_ok free slot h j k a b ea eb la lb same =
    elim (append_origin rows row j a ea) [
      | inl da ↦ elim (append_origin rows row k b eb) [
        | inl db ↦ h j k a b da db la lb same
        | inr (x, y) ↦ absurd (
            not_live rows row a j rows_ok free slot da la
              (same ∙ ap (λ (r : JobRow). r.dedup_key) x))
      ]
      | inr (x, y) ↦ elim (append_origin rows row k b eb) [
        | inl db ↦ absurd (
            not_live rows row b k rows_ok free slot db lb
              (sym same ∙ ap (λ (r : JobRow). r.dedup_key) x))
        | inr (u, v) ↦ sym y ∙ v
      ]
    ]
