-- ===== src/Plane/Audit.antt =====
-- The system-time lens: what was stored at an instant stays what was stored then.
use nomiso.Prelude.{ℕ, ◌≤◌, ◌<◌, ◌≡◌, refl, sym, ◌∙◌, ◌⊎◌, inl, inr, true, false, some, arith}
use nomiso.Prelude.Text.{Text}
use nomiso.Prelude.Table.{find}
use nomiso.Plane.{MemoryRecord, Plane, Env}
use nomiso.Plane.Lenses.{stored_at}
use nomiso.Plane.Ageing.{Ages, Grown}
use nomiso.Plane.Steps.{Step-Evolves}
use nomiso.Plane.World.{Step, erased_by, Run, here, next, Erases}

-- The parts of a record that no later statement changes.
pub record SameAssertion (r r' : MemoryRecord) : Type 0 where
  pub same_id : r'.id ≡ r.id
  pub same_category : r'.category ≡ r.category
  pub same_scope : r'.scope ≡ r.scope
  pub same_text : r'.content.text ≡ r.content.text
  pub same_from : r'.valid_from ≡ r.valid_from
  pub same_known : r'.known_at ≡ r.known_at
  pub same_prior : r'.supersedes ≡ r.supersedes

Ages-SameAssertion : {now : ℕ} {a b : MemoryRecord} → Ages now a b → SameAssertion a b
Ages-SameAssertion p = record {
  same_id = p.same_id;
  same_category = p.same_category;
  same_scope = p.same_scope;
  same_text = p.same_text;
  same_from = p.same_from;
  same_known = p.same_known;
  same_prior = p.same_prior;
}

SameAssertion-trans :
    {a b c : MemoryRecord} → SameAssertion a b → SameAssertion b c → SameAssertion a c
SameAssertion-trans p q = record {
  same_id = q.same_id ∙ p.same_id;
  same_category = q.same_category ∙ p.same_category;
  same_scope = q.same_scope ∙ p.same_scope;
  same_text = q.same_text ∙ p.same_text;
  same_from = q.same_from ∙ p.same_from;
  same_known = q.same_known ∙ p.same_known;
  same_prior = q.same_prior ∙ p.same_prior;
}

SameAssertion-refl : (r : MemoryRecord) → SameAssertion r r
SameAssertion-refl r = record {
  same_id = refl;
  same_category = refl;
  same_scope = refl;
  same_text = refl;
  same_from = refl;
  same_known = refl;
  same_prior = refl;
}

-- The lens of an earlier instant sees the same of a row before and after.
stored_at-Ages :
    (u now : ℕ) (r r' : MemoryRecord)
    → u < now
    → Ages now r r'
    → stored_at (some u) r' ≡ stored_at (some u) r
unfolding stored_at
stored_at-Ages u now r r' early ages = elim ages.closing [
  | inl (same, _) ↦ rw (ages.same_created, ages.same_known, same) refl
  | inr (unclosed, _, closes) ↦
      rw (ages.same_created, ages.same_known, unclosed, closes) (ground arith)
]

stored_at_new :
    (u now : ℕ) (r : MemoryRecord)
    → u < now
    → r.sys_created ≡ some now
    → stored_at (some u) r ≡ false
unfolding stored_at
stored_at_new u now r early created = rw created (ground arith)

-- The row under a key, as the lens of the instant sees it.
pub record Seen (u : ℕ) (k : Text) (s : Plane) (r : MemoryRecord) : Type 0 where
  pub under : find k s.memories ≡ some r
  pub stored : stored_at (some u) r ≡ true

abbrev SeenAs : ℕ → Text → Plane → MemoryRecord → Type 0
SeenAs u k s r = (m : MemoryRecord) × Seen u k s m × SameAssertion m r

abbrev StillSeen : ℕ → Text → Plane → MemoryRecord → Type 0
StillSeen u k t r = (m : MemoryRecord) × Seen u k t m × SameAssertion r m

module _ (e : Env) (u now : ℕ) (k : Text) (early : u < now) {s t : Plane}
    (st : Step e now s t) where
  Grown-back :
      (r : MemoryRecord)
      → stored_at (some u) r ≡ true
      → Grown now (find k s.memories) r
      → SeenAs u k s r
  Grown-back r q (inl (m, f, ages)) = (
    m,
    record { under = f; stored = sym (stored_at-Ages u now m r early ages) ∙ q },
    Ages-SameAssertion ages,
  )
  Grown-back r q (inr created) = absurd (cc (stored_at_new u now r early created, q))

  step_back : (r : MemoryRecord) → Seen u k t r → SeenAs u k s r
  step_back r h = Grown-back r h.stored ((Step-Evolves e now st).made k r h.under)

  step_on : (r : MemoryRecord) → Seen u k s r → (erased_by st ≡ some k) ⊎ StillSeen u k t r
  step_on r h = elim ((Step-Evolves e now st).kept k r h.under) [
    | inl gone ↦ inl gone
    | inr (m, f, ages) ↦ inr (
      m,
      record { under = f; stored = stored_at-Ages u now r m early ages ∙ h.stored },
      Ages-SameAssertion ages,
    )
  ]

run_time : {e : Env} {from : ℕ} {s : Plane} {at : ℕ} {t : Plane} → Run e from s at t → from ≤ at
run_time here = omega arith
run_time (next r le st) = omega (arith, run_time r)

module _ {e : Env} {from : ℕ} {s : Plane} (u : ℕ) (k : Text) (early : u < from) where
  run_back :
      {at : ℕ} {t : Plane} → Run e from s at t → (r : MemoryRecord) → Seen u k t r → SeenAs u k s r
  run_back here r h = (r, h, SameAssertion-refl r)
  run_back (next {at} {now} run le st) r h =
      let (m, g, same) = step_back e u now k (omega (arith, run_time run)) st r h in
      let (m', g', same') = run_back run m g in (m', g', SameAssertion-trans same' same)

  run_on :
      {at : ℕ} {t : Plane} (run : Run e from s at t) (r : MemoryRecord)
      → Seen u k s r
      → Erases k run ⊎ StillSeen u k t r
  run_on here r h = inr (r, h, SameAssertion-refl r)
  run_on (next {at} {now} run le st) r h = elim (run_on run r h) [
    | inl gone ↦ inl (inl gone)
    | inr (m, g, same) ↦ elim (step_on e u now k (omega (arith, run_time run)) st m g) [
      | inl gone ↦ inl (inr gone)
      | inr (m', g', same') ↦ inr (m', g', SameAssertion-trans same same')
    ]
  ]

-- The view of the store as of an earlier instant is kept by every run of puts, supersessions,
-- closes, annotations, reindexing and erasures at later instants: a row that the lens of that
-- instant shows after the run was shown before, with the same assertion, and a row that was shown is
-- still shown with the same assertion, unless the run erases it.
pub run-AsStored :
    {e : Env} {from : ℕ} {s : Plane} {at : ℕ} {t : Plane} (u : ℕ) (k : Text)
    (run : Run e from s at t)
    → u < from
    → ((r : MemoryRecord) → Seen u k t r → (m : MemoryRecord) × Seen u k s m × SameAssertion m r)
      × ((r : MemoryRecord)
          → Seen u k s r
          → Erases k run ⊎ ((m : MemoryRecord) × Seen u k t m × SameAssertion r m))
run-AsStored u k run early = (run_back u k early run, run_on u k early run)
