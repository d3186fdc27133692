-- ===== src/Plane/Ageing.antt =====
-- How the rows of the memory table change with the statements on them.
use nomiso.Prelude.{
  ℕ, ◌≤◌, ◌≡◌, refl, ap, sym, subst, ◌∙◌, ◌⊎◌, inl, inr, Bool, true, false, List, [], ◌∷◌, ◌++◌,
  Option, none, some, arith, if◌then◌else◌, Bool-cases, Option-cases,
}
use nomiso.Prelude.Text.{Text, text_eq, text_eq_iff}
use nomiso.Prelude.Table.{
  find, update, update_where, erase, find-update_self, find-update_ne, find-update_where,
  find-update_where-none, find-append_old, find-append_new, find-append_ne, find-erase_self,
  find-erase_ne,
}
use nomiso.Embeddings.{Float}
use nomiso.Memories.{MemoryId}
use nomiso.Plane.{MemoryRecord}

-- What a statement at the instant `now` may do to a row: its identity, its text and the instants of
-- its assertion stay, and its interval is closed at most once, now.
pub record Ages (now : ℕ) (r r' : MemoryRecord) : Type 0 where
  pub same_id : r'.id ≡ r.id
  pub same_category : r'.category ≡ r.category
  pub same_scope : r'.scope ≡ r.scope
  pub same_text : r'.content.text ≡ r.content.text
  pub same_from : r'.valid_from ≡ r.valid_from
  pub same_known : r'.known_at ≡ r.known_at
  pub same_prior : r'.supersedes ≡ r.supersedes
  pub same_created : r'.sys_created ≡ r.sys_created
  pub same_key : r'.idempotency_key ≡ r.idempotency_key
  pub version_le : r.version ≤ r'.version
  pub closing :
      ((r'.sys_closed ≡ r.sys_closed) × (r'.valid_until ≡ r.valid_until))
      ⊎ ((r.sys_closed ≡ none) × (r.valid_until ≡ none) × (r'.sys_closed ≡ some now))

-- A vector, a link or the mark of staleness does not count.
pub Ages-edit :
    {now : ℕ} (r : MemoryRecord) (vector : Option (List Float)) (generation : Option ℕ)
    (successor : Option MemoryId) (mark : Option Bool)
    → Ages now r (record r {
      embedding = vector;
      embedding_generation = generation;
      superseded_by = successor;
      stale = mark;
    })
Ages-edit r vector generation successor mark = record {
  same_id = refl;
  same_category = refl;
  same_scope = refl;
  same_text = refl;
  same_from = refl;
  same_known = refl;
  same_prior = refl;
  same_created = refl;
  same_key = refl;
  version_le = omega arith;
  closing = inl (refl, refl);
}

pub Ages-refl : {now : ℕ} (r : MemoryRecord) → Ages now r r
Ages-refl r = Ages-edit r r.embedding r.embedding_generation r.superseded_by r.stale

closing_trans :
    {now : ℕ} (a b c : MemoryRecord)
    → ((b.sys_closed ≡ a.sys_closed) × (b.valid_until ≡ a.valid_until))
      ⊎ ((a.sys_closed ≡ none) × (a.valid_until ≡ none) × (b.sys_closed ≡ some now))
    → ((c.sys_closed ≡ b.sys_closed) × (c.valid_until ≡ b.valid_until))
      ⊎ ((b.sys_closed ≡ none) × (b.valid_until ≡ none) × (c.sys_closed ≡ some now))
    → ((c.sys_closed ≡ a.sys_closed) × (c.valid_until ≡ a.valid_until))
      ⊎ ((a.sys_closed ≡ none) × (a.valid_until ≡ none) × (c.sys_closed ≡ some now))
closing_trans a b c (inl (p, q)) (inl (p', q')) = inl (p' ∙ p, q' ∙ q)
closing_trans a b c (inl (p, q)) (inr (x, y, z)) = inr (sym p ∙ x, sym q ∙ y, z)
closing_trans a b c (inr (x, y, z)) (inl (p', q')) = inr (x, y, p' ∙ z)
closing_trans a b c (inr (x, y, z)) (inr (x', y', z')) = inr (x, y, z')

pub Ages-trans : {now : ℕ} {a b c : MemoryRecord} → Ages now a b → Ages now b c → Ages now a c
Ages-trans {a = a} {b = b} {c = c} p q = record {
  same_id = q.same_id ∙ p.same_id;
  same_category = q.same_category ∙ p.same_category;
  same_scope = q.same_scope ∙ p.same_scope;
  same_text = q.same_text ∙ p.same_text;
  same_from = q.same_from ∙ p.same_from;
  same_known = q.same_known ∙ p.same_known;
  same_prior = q.same_prior ∙ p.same_prior;
  same_created = q.same_created ∙ p.same_created;
  same_key = q.same_key ∙ p.same_key;
  version_le = omega arith;
  closing = closing_trans a b c p.closing q.closing;
}

abbrev pub Table : Type 0
Table = List (Text × MemoryRecord)

abbrev pub Aged : ℕ → MemoryRecord → Option MemoryRecord → Type 0
Aged now r o = (r' : MemoryRecord) × (o ≡ some r') × Ages now r r'

abbrev pub Grown : ℕ → Option MemoryRecord → MemoryRecord → Type 0
Grown now o r' = ((r : MemoryRecord) × (o ≡ some r) × Ages now r r') ⊎ (r'.sys_created ≡ some now)

-- A row ages, but for the one that is erased, and what stands under a key is an older row that has
-- aged, or new.
pub record Evolves (now : ℕ) (erased : Option Text) (t t' : Table) : Type 0 where
  pub kept :
      (k : Text) (r : MemoryRecord) → find k t ≡ some r → (erased ≡ some k) ⊎ Aged now r (find k t')
  pub made : (k : Text) (r' : MemoryRecord) → find k t' ≡ some r' → Grown now (find k t) r'

pub Evolves-refl : {now : ℕ} (t : Table) → Evolves now none t t
Evolves-refl t = record {
  kept = λ k r e. inr (r, e, Ages-refl r);
  made = λ k r e. inl (r, e, Ages-refl r);
}

pub Evolves-weaken :
    {now : ℕ} {o : Option Text} {t t' : Table} → Evolves now none t t' → Evolves now o t t'
Evolves-weaken p = record {
  kept = λ k r e. elim (p.kept k r e) [ inl gone ↦ absurd (cc gone) | inr aged ↦ inr aged ];
  made = p.made;
}

module _ {now : ℕ} {a b c : Table} (p : Evolves now none a b) (q : Evolves now none b c) where
  make : (k : Text) (r' : MemoryRecord) → Grown now (find k b) r' → Grown now (find k a) r'
  make k r' (inr created) = inr created
  make k r' (inl (m, e, ages)) = elim (p.made k m e) [
    | inl (r, f, older) ↦ inl (r, f, Ages-trans older ages)
    | inr created ↦ inr (ages.same_created ∙ created)
  ]

  keep :
      (k : Text) (r : MemoryRecord)
      → (none ≡ some k) ⊎ Aged now r (find k b)
      → (none ≡ some k) ⊎ Aged now r (find k c)
  keep k r (inl gone) = inl gone
  keep k r (inr (m, e, ages)) = elim (q.kept k m e) [
    | inl gone ↦ inl gone
    | inr (r', f, more) ↦ inr (r', f, Ages-trans ages more)
  ]

  pub Evolves-trans : Evolves now none a c
  Evolves-trans = record {
    kept = λ k r e. keep k r (p.kept k r e);
    made = λ k r e. make k r (q.made k r e);
  }

module _ {now : ℕ} (key : Text) (f : MemoryRecord → MemoryRecord) (t : Table) (r : MemoryRecord)
    (at_key : find key t ≡ some r) (ages : Ages now r (f r)) where
  kept_update :
      (k : Text) (m : MemoryRecord)
      → find k t ≡ some m
      → (none ≡ some k) ⊎ Aged now m (find k (update key f t))
  kept_update k m e = elim (Bool-cases (text_eq k key)) [
    | inl same ↦
        let here : k ≡ key = (text_eq_iff k key).0 same in
        let found : r ≡ m = cc (rw here at e) in
        inr (
          f r,
          rw here (find-update_self key f t r at_key),
          subst (λ x. Ages now x (f r)) found ages,
        )
    | inr other ↦
        inr (m, find-update_ne key f k t (λ h. cc ((text_eq_iff k key).1 h)) ∙ e, Ages-refl m)
  ]

  made_update :
      (k : Text) (m : MemoryRecord) → find k (update key f t) ≡ some m → Grown now (find k t) m
  made_update k m e = elim (Bool-cases (text_eq k key)) [
    | inl same ↦
        let here : k ≡ key = (text_eq_iff k key).0 same in
        let found : f r ≡ m = cc (find-update_self key f t r at_key, rw here at e) in
        inl (r, rw here at_key, subst (λ x. Ages now r x) found ages)
    | inr other ↦
        inl (m, sym (find-update_ne key f k t (λ h. cc ((text_eq_iff k key).1 h))) ∙ e, Ages-refl m)
  ]

  pub update-Evolves : Evolves now none t (update key f t)
  update-Evolves = record { kept = kept_update; made = made_update }

module _ {now : ℕ} (p : Text → MemoryRecord → Bool) (f : MemoryRecord → MemoryRecord)
    (ages : (r : MemoryRecord) → Ages now r (f r)) where
  Ages-if : (b : Bool) (r : MemoryRecord) → Ages now r (if b then f r else r)
  Ages-if true r = ages r
  Ages-if false r = Ages-refl r

  pub update_where-Evolves : (t : Table) → Evolves now none t (update_where p f t)
  update_where-Evolves t = record {
    kept =
        λ k m e. inr (if p k m then f m else m, find-update_where p f k t m e, Ages-if (p k m) m);
    made = λ k m e. elim (Option-cases (find k t)) [
      | inl gone ↦ absurd (cc (find-update_where-none p f k t gone, e))
      | inr (r, found) ↦ inl (
        r,
        found,
        subst (λ x. Ages now r x) (cc (find-update_where p f k t r found, e)) (Ages-if (p k r) r),
      )
    ];
  }

module _ {now : ℕ} (t : Table) (key : Text) (new : MemoryRecord) (free : find key t ≡ none)
    (created : new.sys_created ≡ some now) where
  made_append :
      (k : Text) (m : MemoryRecord)
      → find k (t ++ (key, new) ∷ []) ≡ some m
      → Grown now (find k t) m
  made_append k m e = elim (Bool-cases (text_eq k key)) [
    | inl same ↦
        let here : k ≡ key = (text_eq_iff k key).0 same in
        let found : new ≡ m = cc (find-append_new key t new free, rw here at e) in
        inr (subst (λ x. x.sys_created ≡ some now) found created)
    | inr other ↦
        inl
          (m, sym (find-append_ne k t key new (λ h. cc ((text_eq_iff k key).1 h))) ∙ e, Ages-refl m)
  ]

  pub append-Evolves : Evolves now none t (t ++ (key, new) ∷ [])
  append-Evolves = record {
    kept = λ k r e. inr (r, find-append_old k t (key, new) r e, Ages-refl r);
    made = made_append;
  }

module _ {now : ℕ} (key : Text) (t : Table) where
  kept_erase :
      (k : Text) (m : MemoryRecord)
      → find k t ≡ some m
      → (some key ≡ some k) ⊎ Aged now m (find k (erase key t))
  kept_erase k m e = elim (Bool-cases (text_eq k key)) [
    | inl same ↦ inl (ap some (sym ((text_eq_iff k key).0 same)))
    | inr other ↦
        inr (m, find-erase_ne key k t (λ h. cc ((text_eq_iff k key).1 h)) ∙ e, Ages-refl m)
  ]

  made_erase :
      (k : Text) (m : MemoryRecord) → find k (erase key t) ≡ some m → Grown now (find k t) m
  made_erase k m e = elim (Bool-cases (text_eq k key)) [
    | inl same ↦ absurd (cc (find-erase_self key t, rw ((text_eq_iff k key).0 same) at e))
    | inr other ↦
        inl (m, sym (find-erase_ne key k t (λ h. cc ((text_eq_iff k key).1 h))) ∙ e, Ages-refl m)
  ]

  pub erase-Evolves : Evolves now (some key) t (erase key t)
  erase-Evolves = record { kept = kept_erase; made = made_erase }
