-- ===== src/Plane/Edits.antt =====
-- How the edits of the plane age single records: closes, annotations, marks and installed vectors.
use nomiso.Prelude.{
  ℕ, ◌≡◌, refl, inl, inr, true, List, [], ◌∷◌, Option, none, some, arith, Bool-cases, Option-cases,
  subst,
}
use nomiso.Prelude.Text.{Text, text_eq, text_eq_iff}
use nomiso.Prelude.Table.{find}
use nomiso.Json.{Json}
use nomiso.Plane.{MemoryRecord, StagedVector}
use nomiso.Plane.Staging.{install, with_vector, is_vector_of}
use nomiso.Plane.Supersede.{closed_row}
use nomiso.Plane.Forget.{is_open}
use nomiso.Plane.Annotate.{AnnotateRequest, annotated}
use nomiso.Plane.Ageing.{Ages, Ages-edit, Ages-refl, Ages-trans, Evolves, Table}

pub closed_row-Ages :
    (now at : ℕ) (r : MemoryRecord) → is_open r ≡ true → Ages now r (closed_row now at r)
closed_row-Ages now at r h =
    let unclosed : r.sys_closed ≡ none = ground arith in
    let endless : r.valid_until ≡ none = ground arith in
    record {
      same_id = refl;
      same_category = refl;
      same_scope = refl;
      same_text = refl;
      same_from = refl;
      same_known = refl;
      same_prior = refl;
      same_created = refl;
      same_key = refl;
      version_le = omega arith;
      closing = inr (unclosed, endless, refl);
    }

pub annotated-Ages :
    (now : ℕ) (req : AnnotateRequest) (attrs : Option Json) (r : MemoryRecord)
    → Ages now r (annotated now req attrs r)
unfolding annotated
annotated-Ages now req attrs r = record {
  same_id = refl;
  same_category = refl;
  same_scope = refl;
  same_text = refl;
  same_from = refl;
  same_known = refl;
  same_prior = refl;
  same_created = refl;
  same_key = refl;
  version_le = ground arith;
  closing = inl (refl, refl);
}

pub with_vector-Ages :
    (now n : ℕ) (vectors : List StagedVector) (k : Text) (r : MemoryRecord)
    → Ages now r (with_vector n vectors k r)
unfolding with_vector
with_vector-Ages now n [] k r = Ages-refl r
with_vector-Ages now n (v ∷ vectors) k r = elim (Bool-cases (is_vector_of n k v)) [
  | inl q ↦ rw q (
      Ages-trans (Ages-edit r (some v.vector) (some n) r.superseded_by r.stale) (
        with_vector-Ages now n vectors k
          (record r { embedding = some v.vector; embedding_generation = some n })))
  | inr q ↦ rw q (with_vector-Ages now n vectors k r)
]

pub find-install :
    (n : ℕ) (vectors : List StagedVector) (k : Text) (t : Table) (r : MemoryRecord)
    → find k t ≡ some r
    → find k (install n vectors t) ≡ some (with_vector n vectors k r)
unfolding find install
find-install n vectors k [] r e = cc
find-install n vectors k ((j, m) ∷ t) r e = elim (Bool-cases (text_eq j k)) [
  | inl a ↦
      let same : j ≡ k = (text_eq_iff j k).0 a in let held : m ≡ r = cc (rw a at e) in rw a (cc)
  | inr a ↦ rw a (find-install n vectors k t r (rw a at e))
]

pub find-install-none :
    (n : ℕ) (vectors : List StagedVector) (k : Text) (t : Table)
    → find k t ≡ none
    → find k (install n vectors t) ≡ none
unfolding find install
find-install-none n vectors k [] e = refl
find-install-none n vectors k ((j, m) ∷ t) e = ground (arith, find-install-none n vectors k t)

pub install-Evolves :
    {now : ℕ} (n : ℕ) (vectors : List StagedVector) (t : Table)
    → Evolves now none t (install n vectors t)
install-Evolves {now} n vectors t = record {
  kept = λ k r e. inr (
    with_vector n vectors k r,
    find-install n vectors k t r e,
    with_vector-Ages now n vectors k r,
  );
  made = λ k m e. elim (Option-cases (find k t)) [
    | inl gone ↦ absurd (cc (find-install-none n vectors k t gone, e))
    | inr (r, found) ↦ inl (
      r,
      found,
      subst (λ x. Ages now r x) (cc (find-install n vectors k t r found, e))
          (with_vector-Ages now n vectors k r),
    )
  ];
}
