-- ===== src/Plane/Matches.antt =====
-- When an edge that holds a request's live key answers the request.
use nomiso.Prelude.{
  ℕ, ◌≡◌, ◌⊎◌, refl, ap, sym, ◌∙◌, inl, inr, true, List, [], ◌∷◌, Option, none, some, arith,
  Bool-cases, map,
}
use nomiso.Prelude.Text.{Text, text_eq_iff, text_eq_refl}
use nomiso.Prelude.Sort.{sort}
use nomiso.Errors.{Result, ok, err, idempotency_conflict}
use nomiso.Relations.{
  RelationPredicate, as_str, parse_predicate, EpistemicStatus, status_str, parse_status,
}
use nomiso.Relations.Names.{parse_predicate-as_str, parse_status-status_str}
use nomiso.Plane.{ProducerMeta, RelationshipRecord}
use nomiso.Plane.Edges.{
  PutRelationshipRequest, RelationshipWrite, Witness, witness_of, witness_leb, same_witnesses,
  same_text, same_instant, same_producer, relationship_request_matches, on_taken,
}

-- The edge says what the request says, with the same evidence in some order.
abbrev pub Matches : PutRelationshipRequest → RelationshipRecord → Type 0
Matches req r =
    (r.predicate ≡ req.predicate)
    × (r.epistemic ≡ req.epistemic)
    × (r.valid_until ≡ req.valid_until)
    × (r.producer ≡ req.producer)
    × (sort witness_leb (map witness_of r.evidence)
        ≡ sort witness_leb (map witness_of req.evidence))

-- A replay of the edge if the request asks for one and the edge matches, a conflict otherwise.
abbrev pub Answered :
    PutRelationshipRequest → RelationshipRecord → Result RelationshipWrite → Type 0
Answered req r result =
    ((req.dedupe ≡ true) × Matches req r × (result ≡ ok (record { edge = r; replayed = true })))
    ⊎ ((req.dedupe ≡ true → Matches req r → ⊥) × (result ≡ err idempotency_conflict))

injective : {A : Type 0} (a b : A) → some a ≡ some b → a ≡ b
injective a b h = cc

as_str-injective : (a b : RelationPredicate) → as_str a ≡ as_str b → a ≡ b
as_str-injective a b h =
    injective a b
      (sym (parse_predicate-as_str a) ∙ (ap parse_predicate h ∙ parse_predicate-as_str b))

status_str-injective : (a b : EpistemicStatus) → status_str a ≡ status_str b → a ≡ b
status_str-injective a b h =
    injective a b
      (sym (parse_status-status_str a) ∙ (ap parse_status h ∙ parse_status-status_str b))

same_text-eq : (a b : Option Text) → same_text a b ≡ true → a ≡ b
same_text-eq none none h = refl
same_text-eq none (some b) h = absurd cc
same_text-eq (some a) none h = absurd cc
same_text-eq (some a) (some b) h = ap some ((text_eq_iff a b).0 h)

same_text_refl : (a : Option Text) → same_text a a ≡ true
same_text_refl none = refl
same_text_refl (some a) = text_eq_refl a

same_instant-eq : (a b : Option ℕ) → same_instant a b ≡ true → a ≡ b
same_instant-eq none none h = refl
same_instant-eq none (some b) h = absurd cc
same_instant-eq (some a) none h = absurd cc
same_instant-eq (some a) (some b) h = let e : a ≡ b = ground arith in ap some e

same_instant_refl : (a : Option ℕ) → same_instant a a ≡ true
same_instant_refl none = refl
same_instant_refl (some a) = ground arith

same_producer-eq : (a b : Option ProducerMeta) → same_producer a b ≡ true → a ≡ b
same_producer-eq none none h = refl
same_producer-eq none (some b) h = absurd cc
same_producer-eq (some a) none h = absurd cc
same_producer-eq (some a) (some b) h =
    let e = same_text-eq a.source b.source (ground arith) in
    let f = same_text-eq a.kind b.kind (ground arith) in
    let g = same_text-eq a.version b.version (ground arith) in
    λ i. some (record { source = e i; kind = f i; version = g i })

same_producer_refl : (a : Option ProducerMeta) → same_producer a a ≡ true
same_producer_refl none = refl
same_producer_refl (some a) =
    rw (same_text_refl a.source, same_text_refl a.kind, same_text_refl a.version) refl

same_witnesses-eq : (xs ys : List Witness) → same_witnesses xs ys ≡ true → xs ≡ ys
unfolding same_witnesses
same_witnesses-eq [] [] h = refl
same_witnesses-eq [] (b ∷ ys) h = absurd (cc h)
same_witnesses-eq (a ∷ xs) [] h = absurd (cc h)
same_witnesses-eq (a ∷ xs) (b ∷ ys) h =
    let e : a.kind ≡ b.kind = ground (arith, text_eq_iff a.kind b.kind) in
    let f : a.key ≡ b.key = ground (arith, text_eq_iff a.key b.key) in
    let g : a.revision ≡ b.revision = ground arith in
    let rest = same_witnesses-eq xs ys (ground arith) in
    λ i. record { kind = e i; key = f i; revision = g i } ∷ rest i

same_witnesses_refl : (xs : List Witness) → same_witnesses xs xs ≡ true
unfolding same_witnesses
same_witnesses_refl [] = refl
same_witnesses_refl (a ∷ xs) =
    ground (arith, text_eq_refl a.kind, text_eq_refl a.key, same_witnesses_refl xs)

module _ (req : PutRelationshipRequest) (r : RelationshipRecord) where
  matches-Matches : relationship_request_matches req r ≡ true → Matches req r
  unfolding relationship_request_matches
  matches-Matches h = (
    as_str-injective r.predicate req.predicate
        (ground (arith, text_eq_iff (as_str r.predicate) (as_str req.predicate))),
    status_str-injective r.epistemic req.epistemic
        (ground (arith, text_eq_iff (status_str r.epistemic) (status_str req.epistemic))),
    same_instant-eq r.valid_until req.valid_until (ground arith),
    same_producer-eq r.producer req.producer (ground arith),
    same_witnesses-eq (sort witness_leb (map witness_of r.evidence))
        (sort witness_leb (map witness_of req.evidence)) (ground arith),
  )

  Matches-matches : Matches req r → relationship_request_matches req r ≡ true
  unfolding relationship_request_matches
  Matches-matches (a, b, c, d, e) =
      rw
        (
          a,
          b,
          c,
          d,
          e,
          text_eq_refl (as_str req.predicate),
          text_eq_refl (status_str req.epistemic),
          same_instant_refl req.valid_until,
          same_producer_refl req.producer,
          same_witnesses_refl (sort witness_leb (map witness_of req.evidence)),
        )
        refl

  pub on_taken-Answered : Answered req r (on_taken req r)
  on_taken-Answered = elim (Bool-cases req.dedupe) [
    | inr a ↦ inr (λ d m. absurd cc, rw a refl)
    | inl a ↦ elim (Bool-cases (relationship_request_matches req r)) [
      | inl b ↦ inl (a, matches-Matches b, rw (b, a) refl)
      | inr b ↦ inr (λ d m. let t = Matches-matches m in absurd cc, rw (b, a) refl)
    ]
  ]
