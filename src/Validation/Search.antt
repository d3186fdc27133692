-- ===== src/Validation/Search.antt =====
-- Which searches the checks let through.
use nomiso.Prelude.{
  ℕ, ◌≤◌, ◌≡◌, refl, ◌↔◌, ◌⊎◌, inl, inr, Bool, true, false, ◌&&◌, not, List, [], ◌∷◌, Option, none,
  some, is_empty, is_some, is_some_and, arith, ◌∙◌, ap,
}
use nomiso.Prelude.Text.{trim, utf8_len}
use nomiso.Errors.{ok, Result-cases}
use nomiso.Scope
use nomiso.Scope.{ScopePath}
use nomiso.Embeddings.{Float}
use nomiso.Memories.{SearchQuery}
use nomiso.Validation.{Limits, validate_embedding, check_limit, validate_search}
use nomiso.Validation.Accepted.{IfSome, IsEmbedding, validate_embedding_iff}

limit_iff :
    (limits : Limits) (o : Option ℕ)
    → (check_limit o limits ≡ ok tt) ↔ IfSome (λ n. (1 ≤ n) × (n ≤ limits.max_search_limit)) o
unfolding check_limit
limit_iff limits none = (λ h. tt, λ h. refl)
limit_iff limits (some n) = (λ h. ground arith, λ h. ground arith)

flipped : {b : Bool} {P : Type 0} → (not b ≡ true) ⊎ P → (b ≡ false) ⊎ P
flipped {b} (inl h) = inl (ground arith)
flipped (inr p) = inr p

unflipped : {b : Bool} {P : Type 0} → (b ≡ false) ⊎ P → (not b ≡ true) ⊎ P
unflipped {b} (inl h) = inl (ground arith)
unflipped (inr p) = inr p

-- An embedding that passes is not empty.
asked :
    (text : Bool) (e : Option (List Float))
    → (not text && not (is_some_and e (λ v. not (is_empty v)))) ≡ false
    → (text ≡ true) ⊎ (is_some e ≡ true)
asked true e h = inl refl
asked false (some v) h = inr refl
asked false none h = absurd (cc h)

asks :
    (limits : Limits) (text : Bool) (e : Option (List Float))
    → IfSome (IsEmbedding limits) e
    → (text ≡ true) ⊎ (is_some e ≡ true)
    → (not text && not (is_some_and e (λ v. not (is_empty v)))) ≡ false
asks limits true e v h = refl
asks limits false none v (inl h) = absurd (cc h)
asks limits false none v (inr h) = absurd (cc h)
asks limits false (some []) v h = ground arith
asks limits false (some (x ∷ xs)) v h = refl

search_passes :
    (limits : Limits) (req : SearchQuery) (path : ScopePath)
    → validate_search req limits ≡ ok path
    → (Scope.parse req.scope ≡ ok path)
      × ((is_empty (trim req.query) ≡ false) ⊎ (is_some req.embedding ≡ true))
      × (utf8_len req.query ≤ limits.max_content_bytes)
      × IfSome (λ n. (1 ≤ n) × (n ≤ limits.max_search_limit)) req.limit
      × IfSome (IsEmbedding limits) req.embedding
unfolding validate_search
search_passes limits req path e = elim (Result-cases (Scope.parse req.scope)) [
  | inr (x, a) ↦ absurd (cc (rw a at e))
  | inl (p, a) ↦ elim (Result-cases (check_limit req.limit limits)) [
    | inr (x, b) ↦ ground arith
    | inl (_, b) ↦ elim (Result-cases (validate_embedding req.embedding limits)) [
      | inr (x, c) ↦ ground arith
      | inl (_, c) ↦
          let quiet : (not (not (is_empty (trim req.query)))
                && not (is_some_and req.embedding (λ v. not (is_empty v))))
              ≡ false =
            ground arith in
          let same : p ≡ path = ground arith in
          (
            a ∙ ap ok same,
            flipped (asked (not (is_empty (trim req.query))) req.embedding quiet),
            ground arith,
            (limit_iff limits req.limit).0 b,
            (validate_embedding_iff limits req.embedding).0 c,
          )
    ]
  ]
]

search_accepted :
    (limits : Limits) (req : SearchQuery) (path : ScopePath)
    → (Scope.parse req.scope ≡ ok path)
      × ((is_empty (trim req.query) ≡ false) ⊎ (is_some req.embedding ≡ true))
      × (utf8_len req.query ≤ limits.max_content_bytes)
      × IfSome (λ n. (1 ≤ n) × (n ≤ limits.max_search_limit)) req.limit
      × IfSome (IsEmbedding limits) req.embedding
    → validate_search req limits ≡ ok path
unfolding validate_search
search_accepted limits req path v =
    let (a, b, c, d, e) = v in
    let bound = (limit_iff limits req.limit).1 d in
    let vector = (validate_embedding_iff limits req.embedding).1 e in
    let quiet = asks limits (not (is_empty (trim req.query))) req.embedding e (unflipped b) in
    rw (a, bound, vector, quiet) (ground arith)

-- A search that passes is of a parsed scope and has a query text that is not blank or an embedding,
-- a query text within the limit, a result limit from 1 to the store's, and an embedding, if any, of
-- the store's dimension and finite numbers only.
pub validate_search-eq_ok_iff :
    (limits : Limits) (req : SearchQuery) (path : ScopePath)
    → (validate_search req limits ≡ ok path) ↔ (
        (Scope.parse req.scope ≡ ok path)
        × ((is_empty (trim req.query) ≡ false) ⊎ (is_some req.embedding ≡ true))
        × (utf8_len req.query ≤ limits.max_content_bytes)
        × IfSome (λ n. (1 ≤ n) × (n ≤ limits.max_search_limit)) req.limit
        × IfSome (IsEmbedding limits) req.embedding)
unfolding validate_search
validate_search-eq_ok_iff limits req path =
    (search_passes limits req path, search_accepted limits req path)
