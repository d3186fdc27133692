-- ===== src/Plane/Generations.antt =====
-- crates/nomiso-store/src/surreal_store.rs: embedding generations and the staged reindex.
use nomiso.Prelude.{
  ℕ, ◌+◌, Bool, true, false, ◌&&◌, not, List, [], ◌∷◌, ◌++◌, Option, none, some, ◌==◌, ltb,
  if◌then◌else◌, filter, any, length, is_some, is_some_and, is_empty, unwrap_or,
}
use nomiso.Prelude.Text.{Text, codes}
use nomiso.Errors.{Result, ok, err, invalid_op, internal, incompatible_store, refuse_if}
use nomiso.Exec.{Exec}
use nomiso.Embeddings.{EmbeddingIdentity, unknown, is_unknown, compatible_with}
use nomiso.Plane.{EmbeddingGeneration, GenerationStatus, building, active, retired, Plane}

abbrev pub is_active : GenerationStatus → Bool
is_active active = true
is_active _ = false

abbrev pub is_building : GenerationStatus → Bool
is_building building = true
is_building _ = false

abbrev pub is_retired : GenerationStatus → Bool
is_retired retired = true
is_retired _ = false

-- The first of the rows with the greatest number, as `ORDER BY generation DESC LIMIT 1` picks it.
unfoldable pub newest : List EmbeddingGeneration → Option EmbeddingGeneration
newest [] = none
newest (g ∷ gens) = elim (newest gens) [
  | none ↦ some g
  | some m ↦ if ltb g.generation m.generation then some m else some g
]

unfoldable pub active_generation : Plane → Option EmbeddingGeneration
unfolding newest
active_generation s = newest (filter (λ g. is_active g.status) s.generations)

unfoldable pub generation_at : ℕ → List EmbeddingGeneration → Option EmbeddingGeneration
generation_at n [] = none
generation_at n (g ∷ gens) = if g.generation == n then some g else generation_at n gens

unfoldable pub embedded_memory_count : Plane → ℕ
embedded_memory_count s = length (filter (λ (k, r). is_some r.embedding) s.memories)

unfoldable pub update_generations :
    (EmbeddingGeneration → Bool)
    → (EmbeddingGeneration → EmbeddingGeneration)
    → List EmbeddingGeneration
    → List EmbeddingGeneration
update_generations p f [] = []
update_generations p f (g ∷ gens) = (if p g then f g else g) ∷ update_generations p f gens

-- The fields of an identity that a declaration replaces; the dimension stays.
abbrev pub adopted : EmbeddingIdentity → EmbeddingGeneration → EmbeddingGeneration
adopted c g = record g { identity = record c { dimension = g.identity.dimension } }

-- `UPDATE embedding_generation … WHERE generation = $gen AND family = 'unknown' AND model = 'unknown'`
unfoldable pub adopt : EmbeddingIdentity → ℕ → Plane → Plane
adopt c n s = record s {
  generations =
      update_generations (λ g. g.generation == n && is_unknown g.identity) (adopted c)
        s.generations;
}

abbrev pub number_of : Option EmbeddingGeneration → Option ℕ
number_of none = none
number_of (some g) = some g.generation

-- The active generation after the adoption decides.
unfoldable pub after_adoption : EmbeddingIdentity → Option EmbeddingGeneration → Result (Option ℕ)
after_adoption c now_active =
    if is_some_and now_active (λ g. compatible_with c g.identity)
    then ok (number_of now_active)
    else err (incompatible_store "concurrent embedding identity adoption")

-- A claim that the active generation's identity does not meet: an unknown identity without rows is
-- adopted, all else is refused.
unfoldable pub adopt_or_refuse : EmbeddingIdentity → EmbeddingGeneration → Exec Plane (Option ℕ)
adopt_or_refuse c g s =
    if is_unknown g.identity
    then (if ltb 0 (embedded_memory_count s)
        then (err (incompatible_store "active embedding generation has unknown identity"), s)
        else (
          after_adoption c (active_generation (adopt c g.generation s)),
          adopt c g.generation s,
        ))
    else (err (incompatible_store "claimed embedding identity is incompatible"), s)

unfoldable pub resolve_claim :
    Option EmbeddingIdentity → Option EmbeddingGeneration → Exec Plane (Option ℕ)
resolve_claim none gen s = (ok (number_of gen), s)
resolve_claim (some c) (some g) s =
    if compatible_with c g.identity then (ok (some g.generation), s) else adopt_or_refuse c g s
resolve_claim (some c) none s =
    (err (incompatible_store "no active embedding generation to accept claimed identity"), s)

unfoldable pub resolve_embedding_for_write : Option EmbeddingIdentity → Exec Plane (Option ℕ)
resolve_embedding_for_write claimed s = resolve_claim claimed (active_generation s) s

-- `gens.iter().find(|g| g.status == Active)`
unfoldable pub first_active : List EmbeddingGeneration → Option EmbeddingGeneration
first_active [] = none
first_active (g ∷ gens) = if is_active g.status then some g else first_active gens

abbrev pub initial : ℕ → EmbeddingIdentity → Plane → EmbeddingGeneration
initial now identity s = record {
  generation = 1;
  identity = identity;
  status = active;
  source_frontier = none;
  embedded_count = embedded_memory_count s;
  note = some (codes "initial generation");
  created_at = now;
  activated_at = some now;
}

abbrev pub check_declared : ℕ → Option EmbeddingIdentity → Result (Unit {0})
check_declared dim declared_identity =
    refuse_if (is_some_and declared_identity (λ d. not (d.dimension == dim)))
      (invalid_op "declared embedding identity dimension does not match store embedding_dim")

-- `ensure_embedding_generation`, whose parameters are the configured dimension and identity
unfoldable pub ensure_embedding_generation :
    ℕ → ℕ → Option EmbeddingIdentity → Exec Plane (Unit {0})
ensure_embedding_generation now dim configured s = elim (check_declared dim configured) [
  | err e ↦ (err e, s)
  | ok _ ↦ elim (first_active s.generations) [
    | some g ↦
        if is_some_and configured (λ d. not (compatible_with d g.identity))
        then (err (incompatible_store "declared embedding identity does not match"), s)
        else (ok tt, s)
    | none ↦ if not (is_empty s.generations) then (ok tt, s) else (
      ok tt,
      record s { generations = initial now (unwrap_or configured (unknown dim)) s ∷ [] },
    )
  ]
]

-- `attest_embedding_identity`
unfoldable pub attest_embedding_identity : EmbeddingIdentity → Exec Plane EmbeddingGeneration
attest_embedding_identity identity s = elim (active_generation s) [
  | none ↦ (err (invalid_op "no active embedding generation to attest; declare one first"), s)
  | some g ↦
      if not (is_unknown g.identity)
      then (err (invalid_op "active generation already carries declared identity"), s)
      else if not (identity.dimension == g.identity.dimension)
      then (err (invalid_op "attested dimension does not match generation dimension"), s)
      else let s' = adopt identity g.generation s in
        (
          elim (active_generation s') [
            | none ↦ err (internal "active generation vanished during attest")
            | some g' ↦ ok g'
          ],
          s',
        )
]

-- `$next` of the declaration: the greatest number so far.
abbrev pub last_number : List EmbeddingGeneration → ℕ
last_number gens = unwrap_or (number_of (newest gens)) 0

unfoldable pub declared : ℕ → EmbeddingIdentity → Option Text → Plane → EmbeddingGeneration
declared now identity remark s = record {
  generation = last_number s.generations + 1;
  identity = identity;
  status = building;
  source_frontier = some (record {
    captured_at = now;
    generation = number_of (active_generation s);
    expected_count = embedded_memory_count s;
  });
  embedded_count = 0;
  note = remark;
  created_at = now;
  activated_at = none;
}

-- `declare_embedding_generation`, whose two last parameters are the fields of the request.
unfoldable pub declare_embedding_generation :
    ℕ → ℕ → EmbeddingIdentity → Option Text → Exec Plane EmbeddingGeneration
declare_embedding_generation now embedding_dim identity remark s =
    if not (identity.dimension == embedding_dim)
    then (err (invalid_op "declared dimension does not match index dimension"), s)
    else if any (λ g. is_building g.status) s.generations
    then (err (invalid_op "another embedding generation is already building"), s)
    else let gens = s.generations ++ declared now identity remark s ∷ [] in
      (
        elim (newest gens) [
          | none ↦ err (internal "declared generation missing after commit")
          | some g ↦ ok g
        ],
        record s { generations = gens },
      )
