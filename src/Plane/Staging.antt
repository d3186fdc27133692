-- ===== src/Plane/Staging.antt =====
-- crates/nomiso-store/src/surreal_store.rs: staging the vectors of a generation, and its activation.
use nomiso.Prelude.{
  ℕ, Bool, ◌&&◌, ◌||◌, not, List, [], ◌∷◌, none, some, ◌==◌, ltb, if◌then◌else◌, filter, any, all,
  length, is_some,
}
use nomiso.Prelude.Text.{Text, text_eq}
use nomiso.Prelude.Table.{find}
use nomiso.Errors.{
  Result, ok, err, invalid_op, not_found, internal, dimension_mismatch, incompatible_store,
  refuse_if,
}
use nomiso.Errors
use nomiso.Exec.{Exec}
use nomiso.Embeddings.{Float}
use nomiso.Memories.{MemoryId, memory_key}
use nomiso.Plane.{MemoryRecord, EmbeddingGeneration, active, retired, StagedVector, Plane}
use nomiso.Plane.Generations.{
  is_active, is_building, is_retired, generation_at, embedded_memory_count, update_generations,
}

pub record StagedEmbedding : Type 0 where
  pub memory : MemoryId
  pub vector : List Float

abbrev pub check_dimensions : ℕ → List StagedEmbedding → Result (Unit {0})
check_dimensions dimension [] = ok tt
check_dimensions dimension (item ∷ items) =
    Errors.◌>>◌
      (refuse_if (not (length item.vector == dimension))
        (dimension_mismatch dimension (length item.vector)))
      (check_dimensions dimension items)

abbrev pub is_vector_of : ℕ → Text → StagedVector → Bool
is_vector_of n key v = v.generation == n && text_eq v.memory key

-- `UPSERT type::record('embedding_vector', $item.rid)`
unfoldable pub upsert_vector : StagedVector → List StagedVector → List StagedVector
upsert_vector new [] = new ∷ []
upsert_vector new (v ∷ vectors) =
    if is_vector_of new.generation new.memory v
    then new ∷ vectors
    else v ∷ upsert_vector new vectors

unfoldable pub upsert_all : ℕ → List StagedEmbedding → List StagedVector → List StagedVector
unfolding upsert_vector
upsert_all n [] vectors = vectors
upsert_all n (item ∷ items) vectors = upsert_all n items (
    upsert_vector (record { memory = memory_key item.memory; generation = n; vector = item.vector })
      vectors)

unfoldable pub staged_count : ℕ → List StagedVector → ℕ
staged_count n vectors = length (filter (λ v. v.generation == n) vectors)

unfoldable pub stage_commit : ℕ → List StagedEmbedding → Exec Plane ℕ
stage_commit n items s =
    if not (all (λ i. is_some (find (memory_key i.memory) s.memories)) items)
    then (err (not_found "staged vector references a memory that does not exist"), s)
    else let vectors = upsert_all n items s.vectors in
      let gens =
        update_generations (λ g. g.generation == n)
          (λ g. record g { embedded_count = staged_count n vectors }) s.generations in
      (
        ok (elim (generation_at n gens) [ none ↦ 0 | some g ↦ g.embedded_count ]),
        record s { vectors = vectors; generations = gens },
      )

unfoldable pub stage_embeddings : ℕ → List StagedEmbedding → Exec Plane ℕ
stage_embeddings n items s = elim (generation_at n s.generations) [
  | none ↦ (err (not_found "embedding generation"), s)
  | some g ↦
      if not (is_building g.status)
      then (err (invalid_op "only a building generation accepts staged vectors"), s)
      else elim (check_dimensions g.identity.dimension items) [
        | err e ↦ (err e, s)
        | ok _ ↦ stage_commit n items s
      ]
]

-- The staged vectors cover every row that has a vector now.
unfoldable pub covers : ℕ → List StagedVector → List (Text × MemoryRecord) → Bool
covers n vectors memories =
    all (λ (k, r). not (is_some r.embedding) || any (is_vector_of n k) vectors) memories

-- `FOR $v IN … { UPDATE $v.memory SET embedding = $v.vector, … }`; a vector of a row that is gone
-- changes nothing.
unfoldable pub with_vector : ℕ → List StagedVector → Text → MemoryRecord → MemoryRecord
with_vector n [] key r = r
with_vector n (v ∷ vectors) key r = with_vector n vectors key (
    if is_vector_of n key v
    then record r { embedding = some v.vector; embedding_generation = some n }
    else r)

unfoldable pub install :
    ℕ → List StagedVector → List (Text × MemoryRecord) → List (Text × MemoryRecord)
unfolding with_vector
install n vectors [] = []
install n vectors ((k, r) ∷ memories) = (k, with_vector n vectors k r) ∷ install n vectors memories

abbrev pub retire : EmbeddingGeneration → EmbeddingGeneration
retire g = record g { status = retired }

abbrev pub activate : ℕ → EmbeddingGeneration → EmbeddingGeneration
activate now g = record g { status = active; activated_at = some now }

unfoldable pub activate_commit : ℕ → ℕ → Exec Plane EmbeddingGeneration
activate_commit now n s =
    if not (covers n s.vectors s.memories)
    then (err (invalid_op "staged vectors do not cover all embedded memories"), s)
    else let gens =
        update_generations (λ g. g.generation == n) (activate now)
          (update_generations (λ g. is_active g.status) retire s.generations) in
      (
        elim (generation_at n gens) [
          | none ↦ err (internal "activated generation missing after commit")
          | some g ↦ ok g
        ],
        record s { memories = install n s.vectors s.memories; generations = gens },
      )

unfoldable pub activate_embedding_generation : ℕ → ℕ → Exec Plane EmbeddingGeneration
activate_embedding_generation now n s = elim (generation_at n s.generations) [
  | none ↦ (err (not_found "embedding generation"), s)
  | some g ↦
      if not (is_building g.status || is_retired g.status)
      then (err (invalid_op "only building or retired generations can activate"), s)
      else if ltb g.embedded_count (embedded_memory_count s)
      then (err (invalid_op "embedding generation incomplete"), s)
      else activate_commit now n s
]
