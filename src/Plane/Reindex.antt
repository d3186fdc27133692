-- ===== src/Plane/Reindex.antt =====
-- The register of embedding generations, and what an activation leaves in the index.
use nomiso.Prelude.{
  ℕ, suc, ◌+◌, ◌≤◌, ◌≡◌, ◌≢◌, refl, ap, sym, ◌∙◌, inl, inr, Bool, false, List, [], ◌∷◌, ◌++◌,
  Option, arith, if◌then◌else◌, Bool-cases, Option-cases, is_some, All, All-map, All-append, ◌==◌,
  ==_iff, any, all,
}
use nomiso.Prelude.Text.{Text}
use nomiso.Prelude.Table.{find}
use nomiso.Embeddings.{EmbeddingIdentity}
use nomiso.Memories.{memory_key}
use nomiso.Plane.{EmbeddingGeneration, Plane}
use nomiso.Plane.Generations.{
  is_active, is_building, newest, last_number, update_generations, declared,
  declare_embedding_generation,
}
use nomiso.Plane.Staging.{
  StagedEmbedding, stage_commit, staged_count, upsert_all, covers, retire, activate,
  activate_commit,
}

-- How many generations of a list pass a test.
unfoldable pub count : (EmbeddingGeneration → Bool) → List EmbeddingGeneration → ℕ
count p [] = 0
count p (g ∷ gens) = if p g then suc (count p gens) else count p gens

abbrev pub active_g : EmbeddingGeneration → Bool
active_g g = is_active g.status

abbrev pub building_g : EmbeddingGeneration → Bool
building_g g = is_building g.status

abbrev pub Distinct : List EmbeddingGeneration → Type 0
Distinct [] = Unit
Distinct (g ∷ gens) = All (λ x. x.generation ≢ g.generation) gens × Distinct gens

-- Numbers tell generations apart, one at most serves queries and one at most is being built.
pub record Register (gens : List EmbeddingGeneration) : Type 0 where
  pub distinct : Distinct gens
  pub one_active : count active_g gens ≤ 1
  pub one_building : count building_g gens ≤ 1

-- An update that keeps the numbers keeps them distinct.
module _ (p : EmbeddingGeneration → Bool) (f : EmbeddingGeneration → EmbeddingGeneration)
    (keeps : (g : EmbeddingGeneration) → (f g).generation ≡ g.generation) where
  All-numbers :
      (n : ℕ) (gens : List EmbeddingGeneration)
      → All (λ x. x.generation ≢ n) gens
      → All (λ x. x.generation ≢ n) (update_generations p f gens)
  unfolding update_generations
  All-numbers n [] h = tt
  All-numbers n (g ∷ gens) h = elim (Bool-cases (p g)) [
    | inl q ↦ rw q (λ e. h.0 (sym (keeps g) ∙ e), All-numbers n gens h.1)
    | inr q ↦ rw q (h.0, All-numbers n gens h.1)
  ]

  pub Distinct-update :
      (gens : List EmbeddingGeneration) → Distinct gens → Distinct (update_generations p f gens)
  unfolding update_generations
  Distinct-update [] d = tt
  Distinct-update (g ∷ gens) d = elim (Bool-cases (p g)) [
    | inl q ↦ rw (q, keeps g) (All-numbers g.generation gens d.0, Distinct-update gens d.1)
    | inr q ↦ rw q (All-numbers g.generation gens d.0, Distinct-update gens d.1)
  ]

  -- An update that keeps a test on each generation keeps the count.
  pub count-update :
      (t : EmbeddingGeneration → Bool)
      → ((g : EmbeddingGeneration) → t (f g) ≡ t g)
      → (gens : List EmbeddingGeneration) → count t (update_generations p f gens) ≡ count t gens
  unfolding update_generations count
  count-update t same [] = refl
  count-update t same (g ∷ gens) = elim (Bool-cases (p g)) [
    | inl q ↦ rw (q, same g, count-update t same gens) refl
    | inr q ↦ rw (q, count-update t same gens) refl
  ]

  pub Register-update :
      ((g : EmbeddingGeneration) → (f g).status ≡ g.status)
      → (gens : List EmbeddingGeneration) → Register gens
      → Register (update_generations p f gens)
  Register-update same gens r =
      let a = count-update active_g (λ g. ap is_active (same g)) gens in
      let b = count-update building_g (λ g. ap is_building (same g)) gens in
      record {
        distinct = Distinct-update gens r.distinct;
        one_active = rw a r.one_active;
        one_building = rw b r.one_building;
      }

count-append :
    (t : EmbeddingGeneration → Bool) (gens : List EmbeddingGeneration) (g : EmbeddingGeneration)
    → count t (gens ++ g ∷ []) ≡ (if t g then suc (count t gens) else count t gens)
unfolding count
count-append t [] g = refl
count-append t (x ∷ gens) g = ground (arith, count-append t gens g)

count-none :
    (t : EmbeddingGeneration → Bool) (gens : List EmbeddingGeneration)
    → any t gens ≡ false
    → count t gens ≡ 0
unfolding count
count-none t [] h = refl
count-none t (x ∷ gens) h = ground (arith, count-none t gens)

last_number-cons :
    (g : EmbeddingGeneration) (gens : List EmbeddingGeneration)
    → (g.generation ≤ last_number (g ∷ gens)) × (last_number gens ≤ last_number (g ∷ gens))
unfolding newest
last_number-cons g gens = elim (Option-cases (newest gens)) [
  | inl q ↦ rw q (omega arith)
  | inr (m, q) ↦ rw q (ground arith)
]

newest-max : (gens : List EmbeddingGeneration) → All (λ x. x.generation ≤ last_number gens) gens
newest-max [] = tt
newest-max (g ∷ gens) =
    let (first, rest) = last_number-cons g gens in
    (
      first,
      All-map (λ x. x.generation ≤ last_number gens) (λ x. x.generation ≤ last_number (g ∷ gens))
          gens (λ x h. omega arith) (newest-max gens),
    )

Distinct-append :
    (gens : List EmbeddingGeneration) (g : EmbeddingGeneration)
    → Distinct gens
    → All (λ x. x.generation ≢ g.generation) gens
    → Distinct (gens ++ g ∷ [])
Distinct-append [] g d h = (tt, tt)
Distinct-append (x ∷ gens) g d h = (
  All-append (λ y. y.generation ≢ x.generation) gens (g ∷ []) d.0 (λ e. h.0 (sym e), tt),
  Distinct-append gens g d.1 h.1,
)

pub declare-Register :
    (now dim : ℕ) (identity : EmbeddingIdentity) (remark : Option Text) (s : Plane)
    → Register s.generations
    → Register (declare_embedding_generation now dim identity remark s).1.generations
unfolding declare_embedding_generation declared
declare-Register now dim identity remark s r = elim (Bool-cases (identity.dimension == dim)) [
  | inr a ↦ rw a r
  | inl a ↦ elim (Bool-cases (any building_g s.generations)) [
    | inl b ↦ rw (a, b) r
    | inr b ↦
        let g = declared now identity remark s in
        rw (a, b)
          (record {
            distinct = Distinct-append s.generations g r.distinct (
                All-map (λ x. x.generation ≤ last_number s.generations)
                  (λ x. x.generation ≢ g.generation) s.generations (λ x h e. absurd (omega arith))
                  (newest-max s.generations));
            one_active = rw (count-append active_g s.generations g) r.one_active;
            one_building =
                rw (count-append building_g s.generations g, count-none building_g s.generations b)
                  (omega arith);
          })
  ]
]

pub stage-Register :
    (n : ℕ) (items : List StagedEmbedding) (s : Plane)
    → Register s.generations
    → Register (stage_commit n items s).1.generations
unfolding stage_commit
stage-Register n items s r =
    elim (Bool-cases (all (λ i. is_some (find (memory_key i.memory) s.memories)) items)) [
      | inr a ↦ rw a r
      | inl a ↦ rw a (
          Register-update (λ g. g.generation == n)
            (λ g. record g { embedded_count = staged_count n (upsert_all n items s.vectors) })
            (λ g. refl) (λ g. refl) s.generations r)
    ]

-- After all active generations have retired, none is active, and the others are as they were.
count-retired :
    (gens : List EmbeddingGeneration) → count active_g (update_generations active_g retire gens) ≡ 0
unfolding count update_generations
count-retired [] = refl
count-retired (g ∷ gens) = elim (Bool-cases (is_active g.status)) [
  | inl a ↦ rw a (count-retired gens)
  | inr a ↦ rw (a, a) (count-retired gens)
]

building-retired :
    (gens : List EmbeddingGeneration)
    → count building_g (update_generations active_g retire gens) ≡ count building_g gens
unfolding count update_generations
building-retired [] = refl
building-retired (g ∷ gens) = ground (arith, building-retired gens)

module _ (now n : ℕ) where
  abbrev at_n : EmbeddingGeneration → Bool
  at_n g = g.generation == n

  none_at :
      (gens : List EmbeddingGeneration)
      → All (λ x. x.generation ≢ n) gens
      → update_generations at_n (activate now) gens ≡ gens
  unfolding update_generations
  none_at [] h = refl
  none_at (g ∷ gens) h =
      let other : (g.generation == n) ≡ false = ground (arith, ==_iff g.generation n) in
      rw (other, none_at gens h.1) refl

  one_more :
      (gens : List EmbeddingGeneration)
      → Distinct gens
      → count active_g (update_generations at_n (activate now) gens) ≤ count active_g gens + 1
  unfolding count update_generations
  one_more [] d = omega arith
  one_more (g ∷ gens) d = elim (Bool-cases (g.generation == n)) [
    | inl a ↦
        let here : g.generation ≡ n = ground (arith, ==_iff g.generation n) in
        rw (a, none_at gens (rw (← here) d.0)) (ground arith)
    | inr a ↦ rw a (ground (arith, one_more gens d.1))
  ]

  fewer_building :
      (gens : List EmbeddingGeneration)
      → count building_g (update_generations at_n (activate now) gens) ≤ count building_g gens
  unfolding count update_generations
  fewer_building [] = omega arith
  fewer_building (g ∷ gens) = elim (Bool-cases (g.generation == n)) [
    | inl a ↦ rw a (ground (arith, fewer_building gens))
    | inr a ↦ rw a (ground (arith, fewer_building gens))
  ]

  pub activate-Register :
      (s : Plane) → Register s.generations → Register (activate_commit now n s).1.generations
  unfolding activate_commit
  activate-Register s r = elim (Bool-cases (covers n s.vectors s.memories)) [
    | inr a ↦ rw a r
    | inl a ↦
        let retired_gens = update_generations active_g retire s.generations in
        let kept = Distinct-update active_g retire (λ g. refl) s.generations r.distinct in
        rw a (record {
          distinct = Distinct-update at_n (activate now) (λ g. refl) retired_gens kept;
          one_active = omega (arith, one_more retired_gens kept, count-retired s.generations);
          one_building =
              omega (
                arith,
                fewer_building retired_gens,
                building-retired s.generations,
                r.one_building,
              );
        })
  ]
