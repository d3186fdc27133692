-- ===== src/Plane/Steps.antt =====
-- Every statement on the plane lets the rows of the memory table age.
use nomiso.Prelude.{
  ℕ, ◌≡◌, refl, inl, inr, true, List, [], ◌∷◌, ◌++◌, Option, none, some, arith, Bool-cases,
  Option-cases, ◌&&◌, not, is_some_and,
}
use nomiso.Prelude.Text.{Text, text_eq}
use nomiso.Prelude.Table.{find, update, find-update_self, find-append_old, find-update-none}
use nomiso.Json.{Json}
use nomiso.Embeddings.{in_unit, EmbeddingIdentity}
use nomiso.Memories.{PutRequest, SupersedeRequest, ForgetRequest, memory_key}
use nomiso.Plane.{MemoryRecord, Plane, Env, id_of}
use nomiso.Plane.Generations.{ensure_embedding_generation, adopt, declare_embedding_generation}
use nomiso.Plane.Staging.{StagedEmbedding, stage_commit, activate_commit, covers}
use nomiso.Plane.Writes.{create_commit, claim_slot, new_memory}
use nomiso.Plane.Supersede.{
  supersede_commit, link_successor, closed_row, closable, depends_on_prior,
}
use nomiso.Plane.Forget.{erase_commit, erase_row, close_commit, close_row, is_open, version_matches}
use nomiso.Plane.Annotate.{AnnotateRequest, annotate_commit, annotate_row, annotated}
use nomiso.Plane.Ageing.{
  Ages-edit, Evolves, Evolves-refl, Evolves-trans, Evolves-weaken, update-Evolves,
  update_where-Evolves, append-Evolves, erase-Evolves, Table,
}
use nomiso.Plane.World.{
  Fresh, Step, erased_by, creates, claims, supersedes, erases, closes, annotates, links, bootstraps,
  adopts, declares, stages, activates,
}
use nomiso.Plane.Edits.{closed_row-Ages, annotated-Ages, install-Evolves}

module _ (e : Env) (now : ℕ) where
  create_commit-Evolves :
      (key : Text) (req : PutRequest) (egen : Option ℕ) (s : Plane)
      → Fresh key s
      → Evolves now none s.memories (create_commit now key req egen s).1.memories
  unfolding create_commit
  create_commit-Evolves key req egen s f = rw f.free (
      append-Evolves s.memories key (new_memory now key req egen none) f.free
        (unfold new_memory in refl))

  claim_slot-Evolves :
      (k key : Text) (req : PutRequest) (egen : Option ℕ) (identity : Text) (s : Plane)
      → Fresh key s
      → Evolves now none s.memories (claim_slot now k key req egen identity s).memories
  unfolding claim_slot new_memory
  claim_slot-Evolves k key req egen identity s f =
      append-Evolves s.memories key
        (new_memory now key (record req { idempotency_key = some k }) egen none) f.free refl

  erase_commit-Evolves :
      (req : ForgetRequest) (scope : Text) (version : ℕ) (s : Plane)
      → Evolves now
          (some (memory_key req.id))
          s.memories
          (erase_commit now req scope version s).1.memories
  unfolding erase_commit erase_row
  erase_commit-Evolves req scope version s =
      elim (Option-cases (find (memory_key req.id) s.memories)) [
        | inl q ↦ rw (q, erase_commit) (Evolves-weaken (Evolves-refl s.memories))
        | inr (r, q) ↦ elim (Bool-cases (version_matches req.expected_version r)) [
          | inl v ↦ rw (q, v, erase_commit) (erase-Evolves (memory_key req.id) s.memories)
          | inr v ↦ rw (q, v, erase_commit) (Evolves-weaken (Evolves-refl s.memories))
        ]
      ]

  close_commit-Evolves :
      (req : ForgetRequest) (scope : Text) (at : ℕ) (s : Plane)
      → Evolves now none s.memories (close_commit e now req scope at s).1.memories
  unfolding close_commit close_row
  close_commit-Evolves req scope at s = elim (Option-cases (find (memory_key req.id) s.memories)) [
    | inl q ↦ rw (q, close_commit) (Evolves-refl s.memories)
    | inr (r, q) ↦ elim (Bool-cases (version_matches req.expected_version r && is_open r)) [
      | inl v ↦
          rw (q, v, close_commit)
            (update-Evolves (memory_key req.id) (closed_row now at) s.memories r q
              (closed_row-Ages now at r (ground arith)))
      | inr v ↦ rw (q, v, close_commit) (Evolves-refl s.memories)
    ]
  ]

  annotate_commit-Evolves :
      (req : AnnotateRequest) (scope : Text) (attrs : Option Json) (version : ℕ) (s : Plane)
      → Evolves now none s.memories (annotate_commit now req scope attrs version s).1.memories
  unfolding annotate_commit annotate_row
  annotate_commit-Evolves req scope attrs version s =
      elim (Option-cases (find (memory_key req.id) s.memories)) [
        | inl q ↦ rw (q, annotate_commit) (Evolves-refl s.memories)
        | inr (r, q) ↦ elim (Bool-cases (version_matches req.expected_version r)) [
          | inr v ↦ rw (q, v, annotate_commit) (Evolves-refl s.memories)
          | inl v ↦ elim (Bool-cases (is_some_and req.confidence (λ c. not (in_unit c)))) [
            | inl w ↦ rw (q, v, w, annotate_commit) (Evolves-refl s.memories)
            | inr w ↦
                rw (q, v, w, annotate_commit)
                  (update-Evolves (memory_key req.id) (annotated now req attrs) s.memories r q
                    (annotated-Ages now req attrs r))
          ]
        ]
      ]

  link_successor-Evolves :
      (key : Text) (req : SupersedeRequest) (close_at : ℕ) (new : PutRequest) (egen : Option ℕ)
      (s : Plane) (r : MemoryRecord)
      → find (memory_key req.prior_id) s.memories ≡ some r
      → closable req.expected_version r ≡ true
      → find key s.memories ≡ none
      → Evolves now none s.memories
          (link_successor now
            (memory_key req.prior_id)
            key
            req.prior_id
            req.expected_version
            close_at
            new
            egen
            s).memories
  unfolding link_successor
  link_successor-Evolves key req close_at new egen s r found may free =
      let prior = memory_key req.prior_id in
      let row : MemoryRecord = new_memory now key new egen (some (id_of prior)) in
      let closed : Table = update prior (closed_row now close_at) s.memories in
      let closing : Evolves now none s.memories closed =
        update-Evolves prior (closed_row now close_at) s.memories r found
          (closed_row-Ages now close_at r (ground arith)) in
      let still_free : find key closed ≡ none =
        find-update-none key prior (closed_row now close_at) s.memories free in
      let there : find prior (closed ++ (key, row) ∷ []) ≡ some (closed_row now close_at r) =
        find-append_old prior closed (key, row) (closed_row now close_at r)
          (find-update_self prior (closed_row now close_at) s.memories r found) in
      Evolves-trans closing (
        Evolves-trans (append-Evolves closed key row still_free (unfold new_memory in refl)) (
          Evolves-trans
            (update-Evolves prior (λ p. record p { superseded_by = some (id_of key) })
              (closed ++ (key, row) ∷ []) (closed_row now close_at r) there
              (Ages-edit (closed_row now close_at r) r.embedding r.embedding_generation
                (some (id_of key)) r.stale))
            (update_where-Evolves
              (λ k m. text_eq m.scope new.scope && depends_on_prior prior s.derivations k)
              (λ m. record m { stale = some true })
              (λ m. Ages-edit m m.embedding m.embedding_generation m.superseded_by (some true))
              (update prior (λ p. record p { superseded_by = some (id_of key) })
                (closed ++ (key, row) ∷ [])))))

  supersede_commit-Evolves :
      (key : Text) (req : SupersedeRequest) (close_at : ℕ) (new : PutRequest) (egen : Option ℕ)
      (s : Plane)
      → Fresh key s
      → Evolves now none s.memories (supersede_commit now key req close_at new egen s).1.memories
  unfolding supersede_commit
  supersede_commit-Evolves key req close_at new egen s f =
      elim (Option-cases (find (memory_key req.prior_id) s.memories)) [
        | inl q ↦ rw q (Evolves-refl s.memories)
        | inr (r, q) ↦ elim (Bool-cases (closable req.expected_version r)) [
          | inr w ↦ rw (q, w) (Evolves-refl s.memories)
          | inl w ↦
              rw (q, w, f.free) (link_successor-Evolves key req close_at new egen s r q w f.free)
        ]
      ]

  ensure-memories :
      (dim : ℕ) (configured : Option EmbeddingIdentity) (s : Plane)
      → (ensure_embedding_generation now dim configured s).1.memories ≡ s.memories
  unfolding ensure_embedding_generation
  ensure-memories dim configured s = ground arith

  declare-memories :
      (dim : ℕ) (identity : EmbeddingIdentity) (remark : Option Text) (s : Plane)
      → (declare_embedding_generation now dim identity remark s).1.memories ≡ s.memories
  unfolding declare_embedding_generation
  declare-memories dim identity remark s = ground arith

  stage-memories :
      (n : ℕ) (items : List StagedEmbedding) (s : Plane)
      → (stage_commit n items s).1.memories ≡ s.memories
  unfolding stage_commit
  stage-memories n items s = ground arith

  activate_commit-Evolves :
      (n : ℕ) (s : Plane) → Evolves now none s.memories (activate_commit now n s).1.memories
  unfolding activate_commit
  activate_commit-Evolves n s = elim (Bool-cases (covers n s.vectors s.memories)) [
    | inl q ↦ rw q (install-Evolves n s.vectors s.memories)
    | inr q ↦ rw q (Evolves-refl s.memories)
  ]

  pub Step-Evolves :
      {s s' : Plane} (st : Step e now s s') → Evolves now (erased_by st) s.memories s'.memories
  unfolding adopt
  Step-Evolves (creates key req egen {s} f v) = create_commit-Evolves key req egen s f
  Step-Evolves (claims k key req egen identity {s} f v) =
      claim_slot-Evolves k key req egen identity s f
  Step-Evolves (supersedes key req close_at new egen {s} f v) =
      supersede_commit-Evolves key req close_at new egen s f
  Step-Evolves (erases req scope version {s}) = erase_commit-Evolves req scope version s
  Step-Evolves (closes req scope at {s}) = close_commit-Evolves req scope at s
  Step-Evolves (annotates req scope attrs version {s}) =
      annotate_commit-Evolves req scope attrs version s
  Step-Evolves (links from to {s}) = Evolves-refl s.memories
  Step-Evolves (bootstraps dim configured {s}) =
      rw (ensure-memories dim configured s) (Evolves-refl s.memories)
  Step-Evolves (adopts c n {s}) = Evolves-refl s.memories
  Step-Evolves (declares dim identity remark {s}) =
      rw (declare-memories dim identity remark s) (Evolves-refl s.memories)
  Step-Evolves (stages n items {s}) = rw (stage-memories n items s) (Evolves-refl s.memories)
  Step-Evolves (activates n {s}) = activate_commit-Evolves n s
