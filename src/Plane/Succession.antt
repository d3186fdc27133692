-- ===== src/Plane/Succession.antt =====
-- What a supersession commits.
use nomiso.Prelude.{
  ℕ, ◌≡◌, ◌≢◌, refl, ap, sym, ◌∙◌, inl, inr, true, ◌&&◌, List, [], ◌∷◌, ◌++◌, Option, none, some,
  if◌then◌else◌, Bool-cases, is_some, ltb,
}
use nomiso.Prelude.Text.{Text, text_eq}
use nomiso.Prelude.Table.{
  find, update, find-update_self, find-update_ne, find-update_where, find-append_old,
  find-append_new, find-append_ne, find-update-none,
}
use nomiso.Embeddings.{EmbeddingIdentity, is_unknown, compatible_with}
use nomiso.Memories.{PutRequest, SupersedeRequest, memory_key}
use nomiso.Plane.{MemoryRecord, RelationshipRow, EmbeddingGeneration, Plane, id_of}
use nomiso.Plane.Generations.{
  adopt, resolve_embedding_for_write, resolve_claim, adopt_or_refuse, active_generation,
  embedded_memory_count,
}
use nomiso.Plane.Writes.{new_memory, generation_for}
use nomiso.Plane.Supersede.{
  link_successor, closed_row, depends_on_prior, touches, is_active_edge, is_derivation, stale_edge,
}

-- Tables that finding the generation of a vector leaves alone.
pub record KeepsRows (s s' : Plane) : Type 0 where
  pub memories : s'.memories ≡ s.memories
  pub slots : s'.slots ≡ s.slots
  pub derivations : s'.derivations ≡ s.derivations
  pub relationships : s'.relationships ≡ s.relationships
  pub events : s'.events ≡ s.events

KeepsRows-refl : (s : Plane) → KeepsRows s s
KeepsRows-refl s = record {
  memories = refl;
  slots = refl;
  derivations = refl;
  relationships = refl;
  events = refl;
}

adopt_or_refuse-KeepsRows :
    (c : EmbeddingIdentity) (g : EmbeddingGeneration) (s : Plane)
    → KeepsRows s (adopt_or_refuse c g s).1
unfolding adopt_or_refuse adopt
adopt_or_refuse-KeepsRows c g s = elim (Bool-cases (is_unknown g.identity)) [
  | inr a ↦ rw a (KeepsRows-refl s)
  | inl a ↦ elim (Bool-cases (ltb 0 (embedded_memory_count s))) [
    | inl b ↦ rw (a, b) (KeepsRows-refl s)
    | inr b ↦
        rw (a, b)
          (record {
            memories = refl;
            slots = refl;
            derivations = refl;
            relationships = refl;
            events = refl;
          })
  ]
]

resolve_claim-KeepsRows :
    (o : Option EmbeddingIdentity) (g : Option EmbeddingGeneration) (s : Plane)
    → KeepsRows s (resolve_claim o g s).1
unfolding resolve_claim
resolve_claim-KeepsRows none g s = KeepsRows-refl s
resolve_claim-KeepsRows (some c) none s = KeepsRows-refl s
resolve_claim-KeepsRows (some c) (some g) s = elim (Bool-cases (compatible_with c g.identity)) [
  | inl a ↦ rw a (KeepsRows-refl s)
  | inr a ↦ rw a (adopt_or_refuse-KeepsRows c g s)
]

pub generation_for-KeepsRows : (req : PutRequest) (s : Plane) → KeepsRows s (generation_for req s).1
unfolding generation_for resolve_embedding_for_write
generation_for-KeepsRows req s = elim (Bool-cases (is_some req.embedding)) [
  | inl a ↦ rw a (resolve_claim-KeepsRows req.embedding_identity (active_generation s) s)
  | inr a ↦ rw a (KeepsRows-refl s)
]

-- The rows after the transaction, from the rows before it.
module _ (now : ℕ) (key : Text) (req : SupersedeRequest) (close_at : ℕ) (new : PutRequest)
    (egen : Option ℕ) (s : Plane) (prior : MemoryRecord) where
  abbrev prior_key : Text
  prior_key = memory_key req.prior_id

  abbrev row : MemoryRecord
  row = new_memory now key new egen (some (id_of prior_key))

  abbrev pub after : Plane
  after = link_successor now prior_key key req.prior_id req.expected_version close_at new egen s

  -- A dependent of the prior in its scope becomes stale.
  abbrev pub marked : Text → MemoryRecord → MemoryRecord
  marked k r =
      if text_eq r.scope new.scope && depends_on_prior prior_key s.derivations k
      then record r { stale = some true }
      else r

  abbrev pub ended : MemoryRecord
  ended = record (closed_row now close_at prior) { superseded_by = some (id_of key) }

  abbrev pub marked_edge : Text → RelationshipRow → RelationshipRow
  marked_edge k e =
      if text_eq e.edge.scope new.scope
        && (is_active_edge e.edge.state && (is_derivation e.edge.predicate && touches prior_key e))
      then stale_edge now e
      else e

  module _ (at_prior : find prior_key s.memories ≡ some prior)
      (free : find key s.memories ≡ none) where
    apart : prior_key ≡ key → ⊥
    apart h = cc (ap (λ (t : Text). find t s.memories) h)

    abbrev linked : List (Text × MemoryRecord)
    linked =
        update prior_key (λ p. record p { superseded_by = some (id_of key) })
          (update prior_key (closed_row now close_at) s.memories ++ (key, row) ∷ [])

    pub find-after_prior : find prior_key after.memories ≡ some (marked prior_key ended)
    unfolding link_successor
    find-after_prior =
        find-update_where
          (λ k m. text_eq m.scope new.scope && depends_on_prior prior_key s.derivations k)
          (λ m. record m { stale = some true }) prior_key linked ended
          (find-update_self prior_key (λ p. record p { superseded_by = some (id_of key) })
            (update prior_key (closed_row now close_at) s.memories ++ (key, row) ∷ [])
            (closed_row now close_at prior)
            (find-append_old prior_key (update prior_key (closed_row now close_at) s.memories)
              (key, row) (closed_row now close_at prior)
              (find-update_self prior_key (closed_row now close_at) s.memories prior at_prior)))

    pub find-after_new : find key after.memories ≡ some (marked key row)
    unfolding link_successor
    find-after_new =
        find-update_where
          (λ k m. text_eq m.scope new.scope && depends_on_prior prior_key s.derivations k)
          (λ m. record m { stale = some true }) key linked row
          (find-update_ne prior_key (λ p. record p { superseded_by = some (id_of key) }) key
              (update prior_key (closed_row now close_at) s.memories ++ (key, row) ∷ [])
              (λ h. apart (sym h))
            ∙ find-append_new key (update prior_key (closed_row now close_at) s.memories) row
                (find-update-none key prior_key (closed_row now close_at) s.memories free))

    pub find-after_other :
        (k : Text) (r : MemoryRecord)
        → k ≢ prior_key
        → k ≢ key
        → find k s.memories ≡ some r
        → find k after.memories ≡ some (marked k r)
    unfolding link_successor
    find-after_other k r n m e =
        find-update_where
          (λ k m. text_eq m.scope new.scope && depends_on_prior prior_key s.derivations k)
          (λ m. record m { stale = some true }) k linked r
          (find-update_ne prior_key (λ p. record p { superseded_by = some (id_of key) }) k
              (update prior_key (closed_row now close_at) s.memories ++ (key, row) ∷ []) n
            ∙ (find-append_ne k (update prior_key (closed_row now close_at) s.memories) key row m
                ∙ (find-update_ne prior_key (closed_row now close_at) k s.memories n ∙ e)))

    pub find-after_edge :
        (k : Text) (r : RelationshipRow)
        → find k s.relationships ≡ some r
        → find k after.relationships ≡ some (marked_edge k r)
    unfolding link_successor
    find-after_edge k r e =
        find-update_where
          (λ k e.
            text_eq e.edge.scope new.scope
            && (is_active_edge e.edge.state
                && (is_derivation e.edge.predicate && touches prior_key e)))
          (stale_edge now) k s.relationships r e
