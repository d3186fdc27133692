-- ===== src/Plane/World.antt =====
-- The statements on the memory plane as the steps of any number of clients, in the order of their
-- commits. What a client read earlier is an argument of its step, so that a step may use it late.
use nomiso.Prelude.{
  ℕ, ◌≤◌, Bool, false, ◌≡◌, ◌⊎◌, ◌||◌, List, [], ◌∷◌, ◌++◌, Option, none, some, any,
}
use nomiso.Prelude.Text.{Text, text_eq}
use nomiso.Prelude.Table.{find}
use nomiso.Errors.{ok}
use nomiso.Json.{Json}
use nomiso.Embeddings.{EmbeddingIdentity}
use nomiso.Memories.{MemoryId, PutRequest, SupersedeRequest, ForgetRequest, memory_key}
use nomiso.Validation.{validate_interval_after_defaults}
use nomiso.Plane.{Plane, Env, id_of}
use nomiso.Plane.Generations.{ensure_embedding_generation, adopt, declare_embedding_generation}
use nomiso.Plane.Staging.{StagedEmbedding, stage_commit, activate_commit}
use nomiso.Plane.Writes.{create_commit, claim_slot}
use nomiso.Plane.Supersede.{supersede_commit}
use nomiso.Plane.Forget.{erase_commit, close_commit}
use nomiso.Plane.Annotate.{AnnotateRequest, annotate_commit}
use nomiso.Prelude.{unwrap_or}

-- `Uuid::now_v7`: a new key reads back from its id, and neither a row nor a link has it.
abbrev pub refers : Text → Option MemoryId → Bool
refers key none = false
refers key (some id) = text_eq (memory_key id) key

pub record Fresh (key : Text) (s : Plane) : Type 0 where
  pub readable : memory_key (id_of key) ≡ key
  pub free : find key s.memories ≡ none
  pub unreferenced :
      any (λ (k, r). refers key r.supersedes || refers key r.superseded_by) s.memories ≡ false

-- A step at the instant `now`.
pub data Step (e : Env) (now : ℕ) : Plane → Plane → Type 0 where
  creates :
      (key : Text) (req : PutRequest) (egen : Option ℕ) {s : Plane}
      → Fresh key s
      → validate_interval_after_defaults (unwrap_or req.valid_from now) req.valid_until ≡ ok tt
      → Step e now s (create_commit now key req egen s).1
  claims :
      (k key : Text) (req : PutRequest) (egen : Option ℕ) (identity : Text) {s : Plane}
      → Fresh key s
      → validate_interval_after_defaults (unwrap_or req.valid_from now) req.valid_until ≡ ok tt
      → Step e now s (claim_slot now k key req egen identity s)
  supersedes :
      (key : Text) (req : SupersedeRequest) (close_at : ℕ) (new : PutRequest) (egen : Option ℕ)
      {s : Plane}
      → Fresh key s
      → validate_interval_after_defaults (unwrap_or new.valid_from now) new.valid_until ≡ ok tt
      → Step e now s (supersede_commit now key req close_at new egen s).1
  erases :
      (req : ForgetRequest) (scope : Text) (version : ℕ) {s : Plane}
      → Step e now s (erase_commit now req scope version s).1
  closes :
      (req : ForgetRequest) (scope : Text) (at : ℕ) {s : Plane}
      → Step e now s (close_commit e now req scope at s).1
  annotates :
      (req : AnnotateRequest) (scope : Text) (attrs : Option Json) (version : ℕ) {s : Plane}
      → Step e now s (annotate_commit now req scope attrs version s).1
  links :
      (from to : Text) {s : Plane}
      → Step e now s (record s { derivations = s.derivations ++ (from, to) ∷ [] })
  bootstraps :
      (dim : ℕ) (configured : Option EmbeddingIdentity) {s : Plane}
      → Step e now s (ensure_embedding_generation now dim configured s).1
  adopts : (c : EmbeddingIdentity) (n : ℕ) {s : Plane} → Step e now s (adopt c n s)
  declares :
      (dim : ℕ) (identity : EmbeddingIdentity) (remark : Option Text) {s : Plane}
      → Step e now s (declare_embedding_generation now dim identity remark s).1
  stages :
      (n : ℕ) (items : List StagedEmbedding) {s : Plane} → Step e now s (stage_commit n items s).1
  activates : (n : ℕ) {s : Plane} → Step e now s (activate_commit now n s).1

-- The key of the row that a step may erase.
abbrev pub erased_by : {e : Env} {now : ℕ} {s s' : Plane} → Step e now s s' → Option Text
erased_by (creates key req egen f v) = none
erased_by (claims k key req egen identity f v) = none
erased_by (supersedes key req close_at new egen f v) = none
erased_by (erases req scope version) = some (memory_key req.id)
erased_by (closes req scope at) = none
erased_by (annotates req scope attrs version) = none
erased_by (links from to) = none
erased_by (bootstraps dim configured) = none
erased_by (adopts c n) = none
erased_by (declares dim identity remark) = none
erased_by (stages n items) = none
erased_by (activates n) = none

-- Runs in which the clock does not go back: from a plane at an instant to a plane at an instant.
pub data Run (e : Env) (from : ℕ) (s : Plane) : ℕ → Plane → Type 0 where
  here : Run e from s from s
  next :
      {at now : ℕ} {t u : Plane}
      → Run e from s at t
      → at ≤ now
      → Step e now t u
      → Run e from s now u

-- Some step of the run erases the row under the key.
abbrev pub Erases :
    {e : Env} {from : ℕ} {s : Plane} (k : Text) {at : ℕ} {t : Plane} → Run e from s at t → Type 0
Erases k here = ⊥
Erases k (next r le st) = Erases k r ⊎ (erased_by st ≡ some k)

abbrev pub empty_plane : Plane
empty_plane = record {
  memories = [];
  events = [];
  slots = [];
  lineage = [];
  derivations = [];
  relationships = [];
  generations = [];
  vectors = [];
  entities = [];
  relationship_events = [];
}
