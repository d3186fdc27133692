-- ===== src/Plane/Lasting.antt =====
-- A receipt lasts: runs keep the slots, and what they do not erase keeps its scope.
use nomiso.Prelude.{ℕ, ◌≡◌, sym, ◌∙◌, inl, inr, List, Option, true, some, arith}
use nomiso.Prelude.Text.{Text}
use nomiso.Prelude.Table.{find, find-append_old}
use nomiso.Errors.{ok}
use nomiso.Json.{Json}
use nomiso.Embeddings.{EmbeddingIdentity}
use nomiso.Scope.{ScopePath}
use nomiso.Memories.{PutRequest, SupersedeRequest, ForgetRequest, memory_key}
use nomiso.Validation.{validate_put_shape}
use nomiso.Plane.{MemoryRecord, WriteResult, Slot, Plane, Env, id_of}
use nomiso.Plane.Generations.{ensure_embedding_generation, adopt, declare_embedding_generation}
use nomiso.Plane.Staging.{StagedEmbedding, stage_commit, activate_commit}
use nomiso.Plane.Receipts.{idempotency_slot_id}
use nomiso.Plane.Writes.{create_commit, claim_slot, put}
use nomiso.Plane.Supersede.{supersede_commit, link_successor}
use nomiso.Plane.Forget.{erase_commit, erase_row, close_commit, close_row}
use nomiso.Plane.Annotate.{AnnotateRequest, annotate_commit, annotate_row}
use nomiso.Plane.World.{
  Step, Run, here, next, Erases, creates, claims, supersedes, erases, closes, annotates, links,
  bootstraps, adopts, declares, stages, activates,
}
use nomiso.Plane.Steps.{Step-Evolves}
use nomiso.Plane.Replay.{put-once, put_present}

module _ (e : Env) (now : ℕ) where
  create-slots :
      (key : Text) (req : PutRequest) (egen : Option ℕ) (s : Plane)
      → (create_commit now key req egen s).1.slots ≡ s.slots
  unfolding create_commit
  create-slots key req egen s = ground arith

  supersede-slots :
      (key : Text) (req : SupersedeRequest) (close_at : ℕ) (new : PutRequest) (egen : Option ℕ)
      (s : Plane)
      → (supersede_commit now key req close_at new egen s).1.slots ≡ s.slots
  unfolding supersede_commit link_successor
  supersede-slots key req close_at new egen s = ground arith

  erase-slots :
      (req : ForgetRequest) (scope : Text) (version : ℕ) (s : Plane)
      → (erase_commit now req scope version s).1.slots ≡ s.slots
  unfolding erase_commit erase_row
  erase-slots req scope version s = ground arith

  close-slots :
      (req : ForgetRequest) (scope : Text) (at : ℕ) (s : Plane)
      → (close_commit e now req scope at s).1.slots ≡ s.slots
  unfolding close_commit close_row
  close-slots req scope at s = ground arith

  annotate-slots :
      (req : AnnotateRequest) (scope : Text) (attrs : Option Json) (version : ℕ) (s : Plane)
      → (annotate_commit now req scope attrs version s).1.slots ≡ s.slots
  unfolding annotate_commit annotate_row
  annotate-slots req scope attrs version s = ground arith

  ensure-slots :
      (dim : ℕ) (configured : Option EmbeddingIdentity) (s : Plane)
      → (ensure_embedding_generation now dim configured s).1.slots ≡ s.slots
  unfolding ensure_embedding_generation
  ensure-slots dim configured s = ground arith

  declare-slots :
      (dim : ℕ) (identity : EmbeddingIdentity) (remark : Option Text) (s : Plane)
      → (declare_embedding_generation now dim identity remark s).1.slots ≡ s.slots
  unfolding declare_embedding_generation
  declare-slots dim identity remark s = ground arith

  stage-slots :
      (n : ℕ) (items : List StagedEmbedding) (s : Plane)
      → (stage_commit n items s).1.slots ≡ s.slots
  unfolding stage_commit
  stage-slots n items s = ground arith

  activate-slots : (n : ℕ) (s : Plane) → (activate_commit now n s).1.slots ≡ s.slots
  unfolding activate_commit
  activate-slots n s = ground arith

  Step-slots :
      {s s' : Plane} (i : Text) (x : Slot)
      → Step e now s s'
      → find i s.slots ≡ some x
      → find i s'.slots ≡ some x
  unfolding claim_slot adopt
  Step-slots i x (creates key req egen {s} f v) h = rw (create-slots key req egen s) h
  Step-slots i x (claims k key req egen identity {s} f v) h = find-append_old i s.slots _ x h
  Step-slots i x (supersedes key req close_at new egen {s} f v) h =
      rw (supersede-slots key req close_at new egen s) h
  Step-slots i x (erases req scope version {s}) h = rw (erase-slots req scope version s) h
  Step-slots i x (closes req scope at {s}) h = rw (close-slots req scope at s) h
  Step-slots i x (annotates req scope attrs version {s}) h =
      rw (annotate-slots req scope attrs version s) h
  Step-slots i x (links from to {s}) h = h
  Step-slots i x (bootstraps dim configured {s}) h = rw (ensure-slots dim configured s) h
  Step-slots i x (adopts c n {s}) h = h
  Step-slots i x (declares dim identity remark {s}) h = rw (declare-slots dim identity remark s) h
  Step-slots i x (stages n items {s}) h = rw (stage-slots n items s) h
  Step-slots i x (activates n {s}) h = rw (activate-slots n s) h

Run-slots :
    {e : Env} {from : ℕ} {s : Plane} {at : ℕ} {t : Plane} (i : Text) (x : Slot)
    → Run e from s at t
    → find i s.slots ≡ some x
    → find i t.slots ≡ some x
Run-slots i x here h = h
Run-slots {e} i x (next {now = now} run le st) h = Step-slots e now i x st (Run-slots i x run h)

-- A memory that a run does not erase keeps its place and its scope.
Run-scope :
    {e : Env} {from : ℕ} {s : Plane} {at : ℕ} {t : Plane} (k scope : Text) (m : MemoryRecord)
    (run : Run e from s at t)
    → (Erases k run → ⊥)
    → find k s.memories ≡ some m
    → m.scope ≡ scope
    → (m' : MemoryRecord) × (find k t.memories ≡ some m') × (m'.scope ≡ scope)
Run-scope k scope m here spared h same = (m, h, same)
Run-scope {e} k scope m (next {now = now} run le st) spared h same =
    let (r, f, g) = Run-scope k scope m run (λ x. spared (inl x)) h same in
    elim ((Step-Evolves e now st).kept k r f) [
      | inl gone ↦ absurd (spared (inr gone))
      | inr (m', there, ages) ↦ (m', there, ages.same_scope ∙ g)
    ]

-- After a keyed put that returned a result, whatever any number of clients do to the memories and
-- the embedding generations short of erasing the memory of the result, the same request returns the
-- result as a replay, with the record as the put wrote it, at any instant and under any generated
-- key, and writes nothing.
pub put-lasts :
    (e : Env) (now now' from at : ℕ) (key key' k : Text) (req : PutRequest) (path : ScopePath)
    (s s' t : Plane) (w : WriteResult) (run : Run e from s' at t)
    → put e now key req s ≡ (ok w, s')
    → req.idempotency_key ≡ some k
    → validate_put_shape e.host req e.limits ≡ ok path
    → (Erases (memory_key (id_of (memory_key w.id))) run → ⊥)
    → put e now' key' req t ≡ (ok (record w { replayed = true }), t)
put-lasts e now now' from at key key' k req path s s' t w run h keyed shape spared =
    let (slot, current, taken, there, inside) =
      put_present e req path k shape keyed now key s s' w h in
    let (m, kept, same) =
      Run-scope (memory_key (id_of (memory_key w.id))) path.as_str current run spared there
        inside in
    let slots : find (idempotency_slot_id path.as_str k) t.slots
        ≡ find (idempotency_slot_id path.as_str k) s'.slots =
      Run-slots (idempotency_slot_id path.as_str k) slot run taken ∙ sym taken in
    (put-once e now now' key key' k req req path s s' t w m h keyed shape keyed shape slots kept
      same).0
