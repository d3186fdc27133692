-- ===== src/Plane/Calls.antt =====
-- crates/nomiso-store/src/surreal_store.rs: the methods of the memory plane that write, as calls.
use nomiso.Prelude.{ℕ, ◌≡◌, refl, ◌≤◌, arith, List, Option}
use nomiso.Prelude.Text.{Text}
use nomiso.Errors.{Result, ok, err}
use nomiso.Exec.{Exec, continue, ◌>>=◌}
use nomiso.Embeddings.{EmbeddingIdentity}
use nomiso.Memories.{MemoryId, PutRequest, SupersedeRequest, ForgetRequest}
use nomiso.Plane.{Plane, Env}
use nomiso.Plane.Generations.{
  ensure_embedding_generation, attest_embedding_identity, declare_embedding_generation,
}
use nomiso.Plane.Staging.{StagedEmbedding, stage_embeddings, activate_embedding_generation}
use nomiso.Plane.Writes.{put}
use nomiso.Plane.Supersede.{supersede}
use nomiso.Plane.Forget.{forget}
use nomiso.Plane.Annotate.{AnnotateRequest, annotate_memory, link_derived_from}
use nomiso.Plane.World.{Fresh, Step, Run, next}

pub data Call : Type 0 where
  putting : Text → PutRequest → Call
  superseding : Text → SupersedeRequest → Call
  forgetting : ForgetRequest → Call
  annotating : AnnotateRequest → Call
  linking : MemoryId → Text → MemoryId → Call
  migrating : ℕ → Option EmbeddingIdentity → Call
  attesting : EmbeddingIdentity → Call
  declaring : EmbeddingIdentity → Option Text → Call
  staging : ℕ → List StagedEmbedding → Call
  activating : ℕ → Call

-- The plane after a call. The key of a new record comes with the call.
unfoldable pub perform : Env → ℕ → Call → Plane → Plane
perform e now (putting key req) s = (put e now key req s).1
perform e now (superseding key req) s = (supersede e now key req s).1
perform e now (forgetting req) s = (forget e now req s).1
perform e now (annotating req) s = (annotate_memory e now req s).1
perform e now (linking id scope target) s = (link_derived_from id scope target s).1
perform e now (migrating dim configured) s = (ensure_embedding_generation now dim configured s).1
perform e now (attesting identity) s = (attest_embedding_identity identity s).1
perform e now (declaring identity remark) s =
    (declare_embedding_generation now e.limits.embedding_dim identity remark s).1
perform e now (staging n items) s = (stage_embeddings n items s).1
perform e now (activating n) s = (activate_embedding_generation now n s).1

-- A generated key is new.
abbrev pub IsReady : Plane → Call → Type 0
IsReady s (putting key req) = Fresh key s
IsReady s (superseding key req) = Fresh key s
IsReady s _ = Unit

-- Steps at one instant.
pub data Still (e : Env) (now : ℕ) (s : Plane) : Plane → Type 0 where
  done : Still e now s s
  more : {t u : Plane} → Still e now s t → Step e now t u → Still e now s u

pub once : {e : Env} {now : ℕ} {s t : Plane} → Step e now s t → Still e now s t
once st = more done st

-- They lengthen a run.
pub Run-append :
    {e : Env} {from at now : ℕ} {s t u : Plane}
    → Run e from s at t
    → at ≤ now
    → Still e now t u
    → (late : ℕ) × (late ≤ now) × Run e from s late u
Run-append {at = at} run le done = (at, le, run)
Run-append {now = now} run le (more still st) =
    let (late, before, joined) = Run-append run le still in
    (now, omega arith, next joined before st)

pub Still-trans :
    {e : Env} {now : ℕ} {s t u : Plane} → Still e now s t → Still e now t u → Still e now s u
Still-trans r done = r
Still-trans r (more still st) = more (Still-trans r still) st

module _ {e : Env} {now : ℕ} {A B : Type 0} where
  -- A program that goes on with a value that was found.
  pub continue-Still :
      (r : Result A) (f : A → Exec Plane B) (s : Plane)
      → ((a : A) → r ≡ ok a → Still e now s (f a s).1)
      → Still e now s (continue r f s).1
  continue-Still (ok a) f s k = k a refl
  continue-Still (err x) f s k = done

  pub bind-Still :
      (m : Exec Plane A) (f : A → Exec Plane B) (s : Plane)
      → Still e now s (m s).1
      → ((a : A) → (m s).0 ≡ ok a → Still e now (m s).1 (f a (m s).1).1)
      → Still e now s ((m >>= f) s).1
  bind-Still m f s first k = Still-trans first (continue-Still (m s).0 f (m s).1 k)

-- Calls in the order of their instants, from a plane at an instant to a plane at an instant.
pub data Session (e : Env) (from : ℕ) (s : Plane) : ℕ → Plane → Type 0 where
  opened : Session e from s from s
  called :
      {at now : ℕ} {t : Plane}
      → Session e from s at t
      → at ≤ now
      → (c : Call) → IsReady t c
      → Session e from s now (perform e now c t)
