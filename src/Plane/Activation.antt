-- ===== src/Plane/Activation.antt =====
-- The register of embedding generations over runs of the plane.
use nomiso.Prelude.{
  ℕ, ◌≡◌, refl, inl, inr, not, ◌&&◌, Option, arith, Bool-cases, Option-cases, ◌==◌, is_empty,
  is_some_and,
}
use nomiso.Prelude.Text.{Text}
use nomiso.Errors.{Result-cases}
use nomiso.Embeddings.{EmbeddingIdentity, is_unknown, compatible_with}
use nomiso.Memories.{PutRequest, SupersedeRequest, ForgetRequest}
use nomiso.Plane.{Plane, Env}
use nomiso.Plane.Generations.{
  adopt, adopted, ensure_embedding_generation, check_declared, first_active,
}
use nomiso.Plane.Writes.{create_commit, claim_slot}
use nomiso.Plane.Supersede.{supersede_commit, link_successor}
use nomiso.Plane.Forget.{erase_commit, erase_row, close_commit, close_row}
use nomiso.Json.{Json}
use nomiso.Plane.Annotate.{AnnotateRequest, annotate_commit, annotate_row}
use nomiso.Plane.World.{
  Step, creates, claims, supersedes, erases, closes, annotates, links, bootstraps, adopts, declares,
  stages, activates, Run, here, next, empty_plane,
}
use nomiso.Plane.Reindex.{
  Register, count, Register-update, declare-Register, stage-Register, activate-Register,
}

ensure-Register :
    (now dim : ℕ) (configured : Option EmbeddingIdentity) (s : Plane)
    → Register s.generations
    → Register (ensure_embedding_generation now dim configured s).1.generations
unfolding ensure_embedding_generation count
ensure-Register now dim configured s r = elim (Result-cases (check_declared dim configured)) [
  | inr (x, a) ↦ rw (a, ensure_embedding_generation) r
  | inl (u, a) ↦ elim (Option-cases (first_active s.generations)) [
    | inr (g, b) ↦
        elim (Bool-cases (is_some_and configured (λ d. not (compatible_with d g.identity)))) [
          | inl c ↦ rw (a, b, c, ensure_embedding_generation) r
          | inr c ↦ rw (a, b, c, ensure_embedding_generation) r
        ]
    | inl b ↦ elim (Bool-cases (is_empty s.generations)) [
      | inr c ↦ rw (a, b, c, ensure_embedding_generation) r
      | inl c ↦
          rw (a, b, c, ensure_embedding_generation)
            (record { distinct = (tt, tt); one_active = omega arith; one_building = omega arith })
    ]
  ]
]

create-generations :
    (now : ℕ) (key : Text) (req : PutRequest) (egen : Option ℕ) (s : Plane)
    → (create_commit now key req egen s).1.generations ≡ s.generations
unfolding create_commit
create-generations now key req egen s = ground arith

supersede-generations :
    (now : ℕ) (key : Text) (req : SupersedeRequest) (close_at : ℕ) (new : PutRequest)
    (egen : Option ℕ) (s : Plane)
    → (supersede_commit now key req close_at new egen s).1.generations ≡ s.generations
unfolding supersede_commit link_successor
supersede-generations now key req close_at new egen s = ground arith

erase-generations :
    (now : ℕ) (req : ForgetRequest) (scope : Text) (version : ℕ) (s : Plane)
    → (erase_commit now req scope version s).1.generations ≡ s.generations
unfolding erase_commit erase_row
erase-generations now req scope version s = ground arith

close-generations :
    (e : Env) (now : ℕ) (req : ForgetRequest) (scope : Text) (at : ℕ) (s : Plane)
    → (close_commit e now req scope at s).1.generations ≡ s.generations
unfolding close_commit close_row
close-generations e now req scope at s = ground arith

annotate-generations :
    (now : ℕ) (req : AnnotateRequest) (scope : Text) (attrs : Option Json) (version : ℕ) (s : Plane)
    → (annotate_commit now req scope attrs version s).1.generations ≡ s.generations
unfolding annotate_commit annotate_row
annotate-generations now req scope attrs version s = ground arith

Step-Register :
    {e : Env} {now : ℕ} {s s' : Plane}
    → Step e now s s'
    → Register s.generations
    → Register s'.generations
unfolding claim_slot adopt
Step-Register {now = now} (creates key req egen {s} f v) r =
    rw (create-generations now key req egen s) r
Step-Register (claims k key req egen identity f v) r = r
Step-Register {now = now} (supersedes key req close_at new egen {s} f v) r =
    rw (supersede-generations now key req close_at new egen s) r
Step-Register {now = now} (erases req scope version {s}) r =
    rw (erase-generations now req scope version s) r
Step-Register {e} {now} (closes req scope at {s}) r = rw (close-generations e now req scope at s) r
Step-Register {now = now} (annotates req scope attrs version {s}) r =
    rw (annotate-generations now req scope attrs version s) r
Step-Register (links from to) r = r
Step-Register {now = now} (bootstraps dim configured {s}) r = ensure-Register now dim configured s r
Step-Register (adopts c n {s}) r =
    Register-update (λ g. g.generation == n && is_unknown g.identity) (adopted c) (λ g. refl)
      (λ g. refl) s.generations r
Step-Register {now = now} (declares dim identity remark {s}) r =
    declare-Register now dim identity remark s r
Step-Register (stages n items {s}) r = stage-Register n items s r
Step-Register {now = now} (activates n {s}) r = activate-Register now n s r

-- In every run from an empty store, the numbers of the embedding generations are distinct, at most
-- one generation is active and at most one is being built.
pub run-Register :
    {e : Env} {from at : ℕ} {t : Plane} → Run e from empty_plane at t → Register t.generations
unfolding count
run-Register here = record { distinct = tt; one_active = omega arith; one_building = omega arith }
run-Register (next run le st) = Step-Register st (run-Register run)
