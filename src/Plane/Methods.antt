-- ===== src/Plane/Methods.antt =====
-- Every method of the memory plane is a run of the interleaving steps.
use nomiso.Prelude.{
  ℕ, zero, suc, ◌≡◌, ◌==◌, refl, ◌≤◌, inl, inr, false, true, Bool, not, ◌&&◌, ◌||◌, if◌then◌else◌,
  List, Option, none, some, arith, ltb, Bool-cases, Option-cases, is_some, unwrap_or,
}
use nomiso.Prelude.Text.{Text, text_eq}
use nomiso.Prelude.Table.{find}
use nomiso.Errors.{ok, Result-cases, refuse_if, invalid_op, scope_denied}
use nomiso.Exec.{Exec, pure, ◌>>=◌, lift}
use nomiso.Scope
use nomiso.Scope.{ScopePath}
use nomiso.Embeddings.{Float, EmbeddingIdentity, is_unknown, compatible_with}
use nomiso.Memories.{MemoryId, PutRequest, SupersedeRequest, ForgetRequest, memory_key}
use nomiso.Validation.{
  validate_put_shape, validate_put, validate_supersede, validate_forget,
  validate_interval_after_defaults,
}
use nomiso.Plane.{WriteResult, EmbeddingGeneration, Plane, Env, fetch_memory}
use nomiso.Plane.Generations.{
  active_generation, adopt_or_refuse, resolve_claim, resolve_embedding_for_write,
  embedded_memory_count, attest_embedding_identity, generation_at, is_building, is_retired,
}
use nomiso.Plane.Staging.{
  stage_embeddings, check_dimensions, activate_embedding_generation, StagedEmbedding,
}
use nomiso.Plane.Receipts.{
  idempotency_slot_id, put_request_identity, lookup_put_receipt, lookup_put_receipt_expect,
}
use nomiso.Plane.Writes.{
  generation_for, create_memory, create_commit, put_attempts, put_idempotent, put_new, put_unseen,
  answer, put_prepared, put, with_generated, check_generated, written,
}
use nomiso.Plane.Supersede.{
  supersede, supersede_commit, found_memory, check_prior, successor, close_instant,
}
use nomiso.Plane.Forget.{forget, forget_row, check_forget, check_expected}
use nomiso.Plane.Annotate.{
  AnnotateRequest, annotate_memory, merged_attrs, check_attrs, link_derived_from,
}
use nomiso.Plane.World.{
  Fresh, creates, claims, supersedes, erases, closes, annotates, links, bootstraps, adopts,
  declares, stages, activates, Run, here,
}
use nomiso.Plane.Succession.{KeepsRows, generation_for-KeepsRows}
use nomiso.Plane.Calls.{
  Call, putting, superseding, forgetting, annotating, linking, migrating, attesting, declaring,
  staging, activating, perform, IsReady, Still, done, once, Run-append, continue-Still, bind-Still,
  Session, opened, called,
}

Fresh-KeepsRows : (key : Text) (s t : Plane) → KeepsRows s t → Fresh key s → Fresh key t
Fresh-KeepsRows key s t k f = record {
  readable = f.readable;
  free = rw k.memories f.free;
  unreferenced = rw k.memories f.unreferenced;
}

module _ {e : Env} {now : ℕ} where
  adopt_or_refuse-Still :
      (c : EmbeddingIdentity) (g : EmbeddingGeneration) (s : Plane)
      → Still e now s (adopt_or_refuse c g s).1
  unfolding adopt_or_refuse
  adopt_or_refuse-Still c g s = elim (Bool-cases (is_unknown g.identity)) [
    | inr a ↦ rw a done
    | inl a ↦ elim (Bool-cases (ltb 0 (embedded_memory_count s))) [
      | inl b ↦ rw (a, b) done
      | inr b ↦ rw (a, b) (once (adopts c g.generation))
    ]
  ]

  resolve_claim-Still :
      (claimed : Option EmbeddingIdentity) (gen : Option EmbeddingGeneration) (s : Plane)
      → Still e now s (resolve_claim claimed gen s).1
  unfolding resolve_claim
  resolve_claim-Still none gen s = done
  resolve_claim-Still (some c) none s = done
  resolve_claim-Still (some c) (some g) s = elim (Bool-cases (compatible_with c g.identity)) [
    | inl a ↦ rw a done
    | inr a ↦ rw a (adopt_or_refuse-Still c g s)
  ]

  generation_for-Still : (req : PutRequest) (s : Plane) → Still e now s (generation_for req s).1
  unfolding generation_for resolve_embedding_for_write
  generation_for-Still req s = elim (Bool-cases (is_some req.embedding)) [
    | inl a ↦ rw a (resolve_claim-Still req.embedding_identity (active_generation s) s)
    | inr a ↦ rw a done
  ]

  module _ (key : Text) where
    create_memory-Still :
        (req : PutRequest) (s : Plane) → Fresh key s → Still e now s (create_memory now key req s).1
    unfolding create_memory
    create_memory-Still req s fresh =
        continue-Still
          (validate_interval_after_defaults (unwrap_or req.valid_from now) req.valid_until)
          (λ _. generation_for req >>= create_commit now key req) s
          (λ u valid.
            bind-Still (generation_for req) (create_commit now key req) s
              (generation_for-Still req s)
              (λ egen _. once (
                creates key req egen
                  (Fresh-KeepsRows key s (generation_for req s).1 (generation_for-KeepsRows req s)
                    fresh)
                  (rw valid refl))))

    put_attempts-Still :
        (k identity : Text) (original req : PutRequest) (egen : Option ℕ) (rounds : ℕ) (s : Plane)
        → Fresh key s
        → validate_interval_after_defaults (unwrap_or req.valid_from now) req.valid_until ≡ ok tt
        → Still e now s (put_attempts e now k key original req egen identity rounds s).1
    unfolding put_attempts
    put_attempts-Still k identity original req egen zero s fresh valid = done
    put_attempts-Still k identity original req egen (suc rounds) s fresh valid =
        elim (Bool-cases (is_some (find (idempotency_slot_id req.scope k) s.slots))) [
          | inl a ↦ elim (Result-cases (lookup_put_receipt_expect e original identity s)) [
            | inr (x, b) ↦ rw (a, b, put_attempts) done
            | inl (o, b) ↦ elim (Option-cases o) [
              | inl c ↦
                  rw (a, b, c, put_attempts)
                    (put_attempts-Still k identity original req egen rounds s fresh valid)
              | inr (w, c) ↦ rw (a, b, c, put_attempts) done
            ]
          ]
          | inr a ↦
              let free = fresh.free in
              rw (a, free, put_attempts) (once (claims k key req egen identity fresh valid))
        ]

    put_idempotent-Still :
        (k : Text) (original req : PutRequest) (s : Plane)
        → Fresh key s
        → Still e now s (put_idempotent e now k key original req s).1
    unfolding put_idempotent
    put_idempotent-Still k original req s fresh =
        bind-Still (generation_for req)
          (λ egen.
            lift (validate_interval_after_defaults (unwrap_or req.valid_from now) req.valid_until)
            >>= λ _. put_attempts e now k key original req egen (put_request_identity e original) 3)
          s (generation_for-Still req s)
          (λ egen _.
            continue-Still
              (validate_interval_after_defaults (unwrap_or req.valid_from now) req.valid_until)
              (λ _. put_attempts e now k key original req egen (put_request_identity e original) 3)
              (generation_for req s).1
              (λ u valid.
                put_attempts-Still k (put_request_identity e original) original req egen 3
                  (generation_for req s).1
                  (Fresh-KeepsRows key s (generation_for req s).1 (generation_for-KeepsRows req s)
                    fresh)
                  (rw valid refl)))

    put_new-Still :
        (original req : PutRequest) (k : Option Text) (s : Plane)
        → Fresh key s
        → Still e now s (put_new e now key original req k s).1
    unfolding put_new
    put_new-Still original req none s fresh =
        bind-Still (create_memory now key req) (λ r. pure (written r)) s
          (create_memory-Still req s fresh) (λ r _. done)
    put_new-Still original req (some k) s fresh = put_idempotent-Still k original req s fresh

    put_unseen-Still :
        (req : PutRequest) (generated : Option (List Float)) (s : Plane)
        → Fresh key s
        → Still e now s (put_unseen e now key req generated s).1
    unfolding put_unseen
    put_unseen-Still req generated s fresh =
        continue-Still (validate_put e.host now req e.limits)
          (λ _. lift (check_generated e now req generated) >>= λ _.
            put_new e now key req (with_generated generated req) req.idempotency_key)
          s
          (λ path _.
            continue-Still (check_generated e now req generated)
              (λ _. put_new e now key req (with_generated generated req) req.idempotency_key) s
              (λ u _. put_new-Still req (with_generated generated req) req.idempotency_key s fresh))

    answer-Still :
        (seen : Option WriteResult) (m : Exec Plane WriteResult) (s : Plane)
        → Still e now s (m s).1
        → Still e now s (answer seen m s).1
    unfolding answer
    answer-Still none m s k = k
    answer-Still (some w) m s k = done

    put-Still : (req : PutRequest) (s : Plane) → Fresh key s → Still e now s (put e now key req s).1
    unfolding put put_prepared
    put-Still raw s fresh = continue-Still (validate_put_shape e.host raw e.limits) _ s (λ scope _.
        let req : PutRequest = record raw { scope = scope.as_str } in
        continue-Still
          (refuse_if (is_some req.embedding && false)
            (invalid_op "cannot supply both original and generated embeddings"))
          _ s
          (λ u _. continue-Still (lookup_put_receipt e req s) _ s (λ seen _.
            answer-Still seen (put_unseen e now key req none) s
              (put_unseen-Still req none s fresh))))

    supersede-Still :
        (req : SupersedeRequest) (s : Plane)
        → Fresh key s
        → Still e now s (supersede e now key req s).1
    unfolding supersede
    supersede-Still req s fresh =
        continue-Still (validate_supersede e.host now req e.limits) _ s (λ scope _.
          let new : PutRequest = successor now scope.as_str req in
          continue-Still (found_memory (fetch_memory req.prior_id s)) _ s (λ prior _.
            continue-Still (check_prior now scope.as_str req prior) _ s (λ u _.
              continue-Still
                (validate_interval_after_defaults (unwrap_or new.valid_from (close_instant now req))
                  new.valid_until)
                _ s
                (λ v valid.
                  bind-Still (generation_for new)
                    (λ egen. supersede_commit now key req (close_instant now req) new egen) s
                    (generation_for-Still new s)
                    (λ egen _. once (
                      supersedes key req (close_instant now req) new egen
                        (Fresh-KeepsRows key s (generation_for new s).1
                          (generation_for-KeepsRows new s) fresh)
                        (rw valid refl)))))))

  if-Still :
      {A : Type 0} (b : Bool) (m n : Exec Plane A) (s : Plane)
      → Still e now s (m s).1
      → Still e now s (n s).1
      → Still e now s ((if b then m else n) s).1
  if-Still true m n s k l = k
  if-Still false m n s k l = l

  forget-Still : (req : ForgetRequest) (s : Plane) → Still e now s (forget e now req s).1
  unfolding forget forget_row
  forget-Still req s = continue-Still (validate_forget req) _ s (λ scope _.
      continue-Still (found_memory (fetch_memory req.id s)) _ s (λ r _.
        continue-Still (check_forget scope.as_str req r) _ s (λ u _.
          if-Still req.hard _ _ s (once (erases req scope.as_str r.version)) (
            continue-Still
              (refuse_if (ltb (unwrap_or req.at now) r.valid_from)
                (invalid_op "soft-forget is before valid_from"))
              _ s (λ v _. once (closes req scope.as_str (unwrap_or req.at now)))))))

  annotate_memory-Still :
      (req : AnnotateRequest) (s : Plane) → Still e now s (annotate_memory e now req s).1
  unfolding annotate_memory
  annotate_memory-Still req s = continue-Still (Scope.parse req.scope) _ s (λ scope _.
      continue-Still (found_memory (fetch_memory req.id s)) _ s (λ r _.
        continue-Still
          (refuse_if (not (text_eq r.scope scope.as_str)) (scope_denied "annotate scope")) _ s
          (λ u _. continue-Still (check_expected req.expected_version r) _ s (λ v _.
            continue-Still (check_attrs e (merged_attrs r.content.attrs req.attrs)) _ s (λ w _.
              once
                (annotates req scope.as_str (merged_attrs r.content.attrs req.attrs) r.version))))))

  link_derived_from-Still :
      (id : MemoryId) (raw_scope : Text) (target : MemoryId) (s : Plane)
      → Still e now s (link_derived_from id raw_scope target s).1
  unfolding link_derived_from
  link_derived_from-Still id raw_scope target s =
      continue-Still (Scope.parse raw_scope) _ s (λ scope _.
        continue-Still (found_memory (fetch_memory id s)) _ s (λ r _.
          continue-Still
            (refuse_if (not (text_eq r.scope scope.as_str))
              (scope_denied "link_derived_from scope"))
            _ s (λ u _. once (links (memory_key id) (memory_key target)))))

  attest-Still :
      (identity : EmbeddingIdentity) (s : Plane)
      → Still e now s (attest_embedding_identity identity s).1
  unfolding attest_embedding_identity
  attest-Still identity s = elim (Option-cases (active_generation s)) [
    | inl a ↦ rw (a, attest_embedding_identity) done
    | inr (g, a) ↦ elim (Bool-cases (not (is_unknown g.identity))) [
      | inl b ↦ rw (a, b, attest_embedding_identity) done
      | inr b ↦ elim (Bool-cases (not (identity.dimension == g.identity.dimension))) [
        | inl c ↦ rw (a, b, c, attest_embedding_identity) done
        | inr c ↦ rw (a, b, c, attest_embedding_identity) (once (adopts identity g.generation))
      ]
    ]
  ]

  stage-Still :
      (n : ℕ) (items : List StagedEmbedding) (s : Plane)
      → Still e now s (stage_embeddings n items s).1
  unfolding stage_embeddings
  stage-Still n items s = elim (Option-cases (generation_at n s.generations)) [
    | inl a ↦ rw (a, stage_embeddings) done
    | inr (g, a) ↦ elim (Bool-cases (not (is_building g.status))) [
      | inl b ↦ rw (a, b, stage_embeddings) done
      | inr b ↦ elim (Result-cases (check_dimensions g.identity.dimension items)) [
        | inr (x, c) ↦ rw (a, b, c, stage_embeddings) done
        | inl (u, c) ↦ rw (a, b, c, stage_embeddings) (once (stages n items))
      ]
    ]
  ]

  activate-Still : (n : ℕ) (s : Plane) → Still e now s (activate_embedding_generation now n s).1
  unfolding activate_embedding_generation
  activate-Still n s = elim (Option-cases (generation_at n s.generations)) [
    | inl a ↦ rw (a, activate_embedding_generation) done
    | inr (g, a) ↦ elim (Bool-cases (not (is_building g.status || is_retired g.status))) [
      | inl b ↦ rw (a, b, activate_embedding_generation) done
      | inr b ↦ elim (Bool-cases (ltb g.embedded_count (embedded_memory_count s))) [
        | inl c ↦ rw (a, b, c, activate_embedding_generation) done
        | inr c ↦ rw (a, b, c, activate_embedding_generation) (once (activates n))
      ]
    ]
  ]

  perform-Still : (c : Call) (s : Plane) → IsReady s c → Still e now s (perform e now c s)
  unfolding perform
  perform-Still (putting key req) s fresh = put-Still key req s fresh
  perform-Still (superseding key req) s fresh = supersede-Still key req s fresh
  perform-Still (forgetting req) s _ = forget-Still req s
  perform-Still (annotating req) s _ = annotate_memory-Still req s
  perform-Still (linking id scope target) s _ = link_derived_from-Still id scope target s
  perform-Still (migrating dim configured) s _ = once (bootstraps dim configured)
  perform-Still (attesting identity) s _ = attest-Still identity s
  perform-Still (declaring identity remark) s _ =
      once (declares e.limits.embedding_dim identity remark)
  perform-Still (staging n items) s _ = stage-Still n items s
  perform-Still (activating n) s _ = activate-Still n s

-- Whatever calls of the methods that write do to the plane, in the order of their instants and with
-- new keys for new records, is a run of the interleaving steps that ends by the instant of the last
-- call, so what holds of every run holds of every sequence of calls.
pub Session-Run :
    {e : Env} {from : ℕ} {s : Plane} {at : ℕ} {t : Plane}
    → Session e from s at t
    → (late : ℕ) × (late ≤ at) × Run e from s late t
Session-Run {from = from} opened = (from, omega arith, here)
Session-Run (called {t = t} session le c ready) =
    let (late, before, run) = Session-Run session in
    Run-append run (omega arith) (perform-Still c t ready)
