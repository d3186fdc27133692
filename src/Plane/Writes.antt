-- ===== src/Plane/Writes.antt =====
-- crates/nomiso-store/src/surreal_store.rs: puts, with and without an idempotency key.
use nomiso.Prelude.{
  ℕ, zero, suc, false, ◌&&◌, List, [], ◌∷◌, ◌++◌, Option, none, some, if◌then◌else◌, is_some,
  unwrap_or,
}
use nomiso.Prelude.Text.{Text, codes}
use nomiso.Prelude.Table.{find}
use nomiso.Errors.{Error, Result, ok, err, invalid_op, store, refuse_if}
use nomiso.Errors
use nomiso.Exec.{Exec, pure, lift, query, ◌>>=◌, ◌>>◌}
use nomiso.Json.{Json, object, field, end, number, string}
use nomiso.Embeddings.{Float}
use nomiso.Memories.{MemoryId, PutRequest}
use nomiso.Validation.{validate_put_shape, validate_put, validate_interval_after_defaults}
use nomiso.Plane.{MemoryRecord, WriteResult, BeliefEvent, assert, Plane, Env, id_of, mid}
use nomiso.Plane.Generations.{resolve_embedding_for_write}
use nomiso.Plane.Receipts.{
  idempotency_slot_id, put_request_identity, lookup_put_receipt_expect, lookup_put_receipt,
}

unfoldable pub new_memory : ℕ → Text → PutRequest → Option ℕ → Option MemoryId → MemoryRecord
new_memory now key req egen prior = record {
  id = id_of key;
  category = req.category;
  scope = req.scope;
  content = req.content;
  embedding = req.embedding;
  embedding_generation = egen;
  valid_from = unwrap_or req.valid_from now;
  valid_until = req.valid_until;
  known_at = unwrap_or req.known_at now;
  confidence = req.confidence;
  provenance = req.provenance;
  version = 1;
  supersedes = prior;
  superseded_by = none;
  entity_links = req.entity_links;
  stale = none;
  extractor_version = req.extractor_version;
  model_version = req.model_version;
  idempotency_key = req.idempotency_key;
  valid_rev_from = req.valid_rev_from;
  valid_rev_until = req.valid_rev_until;
  sys_created = some now;
  sys_updated = some now;
  sys_closed = none;
}

-- The generation of the request's vector, none where it has none.
unfoldable pub generation_for : PutRequest → Exec Plane (Option ℕ)
generation_for req s =
    if is_some req.embedding
    then resolve_embedding_for_write req.embedding_identity s
    else (ok none, s)

abbrev pub asserted : ℕ → Text → Text → Json → BeliefEvent
asserted now scope key payload = record {
  scope = scope;
  memory_id = mid key;
  kind = assert;
  at_sys = now;
  payload = payload;
}

abbrev pub written : MemoryRecord → WriteResult
written r = record { replayed = false; id = r.id; version = r.version; memory = some r }

-- The transaction of `create_memory_inner`.
unfoldable pub create_commit : ℕ → Text → PutRequest → Option ℕ → Exec Plane MemoryRecord
create_commit now key req egen s =
    if is_some (find key s.memories)
    then (err (store "create"), s)
    else let r = new_memory now key req egen none in
      (
        ok r,
        record s {
          memories = s.memories ++ (key, r) ∷ [];
          events =
              s.events
              ++ asserted now req.scope key
                  (object (field (codes "version") (number (codes "1")) end))
                ∷ [];
        },
      )

unfoldable pub create_memory : ℕ → Text → PutRequest → Exec Plane MemoryRecord
create_memory now key req = do
  lift (validate_interval_after_defaults (unwrap_or req.valid_from now) req.valid_until)
  egen ← generation_for req
  create_commit now key req egen

-- The transaction of `put_idempotent_inner` on a free slot.
unfoldable pub claim_slot : ℕ → Text → Text → PutRequest → Option ℕ → Text → Plane → Plane
claim_slot now k key req egen identity s =
    let r = new_memory now key (record req { idempotency_key = some k }) egen none in
    record s {
      memories = s.memories ++ (key, r) ∷ [];
      slots =
          s.slots
          ++ (
            idempotency_slot_id req.scope k,
            record {
              scope = req.scope;
              k = k;
              memory_key = key;
              request_identity = some identity;
              receipt = some r;
            },
          )
            ∷ [];
      events =
          s.events
          ++ asserted now req.scope key (
              object
                (field (codes "key") (string k) (field (codes "version") (number (codes "1")) end)))
            ∷ [];
    }

-- What the method returns once its transaction has committed.
unfoldable pub committed : Env → PutRequest → Text → Plane → Result WriteResult
committed e original identity s = elim (lookup_put_receipt_expect e original identity s) [
  | err failure ↦ err failure
  | ok none ↦ err (store "committed put receipt unavailable; reconcile using the same key")
  | ok (some receipt) ↦ ok (record receipt { replayed = false })
]

-- The three attempts. A slot that is taken is a conflict, and its receipt answers the request.
unfoldable pub put_attempts :
    Env → ℕ → Text → Text → PutRequest → PutRequest → Option ℕ → Text → ℕ → Exec Plane WriteResult
put_attempts e now k key original req egen identity zero s = (
  elim (lookup_put_receipt_expect e original identity s) [
    | err failure ↦ err failure
    | ok none ↦ err (store "nomiso_conflict")
    | ok (some receipt) ↦ ok receipt
  ],
  s,
)
put_attempts e now k key original req egen identity (suc rounds) s =
    let again = put_attempts e now k key original req egen identity rounds s in
    if is_some (find (idempotency_slot_id req.scope k) s.slots)
    then elim (lookup_put_receipt_expect e original identity s) [
      | err failure ↦ (err failure, s)
      | ok none ↦ again
      | ok (some receipt) ↦ (ok receipt, s)
    ]
    else if is_some (find key s.memories)
    then (err (store "create"), s)
    else let s' = claim_slot now k key req egen identity s in (committed e original identity s', s')

unfoldable pub put_idempotent :
    Env → ℕ → Text → Text → PutRequest → PutRequest → Exec Plane WriteResult
put_idempotent e now k key original req = do
  egen ← generation_for req
  lift (validate_interval_after_defaults (unwrap_or req.valid_from now) req.valid_until)
  put_attempts e now k key original req egen (put_request_identity e original) 3

-- The write itself: `key` is the generated record key.
unfoldable pub put_new :
    Env → ℕ → Text → PutRequest → PutRequest → Option Text → Exec Plane WriteResult
put_new e now key original req none = do r ← create_memory now key req; pure (written r)
put_new e now key original req (some k) = put_idempotent e now k key original req

abbrev pub with_generated : Option (List Float) → PutRequest → PutRequest
with_generated none req = req
with_generated (some v) req = record req { embedding = some v }

-- A generated vector is validated with the rest of the request.
unfoldable pub check_generated : Env → ℕ → PutRequest → Option (List Float) → Result (Unit {0})
check_generated e now req none = ok tt
check_generated e now req (some v) =
    Errors.◌>>=◌ (validate_put e.host now (record req { embedding = some v }) e.limits) (λ _. ok tt)

-- The part of `put_prepared` for a request that has no receipt.
unfoldable pub put_unseen :
    Env → ℕ → Text → PutRequest → Option (List Float) → Exec Plane WriteResult
put_unseen e now key req generated = do
  lift (validate_put e.host now req e.limits)
  lift (check_generated e now req generated)
  put_new e now key req (with_generated generated req) req.idempotency_key

unfoldable pub answer : Option WriteResult → Exec Plane WriteResult → Exec Plane WriteResult
answer (some receipt) write = pure receipt
answer none write = write

unfoldable pub put_prepared :
    Env → ℕ → Text → PutRequest → Option (List Float) → Exec Plane WriteResult
put_prepared e now key raw generated = do
  scope ← lift (validate_put_shape e.host raw e.limits)
  let req = record raw { scope = scope.as_str }
  lift (
      refuse_if (is_some req.embedding && is_some generated)
        (invalid_op "cannot supply both original and generated embeddings"))
  seen ← query (lookup_put_receipt e req)
  answer seen (put_unseen e now key req generated)

unfoldable pub put : Env → ℕ → Text → PutRequest → Exec Plane WriteResult
put e now key req = put_prepared e now key req none
