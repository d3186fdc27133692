-- ===== src/Plane/Replay.antt =====
-- Keyed puts happen once: the receipt answers every later put under the key.
use nomiso.Prelude.{
  ℕ, zero, suc, ◌≡◌, ◌≢◌, refl, ap, sym, subst, ◌∙◌, ◌⊎◌, inl, inr, true, false, ◌&&◌, Option, none,
  some, arith, Bool-cases, is_some, unwrap_or,
}
use nomiso.Prelude.Text.{Text, text_eq-cases}
use nomiso.Prelude.Table.{find}
use nomiso.Errors.{Result, ok, err, idempotency_conflict, Result-cases}
use nomiso.Scope
use nomiso.Scope.{ScopePath}
use nomiso.Scope.Parsing.{parse_idem}
use nomiso.Memories.{PutRequest, memory_key}
use nomiso.Validation.{validate_put_shape, validate_put, validate_interval_after_defaults}
use nomiso.Plane.{MemoryRecord, WriteResult, Slot, Plane, Env, id_of, fetch_memory}
use nomiso.Plane.Receipts.{
  idempotency_slot_id, put_request_identity, keyed_receipt, lookup_put_receipt_expect,
  lookup_put_receipt,
}
use nomiso.Plane.Writes.{
  generation_for, claim_slot, committed, put_attempts, put_idempotent, put_new, check_generated,
  put_unseen, answer, put_prepared, put,
}
use nomiso.Plane.Slots.{
  as_replay, Receipted, keyed_receipt-Receipted, Receipted-conflict, Answer-cases,
  keyed_receipt-later, keyed_receipt-current,
}

module _ (e : Env) (req : PutRequest) (path : ScopePath) (k : Text)
    (valid : validate_put_shape e.host req e.limits ≡ ok path)
    (keyed : req.idempotency_key ≡ some k) where
  lookup-keyed :
      (identity : Text) (s : Plane)
      → lookup_put_receipt_expect e req identity s ≡ keyed_receipt s path.as_str k identity
  unfolding lookup_put_receipt_expect
  lookup-keyed identity s = rw (valid, keyed) refl

replayed_at :
    (e : Env) (original : PutRequest) (identity : Text) (s s' : Plane) (v w : WriteResult)
    → v.replayed ≡ true
    → lookup_put_receipt_expect e original identity s ≡ ok (some v)
    → ◌≡◌ {A = Result WriteResult × Plane} (ok v, s) (ok w, s')
    → lookup_put_receipt_expect e original identity s' ≡ ok (some (as_replay w))
replayed_at e original identity s s' v w marked a h =
    let same : v ≡ w = cc in
    let here : s ≡ s' = cc in
    let replays : v ≡ as_replay w = ground arith in
    rw (← here) (a ∙ ap (λ (x : WriteResult). ok (some x)) replays)

committed_at :
    (e : Env) (original : PutRequest) (identity : Text) (s s' : Plane) (v w : WriteResult)
    → v.replayed ≡ true
    → lookup_put_receipt_expect e original identity s ≡ ok (some v)
    → ◌≡◌ {A = Result WriteResult × Plane} (ok (record v { replayed = false }), s) (ok w, s')
    → lookup_put_receipt_expect e original identity s' ≡ ok (some (as_replay w))
committed_at e original identity s s' v w marked a h =
    let same : record v { replayed = false } ≡ w = cc in
    let here : s ≡ s' = cc in
    let replays : v ≡ as_replay w = ground arith in
    rw (← here) (a ∙ ap (λ (x : WriteResult). ok (some x)) replays)

-- The three attempts leave the receipt that they return.
put_attempts-receipt :
    (e : Env) (now : ℕ) (k key : Text) (original req : PutRequest) (egen : Option ℕ)
    (identity : Text) (rounds : ℕ) (s s' : Plane) (w : WriteResult)
    → ((t : Plane) (v : WriteResult)
        → lookup_put_receipt_expect e original identity t ≡ ok (some v)
        → v.replayed ≡ true)
    → put_attempts e now k key original req egen identity rounds s ≡ (ok w, s')
    → lookup_put_receipt_expect e original identity s' ≡ ok (some (as_replay w))
unfolding put_attempts committed
put_attempts-receipt e now k key original req egen identity zero s s' w mark h =
    elim (Answer-cases (lookup_put_receipt_expect e original identity s)) [
      | inl (x, a) ↦ absurd (cc (rw (a, put_attempts) at h))
      | inr (inl a) ↦ absurd (cc (rw (a, put_attempts) at h))
      | inr (inr (v, a)) ↦
          replayed_at e original identity s s' v w (mark s v a) a (rw (a, put_attempts) at h)
    ]
put_attempts-receipt e now k key original req egen identity (suc rounds) s s' w mark h =
    elim (Bool-cases (is_some (find (idempotency_slot_id req.scope k) s.slots))) [
      | inl q ↦ elim (Answer-cases (lookup_put_receipt_expect e original identity s)) [
        | inl (x, a) ↦ absurd (cc (rw (q, a, put_attempts) at h))
        | inr (inl a) ↦
            put_attempts-receipt e now k key original req egen identity rounds s s' w mark
              (rw (q, a, put_attempts) at h)
        | inr (inr (v, a)) ↦
            replayed_at e original identity s s' v w (mark s v a) a (rw (q, a, put_attempts) at h)
      ]
      | inr q ↦ elim (Bool-cases (is_some (find key s.memories))) [
        | inl p ↦ absurd (cc (rw (q, p) at h))
        | inr p ↦
            let t : Plane = claim_slot now k key req egen identity s in
            elim (Answer-cases (lookup_put_receipt_expect e original identity t)) [
              | inl (x, a) ↦ absurd (cc (rw (q, p, a, committed) at h))
              | inr (inl a) ↦ absurd (cc (rw (q, p, a, committed) at h))
              | inr (inr (v, a)) ↦
                  committed_at e original identity t s' v w (mark t v a) a
                    (rw (q, p, a, committed) at h)
            ]
      ]
    ]

module _ (e : Env) (req : PutRequest) (path : ScopePath) (k : Text)
    (shape : validate_put_shape e.host req e.limits ≡ ok path)
    (keyed : req.idempotency_key ≡ some k) where
  abbrev scoped : PutRequest
  scoped = record req { scope = path.as_str }

  -- A normalized request is as valid as the request.
  scoped_shape : validate_put_shape e.host scoped e.limits ≡ ok path
  unfolding validate_put_shape
  scoped_shape = elim (Result-cases (Scope.parse req.scope)) [
    | inr (x, a) ↦ absurd (cc (rw a at shape))
    | inl (p, a) ↦
        let held = rw a at shape in
        let same : p ≡ path = ground arith in
        let again : Scope.parse path.as_str ≡ ok path =
          parse_idem req.scope path (a ∙ ap ok same) in
        rw again (rw same at held)
  ]

  lookup_marked :
      (identity : Text) (t : Plane) (v : WriteResult)
      → lookup_put_receipt_expect e scoped identity t ≡ ok (some v)
      → Receipted t path.as_str k identity v
  lookup_marked identity t v h =
      keyed_receipt-Receipted t path.as_str k identity v
        (sym (lookup-keyed e scoped path k scoped_shape keyed identity t) ∙ h)

  no_generated : (is_some req.embedding && false) ≡ false
  no_generated = ground arith

  put_idempotent-receipt :
      (now : ℕ) (key : Text) (s s' : Plane) (w : WriteResult)
      → put_idempotent e now k key scoped scoped s ≡ (ok w, s')
      → lookup_put_receipt e scoped s' ≡ ok (some (as_replay w))
  unfolding put_idempotent lookup_put_receipt
  put_idempotent-receipt now key s s' w h = elim (Result-cases (generation_for scoped s).0) [
    | inr (x, b) ↦ absurd (cc (rw b at h))
    | inl (egen, b) ↦
        elim (Result-cases
          (validate_interval_after_defaults (unwrap_or req.valid_from now) req.valid_until)) [
            | inr (x, c) ↦ absurd (cc (rw (b, c) at h))
            | inl (u, c) ↦
                put_attempts-receipt e now k key scoped scoped egen (put_request_identity e scoped)
                  3 (generation_for scoped s).1 s' w
                  (λ t v g. (lookup_marked (put_request_identity e scoped) t v g).marked)
                  (rw (b, c) at h)
          ]
  ]

  put_unseen-receipt :
      (now : ℕ) (key : Text) (s s' : Plane) (w : WriteResult)
      → put_unseen e now key scoped none s ≡ (ok w, s')
      → lookup_put_receipt e scoped s' ≡ ok (some (as_replay w))
  unfolding put_unseen check_generated put_new
  put_unseen-receipt now key s s' w h =
      elim (Result-cases (validate_put e.host now scoped e.limits)) [
        | inr (x, a) ↦ absurd (cc (rw a at h))
        | inl (p, a) ↦ put_idempotent-receipt now key s s' w (
            subst (λ (o : Option Text). put_new e now key scoped scoped o s ≡ (ok w, s')) keyed
              (rw a at h))
      ]

  put-receipt :
      (now : ℕ) (key : Text) (s s' : Plane) (w : WriteResult)
      → put e now key req s ≡ (ok w, s')
      → lookup_put_receipt e scoped s' ≡ ok (some (as_replay w))
  unfolding put put_prepared answer lookup_put_receipt
  put-receipt now key s s' w h = elim (Answer-cases (lookup_put_receipt e scoped s)) [
    | inl (x, a) ↦ absurd (cc (rw (shape, no_generated, a) at h))
    | inr (inl a) ↦ put_unseen-receipt now key s s' w (rw (shape, no_generated, a) at h)
    | inr (inr (v, a)) ↦
        replayed_at e scoped (put_request_identity e scoped) s s' v w
          (lookup_marked (put_request_identity e scoped) s v
            (unfold lookup_put_receipt in a)).marked
          (unfold lookup_put_receipt in a) (rw (shape, no_generated, a) at h)
  ]

  receipt_later :
      (s t : Plane) (w : WriteResult) (current : MemoryRecord)
      → lookup_put_receipt e scoped s ≡ ok (some (as_replay w))
      → find (idempotency_slot_id path.as_str k) t.slots
        ≡ find (idempotency_slot_id path.as_str k) s.slots
      → fetch_memory (id_of (memory_key w.id)) t ≡ some current
      → current.scope ≡ path.as_str
      → lookup_put_receipt e scoped t ≡ ok (some (as_replay w))
  unfolding lookup_put_receipt
  receipt_later s t w current h slots there inside =
      let identity = put_request_identity e scoped in
      lookup-keyed e scoped path k scoped_shape keyed identity t
      ∙ keyed_receipt-later s t path.as_str k identity (as_replay w) current
          (sym (lookup-keyed e scoped path k scoped_shape keyed identity s) ∙ h) slots there inside

  pub put_present :
      (now : ℕ) (key : Text) (s s' : Plane) (w : WriteResult)
      → put e now key req s ≡ (ok w, s')
      → (slot : Slot) × (current : MemoryRecord) × (find
            (idempotency_slot_id path.as_str k)
            s'.slots
          ≡ some slot)
        × (fetch_memory (id_of (memory_key w.id)) s' ≡ some current)
        × (current.scope ≡ path.as_str)
  unfolding lookup_put_receipt
  put_present now key s s' w h =
      let identity = put_request_identity e scoped in
      keyed_receipt-current s' path.as_str k identity (as_replay w) (
        sym (lookup-keyed e scoped path k scoped_shape keyed identity s')
        ∙ put-receipt now key s s' w h)

  put_again :
      (now : ℕ) (key : Text) (s : Plane) (v : WriteResult)
      → lookup_put_receipt e scoped s ≡ ok (some v)
      → put e now key req s ≡ (ok v, s)
  unfolding put put_prepared answer
  put_again now key s v a = rw (shape, no_generated, a) refl

  put_refused :
      (now : ℕ) (key : Text) (s : Plane) (v : WriteResult) (identity : Text)
      → Receipted s path.as_str k identity v
      → identity ≢ put_request_identity e scoped
      → put e now key req s ≡ (err idempotency_conflict, s)
  unfolding put put_prepared lookup_put_receipt
  put_refused now key s v identity r n =
      let refused =
        lookup-keyed e scoped path k scoped_shape keyed (put_request_identity e scoped) s
        ∙ Receipted-conflict s path.as_str k identity (put_request_identity e scoped) v r n in
      rw (shape, no_generated, refused) refl

-- After a keyed put that returned a result, take any plane at any instant where the slot of the key is
-- as the put left it and the memory of the result is still in its scope, changed or not. There the
-- same request under any generated key returns this result as a replay, with the record as the put
-- wrote it, and writes nothing; and another valid request under the same key and scope either has the
-- same identity or is refused as a conflict and writes nothing.
pub put-once :
    (e : Env) (now now' : ℕ) (key key' k : Text) (req other : PutRequest) (path : ScopePath)
    (s s' t : Plane) (w : WriteResult) (current : MemoryRecord)
    → put e now key req s ≡ (ok w, s')
    → req.idempotency_key ≡ some k
    → validate_put_shape e.host req e.limits ≡ ok path
    → other.idempotency_key ≡ some k
    → validate_put_shape e.host other e.limits ≡ ok path
    → find (idempotency_slot_id path.as_str k) t.slots
      ≡ find (idempotency_slot_id path.as_str k) s'.slots
    → fetch_memory (id_of (memory_key w.id)) t ≡ some current
    → current.scope ≡ path.as_str
    → (put e now' key' req t ≡ (ok (record w { replayed = true }), t))
      × ((put_request_identity e (record req { scope = path.as_str })
            ≡ put_request_identity e (record other { scope = path.as_str }))
          ⊎ (put e now' key' other t ≡ (err idempotency_conflict, t)))
put-once e now now' key key' k req other path s s' t w current h keyed shape keyed' shape' slots
      there inside =
    let receipt =
      receipt_later e req path k shape keyed s' t w current
        (put-receipt e req path k shape keyed now key s s' w h) slots there inside in
    (
      put_again e req path k shape keyed now' key' t (as_replay w) receipt,
      elim (text_eq-cases (put_request_identity e (record req { scope = path.as_str }))
          (put_request_identity e (record other { scope = path.as_str }))) [
            | inl same ↦ inl same
            | inr apart ↦ inr (
                put_refused e other path k shape' keyed' now' key' t (as_replay w)
                  (put_request_identity e (record req { scope = path.as_str }))
                  (lookup_marked e req path k shape keyed
                    (put_request_identity e (record req { scope = path.as_str })) t (as_replay w)
                    (unfold lookup_put_receipt in receipt))
                  apart)
          ],
    )
