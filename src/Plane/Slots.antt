-- ===== src/Plane/Slots.antt =====
-- The receipt that a slot holds: what a lookup of it answers, and what it refuses.
use nomiso.Prelude.{
  ap, sym, ◌∙◌, ◌≡◌, ◌≢◌, refl, ◌⊎◌, inl, inr, true, Option, none, some, arith, Bool-cases,
  Option-cases,
}
use nomiso.Prelude.Text.{Text, text_eq_iff}
use nomiso.Prelude.Table.{find}
use nomiso.Errors.{Error, Result, ok, err, idempotency_conflict}
use nomiso.Memories.{memory_key}
use nomiso.Plane.{MemoryRecord, WriteResult, Slot, Plane, id_of, fetch_memory}
use nomiso.Plane.Receipts.{idempotency_slot_id, replay_slot, keyed_receipt, has_keyed_memory}

abbrev pub as_replay : WriteResult → WriteResult
as_replay w = record w { replayed = true }

pub replay_slot-replayed :
    (s : Plane) (scope key expected : Text) (slot : Slot) (w : WriteResult)
    → replay_slot s scope key expected slot ≡ ok (some w)
    → w.replayed ≡ true
unfolding replay_slot
replay_slot-replayed s scope key expected slot w h = ground arith

pub replay_slot-identity :
    (s : Plane) (scope key expected : Text) (slot : Slot) (w : WriteResult)
    → replay_slot s scope key expected slot ≡ ok (some w)
    → (slot.scope ≡ scope) × (slot.k ≡ key) × (slot.request_identity ≡ some expected)
unfolding replay_slot
replay_slot-identity s scope key expected slot w h = elim (Option-cases slot.request_identity) [
  | inl a ↦ ground (arith, text_eq_iff slot.scope scope, text_eq_iff slot.k key)
  | inr (i, a) ↦
      ground (arith, text_eq_iff slot.scope scope, text_eq_iff slot.k key, text_eq_iff i expected)
]

-- The slot of a request that has a receipt.
pub record Receipted (s : Plane) (scope key identity : Text) (w : WriteResult) : Type 0 where
  pub slot : Slot
  pub taken : find (idempotency_slot_id scope key) s.slots ≡ some slot
  pub scoped : slot.scope ≡ scope
  pub keyed : slot.k ≡ key
  pub identified : slot.request_identity ≡ some identity
  pub marked : w.replayed ≡ true

pub keyed_receipt-Receipted :
    (s : Plane) (scope key identity : Text) (w : WriteResult)
    → keyed_receipt s scope key identity ≡ ok (some w)
    → Receipted s scope key identity w
unfolding keyed_receipt
keyed_receipt-Receipted s scope key identity w h =
    elim (Option-cases (find (idempotency_slot_id scope key) s.slots)) [
      | inl a ↦ elim (Bool-cases (has_keyed_memory scope key s)) [
        | inl b ↦ absurd (cc (rw (a, b, keyed_receipt) at h))
        | inr b ↦ absurd (cc (rw (a, b, keyed_receipt) at h))
      ]
      | inr (slot, a) ↦
          let held = rw (a, keyed_receipt) at h in
          let (p, q, r) = replay_slot-identity s scope key identity slot w held in
          record {
            slot = slot;
            taken = a;
            scoped = p;
            keyed = q;
            identified = r;
            marked = replay_slot-replayed s scope key identity slot w held;
          }
    ]

pub replay_slot-conflict :
    (s : Plane) (scope key identity other : Text) (slot : Slot)
    → slot.scope ≡ scope
    → slot.k ≡ key
    → slot.request_identity ≡ some identity
    → identity ≢ other
    → replay_slot s scope key other slot ≡ err idempotency_conflict
unfolding replay_slot
replay_slot-conflict s scope key identity other slot p q r n =
    ground (arith, text_eq_iff slot.scope scope, text_eq_iff slot.k key, text_eq_iff identity other)

-- A slot answers a request of another identity by a conflict.
pub Receipted-conflict :
    (s : Plane) (scope key identity other : Text) (w : WriteResult)
    → Receipted s scope key identity w
    → identity ≢ other
    → keyed_receipt s scope key other ≡ err idempotency_conflict
unfolding keyed_receipt
Receipted-conflict s scope key identity other w r n =
    rw (r.taken, keyed_receipt)
      (replay_slot-conflict s scope key identity other r.slot r.scoped r.keyed r.identified n)

-- The receipt names the memory of its slot.
replay_slot-memory_key :
    (s : Plane) (scope key expected : Text) (slot : Slot) (r : MemoryRecord) (w : WriteResult)
    → slot.receipt ≡ some r
    → replay_slot s scope key expected slot ≡ ok (some w)
    → memory_key w.id ≡ slot.memory_key
unfolding replay_slot
replay_slot-memory_key s scope key expected slot r w c h =
    ground (arith, text_eq_iff (memory_key r.id) slot.memory_key)

-- On a plane that still has the memory in its scope, in whatever state, the slot gives the same
-- receipt.
replay_slot-later :
    (s t : Plane) (scope key expected : Text) (slot : Slot) (w : WriteResult)
    (current : MemoryRecord)
    → replay_slot s scope key expected slot ≡ ok (some w)
    → fetch_memory (id_of (memory_key w.id)) t ≡ some current
    → current.scope ≡ scope
    → replay_slot t scope key expected slot ≡ ok (some w)
unfolding replay_slot
replay_slot-later s t scope key expected slot w current h there inside =
    elim (Option-cases slot.request_identity) [
      | inl a ↦ absurd (ground arith)
      | inr (i, a) ↦ elim (Option-cases slot.receipt) [
        | inl c ↦ absurd (ground arith)
        | inr (r, c) ↦
            let same = replay_slot-memory_key s scope key expected slot r w c h in
            let found : fetch_memory (id_of slot.memory_key) t ≡ some current =
              ap (λ x. fetch_memory (id_of x) t) (sym same) ∙ there in
            ground (arith, text_eq_iff current.scope scope)
      ]
    ]

-- The memory of a receipt is there, in its scope.
replay_slot-current :
    (s : Plane) (scope key expected : Text) (slot : Slot) (w : WriteResult)
    → replay_slot s scope key expected slot ≡ ok (some w)
    → (current : MemoryRecord) × (fetch_memory (id_of (memory_key w.id)) s ≡ some current)
      × (current.scope ≡ scope)
unfolding replay_slot
replay_slot-current s scope key expected slot w h = elim (Option-cases slot.request_identity) [
  | inl a ↦ absurd (ground arith)
  | inr (i, a) ↦ elim (Option-cases slot.receipt) [
    | inl c ↦ absurd (ground arith)
    | inr (r, c) ↦ elim (Option-cases (fetch_memory (id_of slot.memory_key) s)) [
      | inl b ↦ absurd (ground arith)
      | inr (current, b) ↦
          let same = replay_slot-memory_key s scope key expected slot r w c h in
          (
            current,
            ap (λ x. fetch_memory (id_of x) s) same ∙ b,
            ground (arith, text_eq_iff current.scope scope),
          )
    ]
  ]
]

pub keyed_receipt-current :
    (s : Plane) (scope key identity : Text) (w : WriteResult)
    → keyed_receipt s scope key identity ≡ ok (some w)
    → (slot : Slot) × (current : MemoryRecord) × (find (idempotency_slot_id scope key) s.slots
        ≡ some slot)
      × (fetch_memory (id_of (memory_key w.id)) s ≡ some current)
      × (current.scope ≡ scope)
unfolding keyed_receipt
keyed_receipt-current s scope key identity w h =
    elim (Option-cases (find (idempotency_slot_id scope key) s.slots)) [
      | inl a ↦ elim (Bool-cases (has_keyed_memory scope key s)) [
        | inl b ↦ absurd (cc (rw (a, b, keyed_receipt) at h))
        | inr b ↦ absurd (cc (rw (a, b, keyed_receipt) at h))
      ]
      | inr (slot, a) ↦
          let (current, b, c) =
            replay_slot-current s scope key identity slot w (rw (a, keyed_receipt) at h) in
          (slot, current, a, b, c)
    ]

pub keyed_receipt-later :
    (s t : Plane) (scope key identity : Text) (w : WriteResult) (current : MemoryRecord)
    → keyed_receipt s scope key identity ≡ ok (some w)
    → find (idempotency_slot_id scope key) t.slots ≡ find (idempotency_slot_id scope key) s.slots
    → fetch_memory (id_of (memory_key w.id)) t ≡ some current
    → current.scope ≡ scope
    → keyed_receipt t scope key identity ≡ ok (some w)
unfolding keyed_receipt
keyed_receipt-later s t scope key identity w current h same there inside =
    elim (Option-cases (find (idempotency_slot_id scope key) s.slots)) [
      | inl a ↦ elim (Bool-cases (has_keyed_memory scope key s)) [
        | inl b ↦ absurd (cc (rw (a, b, keyed_receipt) at h))
        | inr b ↦ absurd (cc (rw (a, b, keyed_receipt) at h))
      ]
      | inr (slot, a) ↦
          rw (same, a, keyed_receipt)
            (replay_slot-later s t scope key identity slot w current (rw (a, keyed_receipt) at h)
              there inside)
    ]

pub Answer-cases :
    (r : Result (Option WriteResult))
    → ((x : Error) × (r ≡ err x)) ⊎ (r ≡ ok none) ⊎ ((v : WriteResult) × (r ≡ ok (some v)))
Answer-cases (err x) = inl (x, refl)
Answer-cases (ok none) = inr (inl refl)
Answer-cases (ok (some v)) = inr (inr (v, refl))
