-- ===== src/Plane/Receipts.antt =====
-- crates/nomiso-store/src/surreal_store.rs: the receipts of keyed puts.
use nomiso.Prelude.{
  ℕ, ◌+◌, Bool, true, not, ◌||◌, ◌&&◌, List, [], ◌∷◌, ◌++◌, Option, none, some, ltb, if◌then◌else◌,
  any, is_some_and,
}
use Prim.Native.Nat.{◌/◌, ◌%◌}
use nomiso.Prelude.Text.{Text, codes, text_eq}
use nomiso.Prelude.Table.{find}
use nomiso.Errors.{
  Error, Result, ok, err, internal, idempotency_conflict, idempotency_unavailable, refuse_if, ◌>>=◌,
  ◌>>◌,
}
use nomiso.Json.{sorted}
use nomiso.Memories.{PutRequest, memory_key}
use nomiso.Validation.{validate_put_shape}
use nomiso.Plane.{WriteResult, Slot, Plane, Env, id_of, fetch_memory}

-- `str::as_bytes`
utf8 : ℕ → List ℕ
utf8 c =
    if ltb c 0x80
    then c ∷ []
    else if ltb c 0x800
    then (0xc0 + c / 64) ∷ (0x80 + c % 64) ∷ []
    else if ltb c 0x10000
    then (0xe0 + c / 4096) ∷ (0x80 + c / 64 % 64) ∷ (0x80 + c % 64) ∷ []
    else (0xf0 + c / 262144) ∷ (0x80 + c / 4096 % 64) ∷ (0x80 + c / 64 % 64) ∷ (0x80 + c % 64) ∷ []

hex_digit : ℕ → ℕ
hex_digit d = if ltb d 10 then d + b'0' else d + 87

-- `format!("{b:02x}")` for each byte
hex_bytes : List ℕ → Text
unfolding hex_digit
hex_bytes [] = []
hex_bytes (b ∷ bytes) = hex_digit (b / 16) ∷ hex_digit (b % 16) ∷ hex_bytes bytes

hex : Text → Text
unfolding utf8 hex_bytes
hex [] = []
hex (c ∷ t) = hex_bytes (utf8 c) ++ hex t

unfoldable pub idempotency_slot_id : Text → Text → Text
unfolding hex
idempotency_slot_id scope key = hex scope ++ (codes "1f" ++ hex key)

unfoldable pub put_request_identity : Env → PutRequest → Text
put_request_identity e req =
    codes "nomiso.put-request.v0:" ++ e.host.json_text (sorted (e.put_json req))

-- `ok_or(…)?`
abbrev pub ok_or {ℓ} : {A : Type ℓ} → Option A → Error → Result A
ok_or none failure = err failure
ok_or (some a) failure = ok a

-- `find_by_idempotency`
unfoldable pub has_keyed_memory : Text → Text → Plane → Bool
has_keyed_memory scope key s =
    any (λ (k, r). text_eq r.scope scope && is_some_and r.idempotency_key (λ i. text_eq i key))
      s.memories

-- The checks of a slot that was found, and the acknowledgement that it holds.
unfoldable pub replay_slot : Plane → Text → Text → Text → Slot → Result (Option WriteResult)
replay_slot s scope key expected slot = do
  refuse_if (not (text_eq slot.scope scope) || not (text_eq slot.k key))
      (internal "put receipt scope/key mismatch")
  identity ← ok_or slot.request_identity idempotency_unavailable
  refuse_if (not (text_eq identity expected)) idempotency_conflict
  current ← ok_or (fetch_memory (id_of slot.memory_key) s) idempotency_unavailable
  refuse_if (not (text_eq current.scope scope)) (internal "put receipt target scope mismatch")
  r ← ok_or slot.receipt idempotency_unavailable
  refuse_if (not (text_eq (memory_key r.id) slot.memory_key) || not (text_eq r.scope scope))
      (internal "put receipt snapshot identity mismatch")
  ok (some (record { replayed = true; id = r.id; version = r.version; memory = some r }))

-- Without a slot, a memory under the key means a receipt of an older schema or an erased one: the
-- second read of the slot sees the same instant.
unfoldable pub keyed_receipt : Plane → Text → Text → Text → Result (Option WriteResult)
keyed_receipt s scope key expected = elim (find (idempotency_slot_id scope key) s.slots) [
  | some slot ↦ replay_slot s scope key expected slot
  | none ↦ if has_keyed_memory scope key s then err idempotency_unavailable else ok none
]

receipt_for : Plane → Text → Option Text → Text → Result (Option WriteResult)
receipt_for s scope none expected = ok none
receipt_for s scope (some key) expected = keyed_receipt s scope key expected

unfoldable pub lookup_put_receipt_expect :
    Env → PutRequest → Text → Plane → Result (Option WriteResult)
unfolding receipt_for
lookup_put_receipt_expect e req expected s = do
  scope ← validate_put_shape e.host req e.limits
  receipt_for s scope.as_str req.idempotency_key expected

unfoldable pub lookup_put_receipt : Env → PutRequest → Plane → Result (Option WriteResult)
lookup_put_receipt e req s = lookup_put_receipt_expect e req (put_request_identity e req) s
