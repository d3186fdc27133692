-- ===== src/Plane/Supersede.antt =====
-- crates/nomiso-store/src/surreal_store.rs: `supersede`, in the checks on the row that was read and
-- the transaction, which other clients may come between.
use nomiso.Prelude.{
  ℕ, ◌+◌, Bool, true, false, not, ◌&&◌, ◌||◌, List, [], ◌∷◌, ◌++◌, Option, none, some, ◌==◌, ltb,
  if◌then◌else◌, any, is_some, is_some_and, unwrap_or,
}
use nomiso.Prelude.Text.{Text, codes, text_eq, decimal}
use nomiso.Prelude.Table.{find, update, update_where}
use nomiso.Errors.{
  Error, Result, ok, err, invalid_op, not_found, scope_denied, conflict, store, refuse_if,
}
use nomiso.Errors
use nomiso.Exec.{Exec, lift, query, ◌>>=◌, ◌>>◌}
use nomiso.Json.{Json, object, field, end, number, string}
use nomiso.Endpoints.{EndpointKind, memory}
use nomiso.Relations.{RelationPredicate, derived_from, RelationshipState, active, stale}
use nomiso.Memories.{MemoryId, PutRequest, SupersedeRequest, memory_key}
use nomiso.Validation.{validate_supersede, validate_interval_after_defaults, check_version}
use nomiso.Plane.{
  MemoryRecord, WriteResult, close, RelationshipRow, Plane, Env, id_of, mid, fetch_memory,
}
use nomiso.Plane.Writes.{new_memory, generation_for, asserted, written}

abbrev pub is_memory : EndpointKind → Bool
is_memory memory = true
is_memory _ = false

-- `conflict_from_memory`
unfoldable pub conflict_from_memory : MemoryId → ℕ → Plane → Error
conflict_from_memory id expected s = elim (fetch_memory id s) [
  | none ↦ not_found "memory"
  | some r ↦ conflict expected r.version
]

-- The condition of the close: the version that the caller saw, and an open interval.
abbrev pub closable : ℕ → MemoryRecord → Bool
closable expected r =
    r.version == expected
    && (not (is_some r.superseded_by)
        && (not (is_some r.valid_until) && not (is_some r.sys_closed)))

abbrev pub closed_row : ℕ → ℕ → MemoryRecord → MemoryRecord
closed_row now close_at r = record r {
  valid_until = some close_at;
  sys_closed = some now;
  version = r.version + 1;
}

abbrev pub touches : Text → RelationshipRow → Bool
touches key r =
    (is_memory r.edge.subject.kind && text_eq r.edge.subject.id key)
    || (is_memory r.edge.object.kind && text_eq r.edge.object.id key)

abbrev pub is_active_edge : RelationshipState → Bool
is_active_edge active = true
is_active_edge _ = false

abbrev pub is_derivation : RelationPredicate → Bool
is_derivation derived_from = true
is_derivation _ = false

-- `'X|' + <string> id`, for an id without quotes
abbrev pub dead_key : Text → Text
dead_key id = codes "X|" ++ id

abbrev pub stale_edge : ℕ → RelationshipRow → RelationshipRow
stale_edge now r = record r {
  edge = record r.edge {
    state = stale;
    state_reason = some (codes "endpoint_superseded");
    updated_at = now;
  };
  live_key = some (dead_key r.edge.id);
}

abbrev pub depends_on_prior : Text → List (Text × Text) → Text → Bool
depends_on_prior prior derivations key =
    any (λ (dependent, source). text_eq source prior && text_eq dependent key) derivations

abbrev pub closed_payload : Text → ℕ → Json
closed_payload new_key closed_version = object (
    field (codes "closed_version") (number (decimal closed_version)) (
      field (codes "successor") (string (mid new_key))
        (field (codes "via") (string (codes "supersede")) end)))

abbrev pub asserted_payload : MemoryId → Json
asserted_payload prior = object (
    field (codes "prior") (string prior.as_str) (
      field (codes "version") (number (codes "1"))
        (field (codes "via") (string (codes "supersede")) end)))

-- The statements of the transaction after the close has found its row.
unfoldable pub link_successor :
    ℕ → Text → Text → MemoryId → ℕ → ℕ → PutRequest → Option ℕ → Plane → Plane
link_successor now prior_key new_key prior_id expected close_at new egen s =
    let r = new_memory now new_key new egen (some (id_of prior_key)) in
    let closed = update prior_key (closed_row now close_at) s.memories in
    let linked =
      update prior_key (λ p. record p { superseded_by = some (id_of new_key) })
        (closed ++ (new_key, r) ∷ []) in
    record s {
      memories =
          update_where
            (λ k m. text_eq m.scope new.scope && depends_on_prior prior_key s.derivations k)
            (λ m. record m { stale = some true }) linked;
      lineage = s.lineage ++ (new_key, prior_key) ∷ [];
      relationships =
          update_where
            (λ k e.
              text_eq e.edge.scope new.scope
              && (is_active_edge e.edge.state
                  && (is_derivation e.edge.predicate && touches prior_key e)))
            (stale_edge now) s.relationships;
      events =
          s.events
          ++ (record {
            scope = new.scope;
            memory_id = mid prior_key;
            kind = close;
            at_sys = now;
            payload = closed_payload new_key (expected + 1);
          }
              ∷ asserted now new.scope new_key (asserted_payload prior_id)
              ∷ []);
    }

unfoldable pub supersede_commit :
    ℕ → Text → SupersedeRequest → ℕ → PutRequest → Option ℕ → Exec Plane WriteResult
supersede_commit now new_key req close_at new egen s =
    let prior_key = memory_key req.prior_id in
    if is_some_and (find prior_key s.memories) (closable req.expected_version)
    then if is_some (find new_key s.memories) then (err (store "supersede"), s) else (
      ok (written (new_memory now new_key new egen (some (id_of prior_key)))),
      link_successor now prior_key new_key req.prior_id req.expected_version close_at new egen s,
    )
    else (err (conflict_from_memory req.prior_id req.expected_version s), s)

-- `close_at` against the validity of the row that was read.
abbrev pub check_close : ℕ → MemoryRecord → Result (Unit {0})
check_close close_at prior =
    Errors.◌>>◌
      (refuse_if (ltb close_at prior.valid_from) (invalid_op "close_at is before prior valid_from"))
      (refuse_if (is_some_and prior.valid_until (λ until. ltb until close_at))
        (invalid_op "close_at is after prior valid_until"))

abbrev pub or_else {ℓ} : {A : Type ℓ} → Option A → Option A → Option A
or_else none b = b
or_else (some a) b = some a

-- The instant of the close: as asked, or the start of the successor, or now.
abbrev pub close_instant : ℕ → SupersedeRequest → ℕ
close_instant now req = unwrap_or (or_else req.close_at req.new.valid_from) now

-- The successor's request, with the instants that were left out.
abbrev pub successor : ℕ → Text → SupersedeRequest → PutRequest
successor now scope req = record req.new {
  scope = scope;
  valid_from = some (unwrap_or req.new.valid_from (close_instant now req));
  known_at = some (unwrap_or req.new.known_at now);
}

unfoldable pub check_prior : ℕ → Text → SupersedeRequest → MemoryRecord → Result (Unit {0})
check_prior now scope req prior = Errors.◌>>◌ (check_version req.expected_version prior.version) (
    Errors.◌>>◌ (refuse_if (not (text_eq prior.scope scope)) (scope_denied "supersede scope")) (
      Errors.◌>>◌
        (refuse_if (is_some prior.superseded_by) (conflict req.expected_version prior.version))
        (check_close (close_instant now req) prior)))

abbrev pub found_memory : Option MemoryRecord → Result MemoryRecord
found_memory none = err (not_found "memory")
found_memory (some r) = ok r

unfoldable pub supersede : Env → ℕ → Text → SupersedeRequest → Exec Plane WriteResult
supersede e now new_key req = do
  scope ← lift (validate_supersede e.host now req e.limits)
  prior ← query (λ s. found_memory (fetch_memory req.prior_id s))
  lift (check_prior now scope.as_str req prior)
  let new = successor now scope.as_str req
  lift (
      validate_interval_after_defaults (unwrap_or new.valid_from (close_instant now req))
        new.valid_until)
  egen ← generation_for new
  supersede_commit now new_key req (close_instant now req) new egen
