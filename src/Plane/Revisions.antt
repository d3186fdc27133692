-- ===== src/Plane/Revisions.antt =====
-- crates/nomiso-store/src/surreal_store.rs: `get_relationship`, `update_relationship` and
-- `list_relationships`, with their requests of crates/nomiso-core/src/relationship.rs.
use nomiso.Prelude.{
  ℕ, ◌+◌, Bool, true, not, ◌&&◌, ◌||◌, List, [], ◌∷◌, ◌++◌, Option, none, some, ◌==◌, ltb,
  if◌then◌else◌, map, filter, take, is_empty, is_some_and, unwrap_or,
}
use nomiso.Prelude.Text.{Text, text_eq, text_leb, trim}
use nomiso.Prelude.Sort.{sort}
use nomiso.Prelude.Table.{find, update}
use nomiso.Errors.{Result, ok, err, invalid_op, not_found, scope_denied, conflict, refuse_if, ◌>>=◌}
use nomiso.Exec
use nomiso.Exec.{Exec, lift, query}
use nomiso.Scope
use nomiso.Endpoints.{EndpointKind, EndpointRef, bare_key}
use nomiso.Relations.{
  RelationPredicate, as_str, same_kind, EpistemicStatus, RelationshipState, active, closed, stale,
  purged, lifecycle_str,
}
use nomiso.Plane.{EvidenceRef, RelationshipRecord, RelationshipRow, Snapshot, Plane}
use nomiso.Plane.Forget.{is_purged}
use nomiso.Plane.Walk.{clamp}
use nomiso.Plane.Checks.{rel_bare_key}
use nomiso.Plane.Supersede.{dead_key, or_else}
use nomiso.Plane.Edges.{key_or_id, check_until}

unfoldable pub get_relationship : Text → Text → Plane → Result RelationshipRecord
get_relationship id raw_scope s = Scope.parse raw_scope >>= λ scope.
    elim (find (rel_bare_key id) s.relationships) [
      | none ↦ err (not_found "relationship")
      | some r ↦
          if not (text_eq r.edge.scope scope.as_str)
          then err (scope_denied "relationship scope")
          else ok r.edge
    ]

pub record UpdateRelationshipRequest : Type 0 where
  pub id : Text
  pub scope : Text
  pub expected_version : ℕ
  pub epistemic : Option EpistemicStatus
  pub state : Option RelationshipState
  pub state_reason : Option Text
  pub valid_until : Option ℕ
  pub evidence : Option (List EvidenceRef)

abbrev pub check_reason : Option Text → Result (Unit {0})
check_reason reason =
    refuse_if (not (is_some_and reason (λ s. not (is_empty (trim s)))))
      (invalid_op "closing or staling a relationship requires state_reason")

unfoldable pub check_state : Option RelationshipState → Option Text → Result (Unit {0})
check_state none reason = ok tt
check_state (some purged) reason = err (invalid_op "purged state is endpoint-erasure-driven only")
check_state (some active) reason =
    err (invalid_op "closed edges cannot reopen; assert a new relationship")
check_state (some closed) reason = check_reason reason
check_state (some stale) reason = check_reason reason

-- The evidence of an update is not checked; a key that does not read is kept as it is.
abbrev pub rewritten : List EvidenceRef → List EvidenceRef
rewritten evs =
    map {A = EvidenceRef}
      (λ ev. record ev { id = key_or_id ev (bare_key (record { kind = ev.kind; id = ev.id })) }) evs

abbrev pub map_option : Option (List EvidenceRef) → Option (List EvidenceRef)
map_option none = none
map_option (some evs) = some (rewritten evs)

abbrev pub if_some {ℓ κ} : {A : Type ℓ} {B : Type κ} → Option A → B → B → B
if_some none a b = b
if_some (some _) a b = a

unfoldable pub updated_row : ℕ → UpdateRelationshipRequest → RelationshipRow → RelationshipRow
updated_row now req r = record {
  edge = record r.edge {
    epistemic = unwrap_or req.epistemic r.edge.epistemic;
    state = unwrap_or req.state r.edge.state;
    state_reason = if_some req.state req.state_reason r.edge.state_reason;
    valid_until = or_else req.valid_until r.edge.valid_until;
    evidence = unwrap_or (map_option req.evidence) r.edge.evidence;
    version = r.edge.version + 1;
    updated_at = now;
  };
  live_key = if_some req.state (some (dead_key r.edge.id)) r.live_key;
}

abbrev pub snapshot : RelationshipRecord → Snapshot
snapshot r = record {
  version = r.version;
  state = r.state;
  epistemic = r.epistemic;
  evidence = r.evidence;
  valid_until = r.valid_until;
}

-- The transaction; `existing` was read before.
unfoldable pub update_commit :
    ℕ → Text → UpdateRelationshipRequest → RelationshipRecord → Exec Plane RelationshipRecord
update_commit now scope req existing s =
    let key = rel_bare_key existing.id in
    elim (find key s.relationships) [
      | none ↦ (err (conflict req.expected_version existing.version), s)
      | some r ↦
          if r.edge.version == req.expected_version && not (is_purged r.edge.state)
          then (
            ok (updated_row now req r).edge,
            record s {
              relationships = update key (updated_row now req) s.relationships;
              relationship_events =
                  s.relationship_events
                  ++ record {
                    relationship_id = existing.id;
                    scope = scope;
                    at_sys = now;
                    prior = some (snapshot r.edge);
                    version = r.edge.version + 1;
                  }
                    ∷ [];
            },
          )
          else (err (conflict req.expected_version existing.version), s)
    ]

unfoldable pub update_relationship : ℕ → UpdateRelationshipRequest → Exec Plane RelationshipRecord
update_relationship now req = Exec.◌>>=◌ (lift (Scope.parse req.scope)) (λ scope.
    Exec.◌>>=◌ (query (get_relationship req.id scope.as_str)) (λ existing.
      Exec.◌>>◌ (lift (check_state req.state req.state_reason)) (
        Exec.◌>>◌ (lift (check_until req.valid_until existing.valid_from))
          (update_commit now scope.as_str req existing))))

pub record ListRelationshipsRequest : Type 0 where
  pub scope : Text
  pub endpoint : Option EndpointRef
  pub predicate : Option RelationPredicate
  pub state : Option RelationshipState
  pub limit : Option ℕ

abbrev pub at_end : EndpointKind → Text → RelationshipRecord → Bool
at_end kind key r =
    (same_kind r.subject.kind kind && text_eq r.subject.id key)
    || (same_kind r.object.kind kind && text_eq r.object.id key)

-- The key of the endpoint that a listing names.
abbrev pub endpoint_of : Option EndpointRef → Result (Option (EndpointKind × Text))
endpoint_of none = ok none
endpoint_of (some e) = bare_key e >>= λ key. ok (some (e.kind, key))

abbrev pub touched : Option (EndpointKind × Text) → RelationshipRecord → Bool
touched none r = true
touched (some (kind, key)) r = at_end kind key r

abbrev pub listed :
    Text → Option (EndpointKind × Text) → ListRelationshipsRequest → RelationshipRecord → Bool
listed scope end req r =
    text_eq r.scope scope
    && (touched end r
        && (not (is_some_and req.predicate (λ p. not (text_eq (as_str p) (as_str r.predicate))))
            && not (
                is_some_and req.state
                  (λ q. not (text_eq (lifecycle_str q) (lifecycle_str r.state))))))

-- `ORDER BY created_at DESC, id DESC`
abbrev pub newest_first : RelationshipRecord → RelationshipRecord → Bool
newest_first a b =
    if a.created_at == b.created_at then text_leb b.id a.id else ltb b.created_at a.created_at

unfoldable pub list_relationships :
    ListRelationshipsRequest → Plane → Result (List RelationshipRecord)
list_relationships req s = do
  scope ← Scope.parse req.scope
  end ← endpoint_of req.endpoint
  ok (
      take (clamp 1 512 (unwrap_or req.limit 128)) (
        sort newest_first
          (filter (listed scope.as_str end req) (map (λ (key, r). r.edge) s.relationships))))
