-- ===== src/Plane/Edges.antt =====
-- crates/nomiso-store/src/surreal_store.rs: `put_relationship`, with its request of
-- crates/nomiso-core/src/relationship.rs.
use nomiso.Prelude.{
  ℕ, Bool, true, false, not, ◌&&◌, List, [], ◌∷◌, ◌++◌, Option, none, some, ◌==◌, leb,
  if◌then◌else◌, map, is_some_and, unwrap_or,
}
use nomiso.Prelude.Text.{Text, codes, text_eq, text_leb, decimal}
use nomiso.Prelude.Sort.{sort}
use nomiso.Errors.{Result, ok, err, invalid_op, idempotency_conflict, refuse_if, ◌>>=◌, ◌>>◌}
use nomiso.Exec
use nomiso.Exec.{Exec, lift, query}
use nomiso.Scope
use nomiso.Endpoints.{EndpointKind, EndpointRef, bare_key}
use nomiso.Endpoints
use nomiso.Relations.{
  RelationPredicate, as_str, check_endpoints, EpistemicStatus, status_str, active,
}
use nomiso.Plane.{EvidenceRef, ProducerMeta, RelationshipRecord, RelationshipRow, Plane}
use nomiso.Plane.Checks.{
  Lookup, endpoint_scope_version, check_endpoint, check_revision, check_current,
}

pub record PutRelationshipRequest : Type 0 where
  pub scope : Text
  pub predicate : RelationPredicate
  pub subject : EndpointRef
  pub object : EndpointRef
  pub subject_rev : Option ℕ
  pub object_rev : Option ℕ
  pub epistemic : EpistemicStatus
  pub evidence : List EvidenceRef
  pub valid_from : Option ℕ
  pub valid_until : Option ℕ
  pub producer : Option ProducerMeta
  pub dedupe : Bool

-- The field `record` of the source is `edge` here.
pub record RelationshipWrite : Type 0 where
  pub edge : RelationshipRecord
  pub replayed : Bool

-- The loop over the evidence.
unfoldable pub resolve_evidence : Lookup → Text → List EvidenceRef → Result (List EvidenceRef)
resolve_evidence lookup scope [] = ok []
resolve_evidence lookup scope (ev ∷ evs) = do
  key ← bare_key (record { kind = ev.kind; id = ev.id })
  current ← check_endpoint lookup ev.kind key scope
  check_revision ev.kind ev.revision
  check_current ev.revision current
  rest ← resolve_evidence lookup scope evs
  ok (record { kind = ev.kind; id = key; revision = ev.revision } ∷ rest)

abbrev pub rev_text : Option ℕ → Text
rev_text none = codes "-"
rev_text (some r) = decimal r

-- `live_key`: one active edge for the predicate and the pinned endpoints in the scope
unfoldable pub live_key_of : Text → PutRelationshipRequest → Text → Text → Text
live_key_of scope req subject_key object_key =
    codes "A|"
    ++ (scope
        ++ (codes "|"
            ++ (as_str req.predicate
                ++ (codes "|"
                    ++ (Endpoints.as_str req.subject.kind
                        ++ (codes ":"
                            ++ (subject_key
                                ++ (codes "|"
                                    ++ (rev_text req.subject_rev
                                        ++ (codes "|"
                                            ++ (Endpoints.as_str req.object.kind
                                                ++ (codes ":"
                                                    ++ (object_key
                                                        ++ (codes "|"
                                                            ++ rev_text req.object_rev))))))))))))))

abbrev pub bearer : Text → Text × RelationshipRow → Bool
bearer live (key, r) = is_some_and r.live_key (λ l. text_eq l live)

-- `relationship_by_live_key`
unfoldable pub relationship_by_live_key :
    Text → List (Text × RelationshipRow) → Option RelationshipRecord
relationship_by_live_key live [] = none
relationship_by_live_key live ((key, r) ∷ rows) =
    if bearer live (key, r) then some r.edge else relationship_by_live_key live rows

-- The triples that `relationship_request_matches` sorts and compares.
pub record Witness : Type 0 where
  pub kind : Text
  pub key : Text
  pub revision : ℕ

abbrev pub key_or_id : EvidenceRef → Result Text → Text
key_or_id ev (ok key) = key
key_or_id ev (err e) = ev.id

unfoldable pub witness_of : EvidenceRef → Witness
witness_of ev = record {
  kind = Endpoints.as_str ev.kind;
  key = key_or_id ev (bare_key (record { kind = ev.kind; id = ev.id }));
  revision = unwrap_or ev.revision 0;
}

abbrev pub witness_leb : Witness → Witness → Bool
witness_leb a b =
    if not (text_eq a.kind b.kind)
    then text_leb a.kind b.kind
    else if not (text_eq a.key b.key)
    then text_leb a.key b.key
    else leb a.revision b.revision

unfoldable pub same_witnesses : List Witness → List Witness → Bool
same_witnesses [] [] = true
same_witnesses (a ∷ left) (b ∷ right) =
    (text_eq a.kind b.kind && (text_eq a.key b.key && a.revision == b.revision))
    && same_witnesses left right
same_witnesses _ _ = false

abbrev pub same_text : Option Text → Option Text → Bool
same_text none none = true
same_text (some a) (some b) = text_eq a b
same_text _ _ = false

abbrev pub same_instant : Option ℕ → Option ℕ → Bool
same_instant none none = true
same_instant (some a) (some b) = a == b
same_instant _ _ = false

abbrev pub same_producer : Option ProducerMeta → Option ProducerMeta → Bool
same_producer none none = true
same_producer (some a) (some b) =
    same_text a.source b.source && (same_text a.kind b.kind && same_text a.version b.version)
same_producer _ _ = false

unfoldable pub relationship_request_matches : PutRelationshipRequest → RelationshipRecord → Bool
relationship_request_matches req r =
    (text_eq (as_str r.predicate) (as_str req.predicate)
      && text_eq (status_str r.epistemic) (status_str req.epistemic))
    && ((same_instant r.valid_until req.valid_until && same_producer r.producer req.producer)
        && same_witnesses (sort witness_leb (map witness_of r.evidence))
            (sort witness_leb (map witness_of req.evidence)))

-- What the checks of a request find.
pub record Examined : Type 0 where
  pub scope : Text
  pub subject_key : Text
  pub object_key : Text
  pub evidence : List EvidenceRef

-- The checks before the write.
unfoldable pub examine : Lookup → PutRelationshipRequest → Result Examined
examine lookup req = do
  scope ← Scope.parse req.scope
  check_endpoints req.predicate req.subject.kind req.object.kind
  subject_key ← bare_key req.subject
  object_key ← bare_key req.object
  check_revision req.subject.kind req.subject_rev
  check_revision req.object.kind req.object_rev
  subject_version ← check_endpoint lookup req.subject.kind subject_key scope.as_str
  object_version ← check_endpoint lookup req.object.kind object_key scope.as_str
  check_current req.subject_rev subject_version
  check_current req.object_rev object_version
  evidence ← resolve_evidence lookup scope.as_str req.evidence
  ok (record {
    scope = scope.as_str;
    subject_key = subject_key;
    object_key = object_key;
    evidence = evidence;
  })

unfoldable pub new_edge : ℕ → Text → PutRelationshipRequest → Examined → RelationshipRecord
new_edge now key req x = record {
  id = codes "relationship:" ++ key;
  scope = x.scope;
  predicate = req.predicate;
  predicate_version = 1;
  subject = record { kind = req.subject.kind; id = x.subject_key };
  object = record { kind = req.object.kind; id = x.object_key };
  subject_rev = req.subject_rev;
  object_rev = req.object_rev;
  epistemic = req.epistemic;
  evidence = x.evidence;
  state = active;
  state_reason = none;
  valid_from = unwrap_or req.valid_from now;
  valid_until = req.valid_until;
  producer = req.producer;
  version = 1;
  created_at = now;
  updated_at = now;
}

-- What a request gets when its live key is taken.
abbrev pub on_taken : PutRelationshipRequest → RelationshipRecord → Result RelationshipWrite
on_taken req existing =
    if req.dedupe && relationship_request_matches req existing
    then ok (record { edge = existing; replayed = true })
    else err idempotency_conflict

abbrev pub check_until : Option ℕ → ℕ → Result (Unit {0})
check_until until from =
    refuse_if (is_some_and until (λ u. leb u from))
      (invalid_op "relationship valid_until must be after valid_from")

-- The transaction, under the unique index on live keys.
unfoldable pub relate_commit :
    ℕ → Text → Text → PutRelationshipRequest → RelationshipRecord → Exec Plane RelationshipWrite
relate_commit now key live req edge s = elim (relationship_by_live_key live s.relationships) [
  | some existing ↦ (on_taken req existing, s)
  | none ↦ (
    ok (record { edge = edge; replayed = false }),
    record s {
      relationships = s.relationships ++ (key, record { edge = edge; live_key = some live }) ∷ [];
      relationship_events =
          s.relationship_events
          ++ record {
            relationship_id = codes "relationship:" ++ key;
            scope = edge.scope;
            at_sys = now;
            prior = none;
            version = 1;
          }
            ∷ [];
    },
  )
]

-- The read of the live key before the write.
unfoldable pub relate :
    ℕ → Text → Text → PutRelationshipRequest → RelationshipRecord → Exec Plane RelationshipWrite
relate now key live req edge s = elim (relationship_by_live_key live s.relationships) [
  | some existing ↦ (on_taken req existing, s)
  | none ↦
      Exec.continue (check_until edge.valid_until edge.valid_from)
        (λ _. relate_commit now key live req edge) s
]

abbrev pub live_of : PutRelationshipRequest → Examined → Text
live_of req x = live_key_of x.scope req x.subject_key x.object_key

unfoldable pub put_relationship :
    Lookup → ℕ → Text → PutRelationshipRequest → Exec Plane RelationshipWrite
put_relationship elsewhere now key req s =
    Exec.continue (examine (endpoint_scope_version elsewhere s) req)
      (λ x. relate now key (live_of req x) req (new_edge now key req x)) s
