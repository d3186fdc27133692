-- ===== src/Plane/Revised.antt =====
-- What an update of a relationship does.
use nomiso.Prelude.{ℕ, ◌+◌, ◌≡◌, ◌≢◌, false, [], ◌∷◌, ◌++◌, none, some}
use nomiso.Prelude.Text.{Text, codes}
use nomiso.Prelude.Table.{find}
use nomiso.Errors.{ok}
use nomiso.Scope
use nomiso.Scope.{ScopePath}
use nomiso.Relations.{RelationshipState}
use nomiso.Plane.{RelationshipRecord, RelationshipRow, Plane}
use nomiso.Plane.Checks.{rel_bare_key}
use nomiso.Plane.Forget.{is_purged}
use nomiso.Plane.Revisions.{UpdateRelationshipRequest, snapshot}
use nomiso.Plane.Amended.{MayAsk, GivesReason, IsRevision}

pub record Revised (now : ℕ) (req : UpdateRelationshipRequest) (edge : RelationshipRecord)
    (s s' : Plane) : Type 0 where
  pub path : ScopePath
  pub read : RelationshipRecord
  pub row : RelationshipRow
  pub parsed : Scope.parse req.scope ≡ ok path
  -- the edge that the request names, in the scope of the request
  pub named : RelationshipRow
  pub reads : find (rel_bare_key req.id) s.relationships ≡ some named
  pub is_read : named.edge ≡ read
  pub owned : read.scope ≡ path.as_str
  pub may_ask : MayAsk req.state
  pub before : find (rel_bare_key read.id) s.relationships ≡ some row
  pub expected : row.edge.version ≡ req.expected_version
  pub unpurged : is_purged row.edge.state ≡ false
  pub reason : (x : RelationshipState) → req.state ≡ some x → GivesReason req.state_reason
  pub is_revision : IsRevision now req row.edge edge
  pub row_after : RelationshipRow
  pub after : find (rel_bare_key read.id) s'.relationships ≡ some row_after
  pub holds_edge : row_after.edge ≡ edge
  pub kept_live : req.state ≡ none → row_after.live_key ≡ row.live_key
  pub left_live :
      (x : RelationshipState)
      → req.state ≡ some x
      → row_after.live_key ≡ some (codes "X|" ++ row.edge.id)
  pub others :
      (k : Text) → k ≢ rel_bare_key read.id → find k s'.relationships ≡ find k s.relationships
  pub audited :
      s'.relationship_events
      ≡ s.relationship_events
        ++ record {
          relationship_id = read.id;
          scope = path.as_str;
          at_sys = now;
          prior = some (snapshot row.edge);
          version = row.edge.version + 1;
        }
          ∷ []
