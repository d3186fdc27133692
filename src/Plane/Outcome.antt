-- ===== src/Plane/Outcome.antt =====
-- A supersession in the values of the rows: what it needs, what it closes, what it writes, and what
-- becomes stale.
use nomiso.Prelude.{ℕ, ◌+◌, ◌≤◌, ◌≡◌, ◌≢◌, true, false, ◌++◌, Option, none, some}
use nomiso.Prelude.Text.{Text, codes}
use nomiso.Prelude.Table.{find}
use nomiso.Errors.{ok}
use nomiso.Scope
use nomiso.Scope.{ScopePath}
use nomiso.Relations.{stale}
use nomiso.Memories.{SupersedeRequest, memory_key}
use nomiso.Plane.{MemoryRecord, RelationshipRow, WriteResult, Plane, id_of}
use nomiso.Plane.Derivations.{Depends, IsDerivationOf}

-- The record is open, at the version that the caller saw.
abbrev pub IsOpenAt : ℕ → MemoryRecord → Type 0
IsOpenAt expected r =
    (r.version ≡ expected)
    × (r.superseded_by ≡ none)
    × (r.valid_until ≡ none)
    × (r.sys_closed ≡ none)

-- The instant of the close: as asked, or the start of the successor, or now.
abbrev pub ClosesAt : ℕ → Option ℕ → Option ℕ → ℕ → Type 0
ClosesAt now (some t) from close_at = close_at ≡ t
ClosesAt now none (some t) close_at = close_at ≡ t
ClosesAt now none none close_at = close_at ≡ now

-- What becomes of the predecessor.
pub record IsClosed (now close_at : ℕ) (key : Text) (expected : ℕ) (r c : MemoryRecord)
    : Type 0 where
  pub until : c.valid_until ≡ some close_at
  pub at_sys : c.sys_closed ≡ some now
  pub next_version : c.version ≡ expected + 1
  pub successor : c.superseded_by ≡ some (id_of key)
  pub same_start : (c.valid_from ≡ r.valid_from) × (c.known_at ≡ r.known_at)
  pub same_created : c.sys_created ≡ r.sys_created
  pub same_content : (c.content ≡ r.content) × (c.category ≡ r.category) × (c.scope ≡ r.scope)

-- The successor.
pub record IsSuccessor (now close_at : ℕ) (scope prior_key : Text) (req : SupersedeRequest)
    (n : MemoryRecord) : Type 0 where
  pub first_version : n.version ≡ 1
  pub predecessor : n.supersedes ≡ some (id_of prior_key)
  pub is_open : (n.superseded_by ≡ none) × (n.sys_closed ≡ none)
  pub at_sys : n.sys_created ≡ some now
  pub has_scope : n.scope ≡ scope
  pub has_content : (n.content ≡ req.new.content) × (n.category ≡ req.new.category)
  pub start : (t : ℕ) → req.new.valid_from ≡ some t → n.valid_from ≡ t
  pub takes_over : req.new.valid_from ≡ none → n.valid_from ≡ close_at
  pub ends : n.valid_until ≡ req.new.valid_until
  pub known : req.new.known_at ≡ none → n.known_at ≡ now

abbrev pub stale_now : ℕ → RelationshipRow → RelationshipRow
stale_now now r = record {
  edge = record r.edge {
    state = stale;
    state_reason = some (codes "endpoint_superseded");
    updated_at = now;
  };
  live_key = some (codes "X|" ++ r.edge.id);
}

pub record Superseded (now : ℕ) (key : Text) (req : SupersedeRequest) (w : WriteResult)
    (s s' : Plane) : Type 0 where
  pub path : ScopePath
  pub parsed : Scope.parse req.new.scope ≡ ok path
  pub prior : MemoryRecord
  pub at_prior : find (memory_key req.prior_id) s.memories ≡ some prior
  pub same_scope : prior.scope ≡ path.as_str
  pub was_open : IsOpenAt req.expected_version prior
  pub fresh : find key s.memories ≡ none
  pub close_at : ℕ
  pub closes : ClosesAt now req.close_at req.new.valid_from close_at
  pub within : prior.valid_from ≤ close_at
  pub closed_row : MemoryRecord
  pub at_prior_after : find (memory_key req.prior_id) s'.memories ≡ some closed_row
  pub is_closed : IsClosed now close_at key req.expected_version prior closed_row
  pub new_row : MemoryRecord
  pub at_new_after : find key s'.memories ≡ some new_row
  pub is_successor : IsSuccessor now close_at path.as_str (memory_key req.prior_id) req new_row
  pub dependents :
      (k : Text) (r : MemoryRecord)
      → k ≢ memory_key req.prior_id
      → k ≢ key
      → find k s.memories ≡ some r
      → r.scope ≡ path.as_str
      → Depends (memory_key req.prior_id) s.derivations k
      → find k s'.memories ≡ some (record r { stale = some true })
  pub independents :
      (k : Text) (r : MemoryRecord)
      → k ≢ memory_key req.prior_id
      → k ≢ key
      → find k s.memories ≡ some r
      → ((r.scope ≡ path.as_str) → Depends (memory_key req.prior_id) s.derivations k → ⊥)
      → find k s'.memories ≡ some r
  pub stale_edges :
      (k : Text) (r : RelationshipRow)
      → find k s.relationships ≡ some r
      → IsDerivationOf path.as_str (memory_key req.prior_id) r.edge
      → find k s'.relationships ≡ some (stale_now now r)
  pub other_edges :
      (k : Text) (r : RelationshipRow)
      → find k s.relationships ≡ some r
      → (IsDerivationOf path.as_str (memory_key req.prior_id) r.edge → ⊥)
      → find k s'.relationships ≡ some r
  pub returned : (w.id ≡ id_of key) × (w.version ≡ 1) × (w.replayed ≡ false)
