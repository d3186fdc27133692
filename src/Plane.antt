-- ===== src/Plane.antt =====
-- crates/nomiso-core/src (types.rs, ops.rs, belief_event.rs, embedding.rs, relationship.rs) and
-- crates/nomiso-schema/schema: the records of the memory plane and the tables that hold them.
pub mod Generations
pub mod Staging
pub mod Receipts
pub mod Writes
pub mod Supersede
pub mod Forget
pub mod Lenses
pub mod Annotate
pub mod History
pub mod World
pub mod Ageing
pub mod Edits
pub mod Steps
pub mod Audit
pub mod Succession
pub mod Handover
pub mod Derivations
pub mod Outcome
pub mod Passing
pub mod Validity
pub mod Hindsight
pub mod Slots
pub mod Replay
pub mod Lasting
pub mod Reindex
pub mod Activation
pub mod Switch
pub mod Walk
pub mod Traverse
pub mod Calls
pub mod Methods
pub mod Checks
pub mod Edges
pub mod Revisions
pub mod Matches
pub mod Related
pub mod Amended
pub mod Revised
pub mod Entities
mod Scenario
mod Exhibits
mod Links
mod Tests
use nomiso.Prelude.{ℕ, Bool, List, Option, none, ◌++◌}
use nomiso.Prelude.Text.{Text, codes}
use nomiso.Prelude.Table.{find}
use nomiso.Errors.{Result}
use nomiso.Host.{Host}
use nomiso.Json.{Json}
use nomiso.Endpoints.{EndpointKind, EndpointRef}
use nomiso.Relations.{RelationPredicate, EpistemicStatus, RelationshipState}
use nomiso.Embeddings.{Float, EmbeddingIdentity}
use nomiso.Memories.{MemoryId, Category, Content, Provenance, PutRequest, memory_key}
use nomiso.Validation.{Limits}

pub record MemoryRecord : Type 0 where
  pub id : MemoryId
  pub category : Category
  pub scope : Text
  pub content : Content
  pub embedding : Option (List Float)
  pub embedding_generation : Option ℕ
  pub valid_from : ℕ
  pub valid_until : Option ℕ
  pub known_at : ℕ
  pub confidence : Option Float
  pub provenance : Provenance
  pub version : ℕ
  pub supersedes : Option MemoryId
  pub superseded_by : Option MemoryId
  pub entity_links : List Text
  pub stale : Option Bool
  pub extractor_version : Option Text
  pub model_version : Option Text
  pub idempotency_key : Option Text
  pub valid_rev_from : Option Text
  pub valid_rev_until : Option Text
  pub sys_created : Option ℕ
  pub sys_updated : Option ℕ
  pub sys_closed : Option ℕ

pub record WriteResult : Type 0 where
  pub replayed : Bool
  pub id : MemoryId
  pub version : ℕ
  pub memory : Option MemoryRecord

pub data BeliefEventKind : Type 0 where
  assert close soft_forget hard_erase annotate correct : BeliefEventKind

-- A row of `belief_event`, without its generated id.
pub record BeliefEvent : Type 0 where
  pub scope : Text
  pub memory_id : Text
  pub kind : BeliefEventKind
  pub at_sys : ℕ
  pub payload : Json

-- A row of `idempotency_slot`. An older schema left the last two fields out.
pub record Slot : Type 0 where
  pub scope : Text
  pub k : Text
  pub memory_key : Text
  pub request_identity : Option Text
  pub receipt : Option MemoryRecord

pub record EvidenceRef : Type 0 where
  pub kind : EndpointKind
  pub id : Text
  pub revision : Option ℕ

pub record ProducerMeta : Type 0 where
  pub source : Option Text
  pub kind : Option Text
  pub version : Option Text

-- The id reads `relationship:key`, and the ids of the endpoints are bare keys.
pub record RelationshipRecord : Type 0 where
  pub id : Text
  pub scope : Text
  pub predicate : RelationPredicate
  pub predicate_version : ℕ
  pub subject : EndpointRef
  pub object : EndpointRef
  pub subject_rev : Option ℕ
  pub object_rev : Option ℕ
  pub epistemic : EpistemicStatus
  pub evidence : List EvidenceRef
  pub state : RelationshipState
  pub state_reason : Option Text
  pub valid_from : ℕ
  pub valid_until : Option ℕ
  pub producer : Option ProducerMeta
  pub version : ℕ
  pub created_at : ℕ
  pub updated_at : ℕ

-- A row of `relationship`, with the key that keeps active edges apart.
pub record RelationshipRow : Type 0 where
  pub edge : RelationshipRecord
  pub live_key : Option Text

-- What an audit event keeps of the revision before.
pub record Snapshot : Type 0 where
  pub version : ℕ
  pub state : RelationshipState
  pub epistemic : EpistemicStatus
  pub evidence : List EvidenceRef
  pub valid_until : Option ℕ

-- A row of `relationship_event`, without its generated id: an assertion has no prior revision.
pub record RelationshipEvent : Type 0 where
  pub relationship_id : Text
  pub scope : Text
  pub at_sys : ℕ
  pub prior : Option Snapshot
  pub version : ℕ

pub record EntityRecord : Type 0 where
  pub id : Text
  pub scope : Text
  pub kind : Text
  pub name : Text
  pub aliases : List Text
  pub attrs : Option Json
  pub version : ℕ
  pub created_at : ℕ
  pub updated_at : ℕ

pub data GenerationStatus : Type 0 where
  building active retired failed : GenerationStatus

pub record SourceFrontier : Type 0 where
  pub captured_at : ℕ
  pub generation : Option ℕ
  pub expected_count : ℕ

pub record EmbeddingGeneration : Type 0 where
  pub generation : ℕ
  pub identity : EmbeddingIdentity
  pub status : GenerationStatus
  pub source_frontier : Option SourceFrontier
  pub embedded_count : ℕ
  pub note : Option Text
  pub created_at : ℕ
  pub activated_at : Option ℕ

-- A row of `embedding_vector`, which is under the key of its memory and its generation.
pub record StagedVector : Type 0 where
  pub memory : Text
  pub generation : ℕ
  pub vector : List Float

-- The tables. Rows of `memory` and `relationship` are under their record keys; `lineage` is
-- `supersedes_edge` and `derivations` is `derived_from_edge`, from the dependent to its source.
pub record Plane : Type 0 where
  pub memories : List (Text × MemoryRecord)
  pub events : List BeliefEvent
  pub slots : List (Text × Slot)
  pub lineage : List (Text × Text)
  pub derivations : List (Text × Text)
  pub relationships : List (Text × RelationshipRow)
  pub generations : List EmbeddingGeneration
  pub vectors : List StagedVector
  pub entities : List (Text × EntityRecord)
  pub relationship_events : List RelationshipEvent

-- The configuration, and what comes from libraries: how `serde` writes a put request and how
-- `jiff` prints an instant.
pub record Env : Type 0 where
  pub host : Host
  pub limits : Limits
  pub put_json : PutRequest → Json
  pub timestamp_text : ℕ → Text

-- `format!("memory:{key}")`
abbrev pub mid : Text → Text
mid key = codes "memory:" ++ key

abbrev pub id_of : Text → MemoryId
id_of key = record { as_str = mid key }

-- `fetch_memory_raw`
abbrev pub fetch_memory : MemoryId → Plane → Option MemoryRecord
fetch_memory id s = find (memory_key id) s.memories
