-- ===== src/Memories.antt =====
-- crates/nomiso-core/src/types.rs and ops.rs: ids, categories and contents of memories, and the
-- requests on them.
pub mod Categories
use nomiso.Prelude.{
  ℕ, ◌+◌, Bool, true, false, ◌&&◌, ◌||◌, List, Option, none, some, ◌==◌, leb, if◌then◌else◌, map,
}
use nomiso.Prelude.Text.{Text, codes, text_eq, trim_matches, strip_prefix, utf8_len}
use nomiso.Host.{Host}
use nomiso.Json.{Json}
use nomiso.Endpoints.{is_quote}
use nomiso.Relations.{RelationPredicate}
use nomiso.Embeddings.{Float, EmbeddingIdentity}
use nomiso.Scope.{ScopeMatch}

pub record MemoryId : Type 0 where
  pub as_str : Text

-- `s.strip_prefix("memory:").or_else(|| s.strip_prefix("⟨memory:")).unwrap_or(s)`
strip_memory : Text → Text
strip_memory s = elim (strip_prefix (codes "memory:") s) [
  | some rest ↦ rest
  | none ↦ elim (strip_prefix (codes "⟨memory:") s) [ some rest ↦ rest | none ↦ s ]
]

-- `MemoryId::bare_key`
unfoldable pub memory_key : MemoryId → Text
unfolding strip_memory
memory_key self = trim_matches is_quote (strip_memory self.as_str)

pub data Category : Type 0 where
  episodic semantic identity procedural uncertainty trace : Category

-- `Category::as_str` and `Category::parse`
abbrev pub category_str : Category → Text
category_str episodic = codes "episodic"
category_str semantic = codes "semantic"
category_str identity = codes "identity"
category_str procedural = codes "procedural"
category_str uncertainty = codes "uncertainty"
category_str trace = codes "trace"

abbrev pub lower : ℕ → ℕ
lower c = if leb b'A' c && leb c b'Z' then c + 32 else c

unfoldable pub to_ascii_lowercase : Text → Text
to_ascii_lowercase s = map lower s

unfoldable pub category_of : Text → Option Category
category_of s =
    if text_eq s (codes "episodic")
    then some episodic
    else if text_eq s (codes "semantic")
    then some semantic
    else if text_eq s (codes "identity")
    then some identity
    else if text_eq s (codes "procedural")
    then some procedural
    else if text_eq s (codes "uncertainty")
    then some uncertainty
    else if text_eq s (codes "trace")
    then some trace
    else none

unfoldable pub parse_category : Text → Option Category
parse_category s = category_of (to_ascii_lowercase s)

pub record Content : Type 0 where
  pub text : Text
  pub attrs : Option Json

unfoldable pub attrs_bytes : Host → Content → ℕ
attrs_bytes h self = elim self.attrs [ none ↦ 0 | some v ↦ utf8_len (h.json_text v) ]

pub record Provenance : Type 0 where
  pub source : Option Text
  pub kind : Option Text
  pub span : Option Text

pub record PutRequest : Type 0 where
  pub scope : Text
  pub category : Category
  pub content : Content
  pub valid_from : Option ℕ
  pub valid_until : Option ℕ
  pub known_at : Option ℕ
  pub confidence : Option Float
  pub provenance : Provenance
  pub entity_links : List Text
  pub embedding : Option (List Float)
  pub embedding_identity : Option EmbeddingIdentity
  pub idempotency_key : Option Text
  pub extractor_version : Option Text
  pub model_version : Option Text
  pub valid_rev_from : Option Text
  pub valid_rev_until : Option Text

pub record SupersedeRequest : Type 0 where
  pub prior_id : MemoryId
  pub expected_version : ℕ
  pub new : PutRequest
  pub close_at : Option ℕ

pub data TraverseDirection : Type 0 where
  outward inward both : TraverseDirection

pub record GraphExpand : Type 0 where
  pub predicates : Option (List RelationPredicate)
  pub direction : Option TraverseDirection
  pub max_depth : Option ℕ
  pub max_seeds : Option ℕ
  pub max_candidates : Option ℕ

pub record SearchQuery : Type 0 where
  pub query : Text
  pub scope : Text
  pub scope_match : ScopeMatch
  pub as_of : Option ℕ
  pub known_as_of : Option ℕ
  pub sys_as_of : Option ℕ
  pub categories : Option (List Category)
  pub limit : Option ℕ
  pub embedding : Option (List Float)
  pub graph_enrich : Option Bool
  pub graph_expand : Option GraphExpand

pub record FindCandidatesRequest : Type 0 where
  pub query : Text
  pub scope : Text
  pub scope_match : ScopeMatch
  pub categories : Option (List Category)
  pub limit : Option ℕ
  pub embedding : Option (List Float)

-- A search that is valid now, without a walk of the graph.
unfoldable pub into_search : FindCandidatesRequest → SearchQuery
into_search self = record {
  query = self.query;
  scope = self.scope;
  scope_match = self.scope_match;
  as_of = none;
  known_as_of = none;
  sys_as_of = none;
  categories = self.categories;
  limit = self.limit;
  embedding = self.embedding;
  graph_enrich = some false;
  graph_expand = none;
}

pub record ReadRequest : Type 0 where
  pub ids : List MemoryId
  pub scope : Text
  pub scope_match : ScopeMatch
  pub as_of : Option ℕ
  pub known_as_of : Option ℕ
  pub sys_as_of : Option ℕ

pub record ForgetRequest : Type 0 where
  pub id : MemoryId
  pub scope : Text
  pub expected_version : Option ℕ
  pub hard : Bool
  pub at : Option ℕ
