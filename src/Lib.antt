-- ===== src/Lib.antt =====
-- Nomiso is a memory store for agents over SurrealDB. This library models the parts of it that
-- decide what is written and what is seen: the durable job journal with its leases, the memory plane
-- with its receipts, supersessions and time lenses, the embedding generations with their staged
-- reindex, the bounded walk along relationships, the scope paths that bound every request, references
-- to records, the registry of relations, and the checks that requests pass before they reach the
-- database.
--
-- Parts and files (paths from the repository's root, functions under their own names):
--   * Prelude and its children: numbers, lists, texts as code points, a stable sort.
--   * Errors, Exec: the error taxonomy of crates/nomiso-core/src/error.rs, `Result`, and store methods
--     as functions that pass the state and may fail.
--   * Host: what the store takes from libraries: the end of jiff's time line, the BLAKE3 digest, the
--     text that serde_json prints. Instants are nanoseconds since 1970, as natural numbers.
--   * Json: serde_json values, and `sorted` of surreal_store.rs.
--   * Scope: crates/nomiso-core/src/scope.rs.
--   * Endpoints, Relations: crates/nomiso-core/src/relationship.rs (kinds, references, predicates).
--   * Embeddings, Memories: crates/nomiso-core/src/embedding.rs, types.rs and ops.rs.
--   * Validation: crates/nomiso-core/src/validate.rs.
--   * TaskState: crates/nomiso-core/src/task_state.rs, with `put_task_state` and `get_task_state` of
--     crates/nomiso-store/src/surreal_store.rs. A call runs under a `Weather`: how the database answers
--     each statement, and what other clients write before it. Its loop has three attempts.
--   * Jobs: crates/nomiso-core/src/job.rs; its children Journal, Inputs, Enqueue, Claim, Effects, Control
--     and Inspect: the job plane of crates/nomiso-store/src/surreal_store.rs with the constraints of
--     crates/nomiso-schema/schema/012_job_journal.surql. Its other children are proofs.
--   * Plane: the records of crates/nomiso-core/src/types.rs, belief_event.rs, embedding.rs and
--     relationship.rs and the tables that hold them. Its children Generations, Staging, Receipts,
--     Writes, Supersede, Forget, Lenses, Annotate, History, Walk, Traverse, Checks, Edges, Revisions and
--     Entities are the methods of the memory and relationship planes in crates/nomiso-store/src/surreal_store.rs.
--     World has the steps of any number of clients on memories and embedding generations, and Calls
--     the methods that make them. Scenario, Exhibits and Links are concrete data; the others are proofs.
--
-- The journal is a table of rows, each a record key, the decoded job and the deduplication slot. A
-- method that reads a job and then commits one statement is two definitions, the second one
-- (`claim_commit`, `complete_commit` and so on) over the job that was read. Jobs/World has the steps
-- of any number of clients, in which a statement may use a job that was read at any earlier moment;
-- Jobs/Methods shows that the whole methods are runs of such steps.
--
-- The plane is a record of tables. A statement on it that commits is a definition of its own
-- (`create_commit`, `claim_slot`, `supersede_commit` and so on), and a method is the composition of
-- its checks, its reads and its statement. In Plane/World each statement is a step, with what the
-- client read before as an argument, so that it may be late.
--
-- A call sees one instant for all its readings of the clock, a generated record key is an argument
-- (in Plane/World, one that no row has or refers to), fences, attempts and versions do not overflow,
-- and (but for task states) the database does not fail otherwise. An error carries the fixed part of
-- its message. The attributes of a memory that are merged are entries in the order of their keys. The
-- graph edges of a record that is erased are deleted with it, as the database does. The walk along
-- relationships runs on fuel, for which the number of seeds and the bound on visited endpoints
-- together are enough, since every visited endpoint is queued once; its deadline is a test on the
-- number of rounds left; the two loops of `history` make at most 64 rounds as in the source. Other
-- loops run over lists, so none needs a bound or fuel, except the digits of a number, which take one
-- unit more than the number.
--
-- Not modelled: search, list and count of memories, writes with job intents, artifacts and spans,
-- traces, rank fusion, context packing, and the service, HTTP, MCP, embedder, blob, schema and
-- evaluation crates. Relationships and entities have no steps in Plane/World.
pub mod Embeddings
pub mod Endpoints
pub mod Errors
pub mod Exec
pub mod Host
pub mod Jobs
pub mod Json
pub mod Memories
pub mod Plane
pub mod Prelude
pub mod Relations
pub mod Scope
pub mod TaskState
pub mod Validation
