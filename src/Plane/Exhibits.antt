-- ===== src/Plane/Exhibits.antt =====
-- Embedding generations, a walk along an edge and a session of calls on concrete data.
use nomiso.Prelude.{◌≡◌, refl, arith, false, [], ◌∷◌, Option, none, some}
use nomiso.Prelude.Text.{Text, codes, text_eq, trim_matches, strip_prefix, trim_start_matches}
use nomiso.Prelude.Table.{find}
use nomiso.Errors.{ok}
use nomiso.Endpoints.{memory, EndpointKind}
use nomiso.Relations.{mentions, verified}
use nomiso.Relations
use nomiso.Embeddings.{EmbeddingIdentity, Float, finite, l2}
use nomiso.Memories.{memory_key, outward}
use nomiso.Plane.{Plane, EmbeddingGeneration, building, active, RelationshipRecord}
use nomiso.Plane.Generations.{
  first_active, ensure_embedding_generation, declare_embedding_generation, generation_at,
  embedded_memory_count, update_generations,
}
use nomiso.Plane.Staging.{activate_embedding_generation, activate_commit, covers, install}
use nomiso.Plane.World.{empty_plane, Fresh, Run, here, next, bootstraps, declares}
use nomiso.Plane.Calls.{perform, migrating, putting, Session, opened, called}
use nomiso.Plane.Walk.{TraverseRequest}
use nomiso.Plane.Scenario.{env, request, key_a, key_b, first, plane_2}

-- Two generations: the first is bootstrapped, the second declared.
abbrev pub model : EmbeddingIdentity
model = record {
  family = codes "e5";
  model = codes "small";
  dimension = 1;
  normalization = l2;
  encoding = codes "f32";
  limitation = none;
}

abbrev pub plane_5 : Plane
plane_5 = (ensure_embedding_generation 1 1 none empty_plane).1

abbrev pub plane_6 : Plane
plane_6 = (declare_embedding_generation 2 1 model none plane_5).1

pub declaring_run : Run env 0 empty_plane 2 plane_6
declaring_run =
    next (next here (omega arith) (bootstraps 1 none)) (omega arith) (declares 1 model none)

-- A building generation that has a vector for the one embedded record.
abbrev pub one : Float
one = finite false 1 0 0

abbrev pub building_generation : EmbeddingGeneration
building_generation = record {
  generation = 2;
  identity = model;
  status = building;
  source_frontier = none;
  embedded_count = 1;
  note = none;
  created_at = 2;
  activated_at = none;
}

abbrev pub plane_7 : Plane
plane_7 = record empty_plane {
  memories = (key_a, record first { embedding = some (one ∷ []) }) ∷ [];
  generations = building_generation ∷ [];
  vectors = record { memory = key_a; generation = 2; vector = one ∷ [] } ∷ [];
}

abbrev pub plane_8 : Plane
plane_8 = (activate_embedding_generation 3 2 plane_7).1

pub activates_two :
    activate_embedding_generation 3 2 plane_7
    ≡ (ok (record building_generation { status = active; activated_at = some 3 }), plane_8)
unfolding activate_embedding_generation generation_at embedded_memory_count activate_commit covers
    update_generations text_eq install
activates_two = refl

-- A walk from one record along an edge.
abbrev pub edge : RelationshipRecord
edge = record {
  id = codes "relationship:e";
  scope = codes "org/acme";
  predicate = mentions;
  predicate_version = 1;
  subject = record { kind = memory; id = key_a };
  object = record { kind = memory; id = key_b };
  subject_rev = none;
  object_rev = none;
  epistemic = verified;
  evidence = [];
  state = Relations.active;
  state_reason = none;
  valid_from = 0;
  valid_until = none;
  producer = none;
  version = 1;
  created_at = 0;
  updated_at = 0;
}

abbrev pub plane_9 : Plane
plane_9 = record plane_2 {
  relationships = (codes "e", record { edge = edge; live_key = none }) ∷ [];
}

abbrev pub walk : TraverseRequest
walk = record {
  scope = codes "org/acme";
  seeds = record { kind = memory; id = codes "memory:a" } ∷ [];
  predicates = none;
  direction = outward;
  states = none;
  budget = record { max_depth = some 40; max_visited = none; max_edges = none; deadline_ms = none };
}

abbrev pub scopes : EndpointKind → Text → Option Text
scopes kind key = some (codes "org/acme")

-- The store is opened, and the keyed put is called.
pub Fresh-a : Fresh key_a (perform env 3 (migrating 1 none) empty_plane)
unfolding memory_key find strip_prefix text_eq trim_matches trim_start_matches perform
    ensure_embedding_generation first_active
Fresh-a = record { readable = refl; free = refl; unreferenced = refl }

abbrev pub plane_10 : Plane
plane_10 = perform env 10 (putting key_a request) (perform env 3 (migrating 1 none) empty_plane)

pub session : Session env 0 empty_plane 10 plane_10
session =
    called (called opened (omega arith) (migrating 1 none) tt) (omega arith) (putting key_a request)
      Fresh-a
