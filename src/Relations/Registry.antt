-- ===== src/Relations/Registry.antt =====
-- The edges that the registry of relation predicates accepts.
use nomiso.Prelude.{◌≡◌, refl, ◌↔◌}
use nomiso.Prelude.Text.{text_eq}
use nomiso.Errors.{ok}
use nomiso.Endpoints.{EndpointKind, memory, entity, artifact, span}
use nomiso.Relations.{
  RelationPredicate, supports, derived_from, contradicts, mentions, depends_on, applies_to,
  observed_in, attempted, resolved_by, spec, contains, check_endpoints,
}

abbrev pub NotSpan : EndpointKind → Type 0
NotSpan span = ⊥
NotSpan _ = Unit

-- The contract of the public API, edge by edge.
pub data Accepts : RelationPredicate → EndpointKind → EndpointKind → Type 0 where
  span_supports : Accepts supports span memory
  memory_supports : Accepts supports memory memory
  from_span : Accepts derived_from memory span
  from_artifact : Accepts derived_from memory artifact
  from_memory : Accepts derived_from memory memory
  against : Accepts contradicts memory memory
  names_entity : Accepts mentions memory entity
  entity_needs : (kind : EndpointKind) → NotSpan kind → Accepts depends_on entity kind
  memory_needs : (kind : EndpointKind) → NotSpan kind → Accepts depends_on memory kind
  to_entity : Accepts applies_to memory entity
  to_artifact : Accepts applies_to memory artifact
  seen_in : Accepts observed_in memory span
  tried : Accepts attempted memory memory
  solved : Accepts resolved_by memory memory

accepted :
    (p : RelationPredicate) (a b : EndpointKind) → check_endpoints p a b ≡ ok tt → Accepts p a b
unfolding check_endpoints spec contains text_eq
accepted supports memory memory h = memory_supports
accepted supports span memory h = span_supports
accepted derived_from memory memory h = from_memory
accepted derived_from memory artifact h = from_artifact
accepted derived_from memory span h = from_span
accepted contradicts memory memory h = against
accepted mentions memory entity h = names_entity
accepted depends_on memory memory h = memory_needs memory tt
accepted depends_on memory entity h = memory_needs entity tt
accepted depends_on memory artifact h = memory_needs artifact tt
accepted depends_on entity memory h = entity_needs memory tt
accepted depends_on entity entity h = entity_needs entity tt
accepted depends_on entity artifact h = entity_needs artifact tt
accepted applies_to memory entity h = to_entity
accepted applies_to memory artifact h = to_artifact
accepted observed_in memory span h = seen_in
accepted attempted memory memory h = tried
accepted resolved_by memory memory h = solved
accepted _ _ _ h = absurd (cc h)

passes :
    (p : RelationPredicate) (a b : EndpointKind) → Accepts p a b → check_endpoints p a b ≡ ok tt
unfolding check_endpoints spec contains text_eq
passes _ _ _ span_supports = refl
passes _ _ _ memory_supports = refl
passes _ _ _ from_span = refl
passes _ _ _ from_artifact = refl
passes _ _ _ from_memory = refl
passes _ _ _ against = refl
passes _ _ _ names_entity = refl
passes _ _ _ to_entity = refl
passes _ _ _ to_artifact = refl
passes _ _ _ seen_in = refl
passes _ _ _ tried = refl
passes _ _ _ solved = refl
passes _ _ _ (entity_needs memory h) = refl
passes _ _ _ (entity_needs entity h) = refl
passes _ _ _ (entity_needs artifact h) = refl
passes _ _ _ (entity_needs span h) = absurd h
passes _ _ _ (memory_needs memory h) = refl
passes _ _ _ (memory_needs entity h) = refl
passes _ _ _ (memory_needs artifact h) = refl
passes _ _ _ (memory_needs span h) = absurd h

-- The check of an edge passes exactly on the edges of the contract: only a span or a memory
-- supports a memory, only an entity or a memory depends on something, and that is no span, every
-- other edge starts at a memory, and no public edge supersedes.
pub check_endpoints_iff :
    (p : RelationPredicate) (subject object : EndpointKind)
    → (check_endpoints p subject object ≡ ok tt) ↔ Accepts p subject object
check_endpoints_iff p subject object = (accepted p subject object, passes p subject object)
