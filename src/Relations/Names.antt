-- ===== src/Relations/Names.antt =====
-- The names of relation predicates and of their states read back.
use nomiso.Prelude.{◌≡◌, refl, ◌↔◌, some, ap, ◌∙◌, arith}
use nomiso.Prelude.Text.{Text, text_eq, text_eq_iff}
use nomiso.Relations.{
  RelationPredicate, supports, derived_from, contradicts, supersedes, mentions, depends_on,
  applies_to, observed_in, attempted, resolved_by, as_str, parse_predicate, EpistemicStatus,
  reported, inferred, verified, disputed, unknown, status_str, parse_status, RelationshipState,
  active, closed, stale, purged, lifecycle_str, parse_lifecycle,
}

parse_predicate-eq_some :
    (s : Text) (x : RelationPredicate) → parse_predicate s ≡ some x → s ≡ as_str x
unfolding parse_predicate
parse_predicate-eq_some s x h = ground (
  arith,
  text_eq_iff s (as_str supports),
  text_eq_iff s (as_str derived_from),
  text_eq_iff s (as_str contradicts),
  text_eq_iff s (as_str supersedes),
  text_eq_iff s (as_str mentions),
  text_eq_iff s (as_str depends_on),
  text_eq_iff s (as_str applies_to),
  text_eq_iff s (as_str observed_in),
  text_eq_iff s (as_str attempted),
  text_eq_iff s (as_str resolved_by),
)

pub parse_predicate-as_str : (x : RelationPredicate) → parse_predicate (as_str x) ≡ some x
unfolding parse_predicate text_eq
parse_predicate-as_str supports = refl
parse_predicate-as_str derived_from = refl
parse_predicate-as_str contradicts = refl
parse_predicate-as_str supersedes = refl
parse_predicate-as_str mentions = refl
parse_predicate-as_str depends_on = refl
parse_predicate-as_str applies_to = refl
parse_predicate-as_str observed_in = refl
parse_predicate-as_str attempted = refl
parse_predicate-as_str resolved_by = refl

parse_status-eq_some : (s : Text) (x : EpistemicStatus) → parse_status s ≡ some x → s ≡ status_str x
unfolding parse_status
parse_status-eq_some s x h = ground (
  arith,
  text_eq_iff s (status_str reported),
  text_eq_iff s (status_str inferred),
  text_eq_iff s (status_str verified),
  text_eq_iff s (status_str disputed),
  text_eq_iff s (status_str unknown),
)

pub parse_status-status_str : (x : EpistemicStatus) → parse_status (status_str x) ≡ some x
unfolding parse_status text_eq
parse_status-status_str reported = refl
parse_status-status_str inferred = refl
parse_status-status_str verified = refl
parse_status-status_str disputed = refl
parse_status-status_str unknown = refl

parse_lifecycle-eq_some :
    (s : Text) (x : RelationshipState) → parse_lifecycle s ≡ some x → s ≡ lifecycle_str x
unfolding parse_lifecycle
parse_lifecycle-eq_some s x h = ground (
  arith,
  text_eq_iff s (lifecycle_str active),
  text_eq_iff s (lifecycle_str closed),
  text_eq_iff s (lifecycle_str stale),
  text_eq_iff s (lifecycle_str purged),
)

parse_lifecycle-lifecycle_str : (x : RelationshipState) → parse_lifecycle (lifecycle_str x) ≡ some x
unfolding parse_lifecycle text_eq
parse_lifecycle-lifecycle_str active = refl
parse_lifecycle-lifecycle_str closed = refl
parse_lifecycle-lifecycle_str stale = refl
parse_lifecycle-lifecycle_str purged = refl

-- A text parses to a predicate, to an epistemic status or to a lifecycle state exactly when it is
-- the text that this value is written as.
pub parse-eq_some_iff :
    (s : Text)
    → ((p : RelationPredicate) → (parse_predicate s ≡ some p) ↔ (s ≡ as_str p))
      × ((e : EpistemicStatus) → (parse_status s ≡ some e) ↔ (s ≡ status_str e))
      × ((l : RelationshipState) → (parse_lifecycle s ≡ some l) ↔ (s ≡ lifecycle_str l))
parse-eq_some_iff s = (
  λ p. (parse_predicate-eq_some s p, λ e. ap parse_predicate e ∙ parse_predicate-as_str p),
  λ x. (parse_status-eq_some s x, λ e. ap parse_status e ∙ parse_status-status_str x),
  λ l. (parse_lifecycle-eq_some s l, λ e. ap parse_lifecycle e ∙ parse_lifecycle-lifecycle_str l),
)
