-- ===== src/Jobs/Names.antt =====
-- The names of job states and of the kinds of job inputs read back.
use nomiso.Prelude.{◌≡◌, refl, ◌↔◌, some, ap, ◌∙◌, arith}
use nomiso.Prelude.Text.{Text, text_eq, text_eq_iff}
use nomiso.Endpoints
use nomiso.Endpoints.{EndpointKind, memory, entity, artifact, span, parse_kind}
use nomiso.Jobs.{
  JobState, pending, leased, succeeded, failed, cancelled, superseded, as_str, parse_state,
}

parse_state-eq_some : (s : Text) (x : JobState) → parse_state s ≡ some x → s ≡ as_str x
unfolding parse_state
parse_state-eq_some s x h = ground (
  arith,
  text_eq_iff s (as_str pending),
  text_eq_iff s (as_str leased),
  text_eq_iff s (as_str succeeded),
  text_eq_iff s (as_str failed),
  text_eq_iff s (as_str cancelled),
  text_eq_iff s (as_str superseded),
)

pub parse_state-as_str : (x : JobState) → parse_state (as_str x) ≡ some x
unfolding parse_state text_eq
parse_state-as_str pending = refl
parse_state-as_str leased = refl
parse_state-as_str succeeded = refl
parse_state-as_str failed = refl
parse_state-as_str cancelled = refl
parse_state-as_str superseded = refl

parse_kind-eq_some : (s : Text) (k : EndpointKind) → parse_kind s ≡ some k → s ≡ Endpoints.as_str k
unfolding parse_kind
parse_kind-eq_some s k h = ground (
  arith,
  text_eq_iff s (Endpoints.as_str memory),
  text_eq_iff s (Endpoints.as_str entity),
  text_eq_iff s (Endpoints.as_str artifact),
  text_eq_iff s (Endpoints.as_str span),
)

parse_kind-as_str : (k : EndpointKind) → parse_kind (Endpoints.as_str k) ≡ some k
unfolding parse_kind text_eq
parse_kind-as_str memory = refl
parse_kind-as_str entity = refl
parse_kind-as_str artifact = refl
parse_kind-as_str span = refl

-- A text parses to a job state, or to the kind of a job input, exactly when it is the text that
-- this value is written as.
pub parse_state-eq_some_iff :
    (s : Text)
    → ((x : JobState) → (parse_state s ≡ some x) ↔ (s ≡ as_str x))
      × ((k : EndpointKind) → (parse_kind s ≡ some k) ↔ (s ≡ Endpoints.as_str k))
parse_state-eq_some_iff s = (
  λ x. (parse_state-eq_some s x, λ e. ap parse_state e ∙ parse_state-as_str x),
  λ k. (parse_kind-eq_some s k, λ e. ap parse_kind e ∙ parse_kind-as_str k),
)
