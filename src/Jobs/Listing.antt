-- ===== src/Jobs/Listing.antt =====
-- What `list_jobs` returns.
use mathlib.Core.List.{Perm, perm_middle}
use mathlib.Core.List.Perm
use nomiso.Prelude.{
  ℕ, ◌≤◌, ◌<◌, ◌≡◌, refl, ap, sym, ◌∙◌, inl, inr, Bool, true, not, List, [], ◌∷◌, ◌++◌, Option,
  none, some, filter, take, map, arith, unwrap_or, All, All-map, All-filter, Bool-cases,
}
use nomiso.Prelude.Text.{Text, text_eq_iff}
use nomiso.Prelude.Sort.{sort, sort-perm, sort-Ordered, Ordered, All-sort}
use nomiso.Errors.{ok, Result-cases}
use nomiso.Scope
use nomiso.Scope.{ScopePath}
use nomiso.Jobs
use nomiso.Jobs.{JobState, JobSummary, ListJobsRequest, summarise, parse_state}
use nomiso.Jobs.Names.{parse_state-as_str}
use nomiso.Jobs.Journal.{JobRow, Store}
use nomiso.Jobs.Inspect.{list_jobs, selected, state_matches, kind_matches, created_after, clamp}

-- What a request asks for: jobs of the scope, of a state and of a kind if it names them.
abbrev pub Asked : Text → ListJobsRequest → JobRow → Type 0
Asked scope req r =
    (r.scope ≡ scope)
    × ((state : JobState) → req.state ≡ some state → r.state ≡ state)
    × ((kind : Text) → req.kind ≡ some kind → r.kind ≡ kind)

abbrev pub NewestFirst : List JobRow → Type 0
NewestFirst [] = Unit
NewestFirst (a ∷ rows) = All (λ b. b.created_at ≤ a.created_at) rows × NewestFirst rows

-- The limit of a listing: 100 if the request names none, and otherwise within 1 and 500.
abbrev pub IsLimit : Option ℕ → ℕ → Type 0
IsLimit none limit = limit ≡ 100
IsLimit (some n) limit =
    (n ≡ 0 → limit ≡ 1) × (1 ≤ n → n ≤ 500 → limit ≡ n) × (500 < n → limit ≡ 500)

-- The newest rows of those that the request asks for, up to its limit.
pub record Listing (req : ListJobsRequest) (s : Store) (out : List JobSummary) : Type 0 where
  pub path : ScopePath
  pub limit : ℕ
  pub rows : List JobRow
  pub others : List JobRow
  pub parsed : Scope.parse req.scope ≡ ok path
  pub limited : IsLimit req.limit limit
  pub complete : Perm (rows ++ others) s.jobs
  pub asked : All (Asked path.as_str req) rows
  pub not_asked : All (λ r. Asked path.as_str req r → ⊥) others
  pub newest_first : NewestFirst rows
  pub listed : out ≡ map (λ r. summarise r.job) (take limit rows)

clamp-IsLimit : (o : Option ℕ) → IsLimit o (clamp 1 500 (unwrap_or o 100))
unfolding clamp
clamp-IsLimit none = refl
clamp-IsLimit (some n) = ground arith

Ordered-NewestFirst : (rows : List JobRow) → Ordered created_after rows → NewestFirst rows
Ordered-NewestFirst [] h = tt
Ordered-NewestFirst (a ∷ rows) h = (
  All-map (λ b. created_after a b ≡ true) (λ b. b.created_at ≤ a.created_at) rows
      (λ b e. ground arith) h.0,
  Ordered-NewestFirst rows h.1,
)

some-injective : {A : Type 0} (a b : A) → some a ≡ some b → a ≡ b
some-injective a b h = cc

as_str-injective : (a b : JobState) → Jobs.as_str a ≡ Jobs.as_str b → a ≡ b
as_str-injective a b h =
    some-injective a b (sym (parse_state-as_str a) ∙ (ap parse_state h ∙ parse_state-as_str b))

module _ (r : JobRow) where
  state_matches-eq :
      (o : Option JobState)
      → state_matches o r ≡ true
      → (state : JobState) → o ≡ some state
      → r.state ≡ state
  state_matches-eq none h state e = absurd cc
  state_matches-eq (some x) h state e =
      as_str-injective r.state x ((text_eq_iff (Jobs.as_str r.state) (Jobs.as_str x)).0 h)
      ∙ some-injective x state e

  eq-state_matches :
      (o : Option JobState)
      → ((state : JobState) → o ≡ some state → r.state ≡ state)
      → state_matches o r ≡ true
  eq-state_matches none k = refl
  eq-state_matches (some x) k =
      (text_eq_iff (Jobs.as_str r.state) (Jobs.as_str x)).1 (ap Jobs.as_str (k x refl))

  kind_matches-eq :
      (o : Option Text) → kind_matches o r ≡ true → (kind : Text) → o ≡ some kind → r.kind ≡ kind
  kind_matches-eq none h kind e = absurd cc
  kind_matches-eq (some x) h kind e = (text_eq_iff r.kind x).0 h ∙ some-injective x kind e

  eq-kind_matches :
      (o : Option Text) → ((kind : Text) → o ≡ some kind → r.kind ≡ kind) → kind_matches o r ≡ true
  eq-kind_matches none k = refl
  eq-kind_matches (some x) k = (text_eq_iff r.kind x).1 (k x refl)

  selected-Asked :
      (scope : Text) (req : ListJobsRequest) → selected scope req r ≡ true → Asked scope req r
  selected-Asked scope req h = (
    ground (arith, text_eq_iff r.scope scope),
    state_matches-eq req.state (ground arith),
    kind_matches-eq req.kind (ground arith),
  )

  Asked-selected :
      (scope : Text) (req : ListJobsRequest) → Asked scope req r → selected scope req r ≡ true
  Asked-selected scope req (a, b, c) =
      rw ((text_eq_iff r.scope scope).1 a, eq-state_matches req.state b, eq-kind_matches req.kind c)
        refl

-- A selection and what it leaves out are the whole list.
filter-Perm :
    (p : JobRow → Bool) (rows : List JobRow)
    → Perm (filter p rows ++ filter (λ r. not (p r)) rows) rows
filter-Perm p [] = Perm.refl []
filter-Perm p (r ∷ rows) = elim (Bool-cases (p r)) [
  | inl q ↦ rw q (Perm.cons r (filter-Perm p rows))
  | inr q ↦ rw q (
      Perm.trans (perm_middle (filter p rows) (filter (λ x. not (p x)) rows))
        (Perm.cons r (filter-Perm p rows)))
]

module _ (scope : Text) (req : ListJobsRequest) (jobs : List JobRow) where
  abbrev rows_of : List JobRow
  rows_of = sort created_after (filter (selected scope req) jobs)

  abbrev others_of : List JobRow
  others_of = filter (λ r. not (selected scope req r)) jobs

  rows-complete : Perm (rows_of ++ others_of) jobs
  rows-complete =
      Perm.trans
        (Perm.append_right others_of (sort-perm created_after (filter (selected scope req) jobs)))
        (filter-Perm (selected scope req) jobs)

  rows-Asked : All (Asked scope req) rows_of
  rows-Asked = All-sort created_after (Asked scope req) (filter (selected scope req) jobs) (
      All-map (λ r. selected scope req r ≡ true) (Asked scope req)
        (filter (selected scope req) jobs) (λ r e. selected-Asked r scope req e)
        (All-filter (selected scope req) jobs))

  others-not-Asked : All (λ r. Asked scope req r → ⊥) others_of
  others-not-Asked =
      All-map (λ r. not (selected scope req r) ≡ true) (λ r. Asked scope req r → ⊥) others_of
        (λ r e a. let q = Asked-selected r scope req a in absurd (ground arith))
        (All-filter (λ r. not (selected scope req r)) jobs)

-- A listing is of a parsed scope. The table is divided into the rows that the request asks for, those
-- of this scope, of its state if it names one and of its kind if it names one, and the rows that it
-- does not ask for. The rows asked for are ordered from the newest to the oldest, and the summaries
-- of the first of them are returned, up to the limit: 100 if the request names none, and otherwise
-- its limit, raised to 1 or lowered to 500.
pub list_jobs-Listing :
    (req : ListJobsRequest) (s : Store) (out : List JobSummary)
    → list_jobs req s ≡ ok out
    → Listing req s out
unfolding list_jobs
list_jobs-Listing req s out e = elim (Result-cases (Scope.parse req.scope)) [
  | inr (x, a) ↦ absurd (cc (rw a at e))
  | inl (path, a) ↦ record {
    path = path;
    limit = clamp 1 500 (unwrap_or req.limit 100);
    rows = rows_of path.as_str req s.jobs;
    others = others_of path.as_str req s.jobs;
    parsed = a;
    limited = clamp-IsLimit req.limit;
    complete = rows-complete path.as_str req s.jobs;
    asked = rows-Asked path.as_str req s.jobs;
    not_asked = others-not-Asked path.as_str req s.jobs;
    newest_first = Ordered-NewestFirst (rows_of path.as_str req s.jobs) (
        sort-Ordered created_after (λ x y h. ground arith) (λ x y z h k. ground arith)
          (filter (selected path.as_str req) s.jobs));
    listed = cc (rw a at e);
  }
]
