-- ===== src/Jobs/Inputs.antt =====
-- crates/nomiso-store/src/surreal_store.rs: the keys and the pinned revisions of job inputs, and
-- the deduplication key of a request.
use nomiso.Prelude.{
  ℕ, Bool, true, false, ◌&&◌, ◌||◌, not, List, [], ◌∷◌, Option, none, some, ◌==◌, unwrap_or,
}
use nomiso.Prelude.Text.{Text, codes, text_eq, trim, decimal, join_with, text_leb}
use nomiso.Prelude.Sort.{sort}
use nomiso.Errors.{Result, ok, traverse, ◌>>=◌}
use nomiso.Json.{null, sorted}
use nomiso.Host.{Host}
use nomiso.Endpoints
use nomiso.Endpoints.{EndpointKind, EndpointRef, bare_key, versioned}
use nomiso.Jobs.{JobInput, EnqueueJobRequest}
use nomiso.Jobs.Journal.{Store, Endpoint}

unfoldable pub input_bare_key : JobInput → Result Text
input_bare_key input = bare_key (record { kind = input.kind; id = input.id })

-- `job_inputs_value`: the inputs as a row keeps them.
stored_input : JobInput → Result JobInput
stored_input i = do key ← input_bare_key i; ok (record i { id = key })

unfoldable pub job_inputs_value : List JobInput → Result (List JobInput)
unfolding stored_input
job_inputs_value inputs = traverse stored_input inputs

-- The checks that `job_input_check` writes into a transaction: the row is in the job's scope, and
-- a versioned row is at the pinned revision.
unfoldable pub pinned : EndpointKind → Option ℕ → ℕ → Bool
pinned kind none version = true
pinned kind (some revision) version = not (versioned kind) || version == revision

unfoldable pub in_place : Text → JobInput → Option Endpoint → Bool
in_place scope input none = false
in_place scope input (some e) = text_eq e.scope scope && pinned input.kind input.revision e.version

unfoldable pub input_holds : Store → Text → JobInput → Result Bool
unfolding pinned in_place
input_holds s scope input = do
  key ← input_bare_key input
  ok (in_place scope input (s.endpoint input.kind key))

-- All inputs of a transaction.
unfoldable pub inputs_hold : Store → Text → List JobInput → Result Bool
unfolding input_holds
inputs_hold s scope [] = ok true
inputs_hold s scope (input ∷ rest) = do
  first ← input_holds s scope input
  others ← inputs_hold s scope rest
  ok (first && others)

-- `"{kind}:{key}:{revision}"`
unfoldable pub input_identity : JobInput → Result Text
input_identity i = do
  key ← input_bare_key i
  ok (join_with (codes ":") (Endpoints.as_str i.kind ∷ key ∷ decimal (unwrap_or i.revision 0) ∷ []))

unfoldable pub dedup_material : Host → EnqueueJobRequest → Text → List Text → Text
dedup_material h req scope ins = join_with (10 ∷ []) (
    codes "nomiso.job-dedup.v0"
    ∷ scope
    ∷ trim req.kind
    ∷ join_with (codes ",") (sort text_leb ins)
    ∷ h.json_text (sorted (unwrap_or req.composition null))
    ∷ unwrap_or req.dedup_hint []
    ∷ [])

unfoldable pub job_dedup_key : Host → EnqueueJobRequest → Text → Result Text
unfolding input_identity dedup_material
job_dedup_key h req scope = do
  ins ← traverse input_identity req.inputs
  ok (h.blake3_hex (dedup_material h req scope ins))
