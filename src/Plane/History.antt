-- ===== src/Plane/History.antt =====
-- crates/nomiso-store/src/surreal_store.rs: `history`, the chain of supersessions around a memory.
use nomiso.Prelude.{ℕ, zero, suc, not, List, [], ◌∷◌, ◌++◌, none, some, if◌then◌else◌}
use mathlib.Core.List.{reverse}
use nomiso.Prelude.Text.{Text, text_eq}
use nomiso.Errors.{Result, ok, err, scope_denied, ◌>>=◌}
use nomiso.Scope
use nomiso.Memories.{MemoryId}
use nomiso.Plane.{MemoryRecord, Plane, fetch_memory}

-- The walk along `supersedes`, newest first.
unfoldable pub backward : Plane → Text → ℕ → MemoryId → Result (List MemoryRecord)
backward s scope zero cur = ok []
backward s scope (suc rounds) cur = elim (fetch_memory cur s) [
  | none ↦ ok []
  | some r ↦
      if not (text_eq r.scope scope)
      then err (scope_denied "history scope")
      else elim r.supersedes [
        | none ↦ ok (r ∷ [])
        | some prior ↦ backward s scope rounds prior >>= λ chain. ok (r ∷ chain)
      ]
]

-- The walk along `superseded_by`, without the record whose id is the one that was asked for.
unfoldable pub forward : Plane → Text → ℕ → MemoryId → List MemoryRecord
forward s id zero cur = []
forward s id (suc rounds) cur = elim (fetch_memory cur s) [
  | none ↦ []
  | some r ↦
      let rest : List MemoryRecord = elim r.superseded_by [
        | none ↦ []
        | some next ↦ forward s id rounds next
      ] in
      if not (text_eq r.id.as_str id) then r ∷ rest else rest
]

unfoldable pub history : MemoryId → Text → Plane → Result (List MemoryRecord)
history id raw_scope s = Scope.parse raw_scope >>= λ scope.
    backward s scope.as_str 64 id >>= λ chain. ok (reverse chain ++ forward s id.as_str 64 id)
