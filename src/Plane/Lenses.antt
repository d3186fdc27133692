-- ===== src/Plane/Lenses.antt =====
-- crates/nomiso-store/src/surreal_store.rs: `read`, through the three time lenses.
use nomiso.Prelude.{
  ℕ, Bool, true, not, ◌&&◌, List, [], ◌∷◌, Option, none, some, leb, if◌then◌else◌, is_some_and,
  unwrap_or,
}
use nomiso.Errors.{Result, ok, err, scope_denied, ◌>>=◌}
use nomiso.Scope.{ScopePath, matches}
use nomiso.Memories.{MemoryId, ReadRequest}
use nomiso.Validation.{validate_read}
use nomiso.Plane.{MemoryRecord, Plane, Env, fetch_memory}

-- Valid time: the interval is closed at its start and open at its end.
unfoldable pub valid_at : Option ℕ → MemoryRecord → Bool
valid_at none r = true
valid_at (some t) r = leb r.valid_from t && not (is_some_and r.valid_until (λ u. leb u t))

-- Known time
unfoldable pub known_by : Option ℕ → MemoryRecord → Bool
known_by none r = true
known_by (some t) r = leb r.known_at t

-- System time
unfoldable pub stored_at : Option ℕ → MemoryRecord → Bool
stored_at none r = true
stored_at (some t) r =
    leb (unwrap_or r.sys_created r.known_at) t && not (is_some_and r.sys_closed (λ c. leb c t))

unfoldable pub in_lens : ReadRequest → MemoryRecord → Bool
in_lens req r = valid_at req.as_of r && (known_by req.known_as_of r && stored_at req.sys_as_of r)

-- The loop over the ids: an unknown id is skipped, a record of another scope ends the call.
unfoldable pub read_ids :
    ReadRequest → ScopePath → Plane → List MemoryId → Result (List MemoryRecord)
read_ids req scope s [] = ok []
read_ids req scope s (id ∷ ids) =
    let rest = read_ids req scope s ids in
    elim (fetch_memory id s) [
      | none ↦ rest
      | some r ↦
          if not (matches scope r.scope req.scope_match)
          then err (scope_denied "record not in scope")
          else if in_lens req r
          then (rest >>= λ rs. ok (r ∷ rs))
          else rest
    ]

unfoldable pub read : Env → ReadRequest → Plane → Result (List MemoryRecord)
read e req s = validate_read req e.limits >>= λ scope. read_ids req scope s req.ids
