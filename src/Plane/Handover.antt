-- ===== src/Plane/Handover.antt =====
-- A supersession as a whole: the rows that its transaction leaves.
use nomiso.Prelude.{
  ℕ, ◌≤◌, ◌≡◌, ◌≢◌, subst, inl, inr, true, Option, none, some, arith, Bool-cases, Option-cases,
  unwrap_or,
}
use nomiso.Prelude.Text.{Text, text_eq_iff}
use nomiso.Prelude.Table.{find}
use nomiso.Errors.{ok, Result-cases}
use nomiso.Scope.{ScopePath}
use nomiso.Memories.{PutRequest, SupersedeRequest, memory_key}
use nomiso.Scope
use nomiso.Validation.Accepted.{validate_supersede-eq_ok_iff}
use nomiso.Validation.{validate_supersede, validate_interval_after_defaults, check_version}
use nomiso.Plane.{MemoryRecord, WriteResult, RelationshipRow, Plane, Env, id_of}
use nomiso.Plane.Writes.{new_memory, generation_for, written}
use nomiso.Plane.Supersede.{
  supersede, supersede_commit, closable, check_prior, close_instant, successor,
}
use nomiso.Plane.Succession.{
  KeepsRows, generation_for-KeepsRows, marked, ended, marked_edge, after, find-after_prior,
  find-after_new, find-after_other, find-after_edge,
}

-- A supersession of an open record, at the version that the caller saw. A row is changed apart from
-- the mark of staleness on dependents in the scope.
pub record Committed (now : ℕ) (key : Text) (req : SupersedeRequest) (w : WriteResult)
    (s s' : Plane) : Type 0 where
  pub path : ScopePath
  pub prior : MemoryRecord
  pub egen : Option ℕ
  pub between : Plane
  pub parsed : Scope.parse req.new.scope ≡ ok path
  pub at_prior : find (memory_key req.prior_id) s.memories ≡ some prior
  pub same_scope : prior.scope ≡ path.as_str
  pub may : closable req.expected_version prior ≡ true
  pub fresh : find key s.memories ≡ none
  pub within : prior.valid_from ≤ close_instant now req
  pub kept : KeepsRows s between
  pub prior_after :
      find (memory_key req.prior_id) s'.memories
      ≡ some (
          marked now key req
            (close_instant now req)
            (successor now path.as_str req)
            egen
            between
            prior
            (memory_key req.prior_id)
            (ended now key req
              (close_instant now req)
              (successor now path.as_str req)
              egen
              between
              prior))
  pub new_after :
      find key s'.memories
      ≡ some (
          marked now key req
            (close_instant now req)
            (successor now path.as_str req)
            egen
            between
            prior
            key
            (new_memory now key
              (successor now path.as_str req)
              egen
              (some (id_of (memory_key req.prior_id)))))
  pub others :
      (k : Text) (r : MemoryRecord)
      → k ≢ memory_key req.prior_id
      → k ≢ key
      → find k s.memories ≡ some r
      → find k s'.memories
        ≡ some (
            marked now key req
              (close_instant now req)
              (successor now path.as_str req)
              egen
              between
              prior
              k
              r)
  pub edges :
      (k : Text) (r : RelationshipRow)
      → find k s.relationships ≡ some r
      → find k s'.relationships
        ≡ some (
            marked_edge now key req
              (close_instant now req)
              (successor now path.as_str req)
              egen
              between
              prior
              k
              r)
  pub returned :
      w
      ≡ written (
          new_memory now key
            (successor now path.as_str req)
            egen
            (some (id_of (memory_key req.prior_id))))

checked_scope :
    (now : ℕ) (scope : Text) (req : SupersedeRequest) (r : MemoryRecord)
    → check_prior now scope req r ≡ ok tt
    → (r.scope ≡ scope) × (r.valid_from ≤ close_instant now req)
unfolding check_prior check_version
checked_scope now scope req r h = ground (arith, text_eq_iff r.scope scope)

module _ (now : ℕ) (key : Text) (req : SupersedeRequest) (w : WriteResult) (s m s' : Plane)
    (path : ScopePath) (parsed : Scope.parse req.new.scope ≡ ok path) (prior : MemoryRecord)
    (egen : Option ℕ) (kept : KeepsRows s m)
    (at_prior : find (memory_key req.prior_id) s.memories ≡ some prior)
    (checked : check_prior now path.as_str req prior ≡ ok tt) where
  abbrev new : PutRequest
  new = successor now path.as_str req

  abbrev close_at : ℕ
  close_at = close_instant now req

  commit-Committed :
      supersede_commit now key req close_at new egen m ≡ (ok w, s') → Committed now key req w s s'
  unfolding supersede_commit
  commit-Committed h =
      let found : find (memory_key req.prior_id) m.memories ≡ some prior =
        rw kept.memories at_prior in
      elim (Bool-cases (closable req.expected_version prior)) [
        | inr q ↦ absurd (cc (rw (found, q) at h))
        | inl q ↦ elim (Option-cases (find key m.memories)) [
          | inr (r, taken) ↦ absurd (cc (rw (found, q, taken) at h))
          | inl free ↦
              let b : after now key req close_at new egen m prior ≡ s' =
                cc (rw (found, q, free) at h) in
              record {
                path = path;
                prior = prior;
                egen = egen;
                between = m;
                parsed = parsed;
                at_prior = at_prior;
                same_scope = (checked_scope now path.as_str req prior checked).0;
                may = q;
                fresh = rw (← kept.memories) free;
                within = (checked_scope now path.as_str req prior checked).1;
                kept = kept;
                prior_after =
                    subst
                      (λ (t : Plane).
                        find (memory_key req.prior_id) t.memories
                        ≡ some (
                            marked now key req close_at new egen m prior (memory_key req.prior_id)
                              (ended now key req close_at new egen m prior)))
                      b (find-after_prior now key req close_at new egen m prior found free);
                new_after =
                    subst
                      (λ (t : Plane).
                        find key t.memories
                        ≡ some (
                            marked now key req close_at new egen m prior key (
                              new_memory now key new egen
                                (some (id_of (memory_key req.prior_id))))))
                      b (find-after_new now key req close_at new egen m prior found free);
                others = λ k r n n' e.
                    subst
                      (λ (t : Plane).
                        find k t.memories ≡ some (marked now key req close_at new egen m prior k r))
                      b
                      (find-after_other now key req close_at new egen m prior found free k r n n'
                        (rw kept.memories e));
                edges = λ k r e.
                    subst
                      (λ (t : Plane).
                        find k t.relationships
                        ≡ some (marked_edge now key req close_at new egen m prior k r))
                      b
                      (find-after_edge now key req close_at new egen m prior found free k r
                        (rw kept.relationships e));
                returned = cc (rw (found, q, free) at h);
              }
        ]
      ]

pub supersede-Committed :
    (e : Env) (now : ℕ) (key : Text) (req : SupersedeRequest) (w : WriteResult) (s s' : Plane)
    → supersede e now key req s ≡ (ok w, s')
    → Committed now key req w s s'
unfolding supersede
supersede-Committed e now key req w s s' h =
    elim (Result-cases (validate_supersede e.host now req e.limits)) [
      | inr (x, a) ↦ absurd (cc (rw a at h))
      | inl (path, a) ↦ elim (Option-cases (find (memory_key req.prior_id) s.memories)) [
        | inl b ↦ absurd (cc (rw (a, b) at h))
        | inr (prior, b) ↦ elim (Result-cases (check_prior now path.as_str req prior)) [
          | inr (x, c) ↦ absurd (cc (rw (a, b, c) at h))
          | inl (u, c) ↦
              let new : PutRequest = successor now path.as_str req in
              elim (Result-cases (
                validate_interval_after_defaults (unwrap_or new.valid_from (close_instant now req))
                  new.valid_until)) [
                    | inr (x, d) ↦ absurd (cc (rw (a, b, c, d) at h))
                    | inl (v, d) ↦ elim (Result-cases (generation_for new s).0) [
                      | inr (x, f) ↦ absurd (cc (rw (a, b, c, d, f) at h))
                      | inl (egen, f) ↦
                          commit-Committed now key req w s (generation_for new s).1 s' path
                            ((validate_supersede-eq_ok_iff e.host now e.limits req path).0
                              a).4.parsed
                            prior egen (generation_for-KeepsRows new s) b c
                            (rw (a, b, c, d, f) at h)
                    ]
                  ]
        ]
      ]
    ]
