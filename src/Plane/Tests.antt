-- ===== src/Plane/Tests.antt =====
-- The theorems on the memory plane at concrete runs.
use nomiso.Prelude.{[], ◌∷◌, ℕ, ◌≡◌, ◌≤◌, ◌⊎◌, refl, arith, true, false, not, some}
use nomiso.Prelude.Text.{Text, codes}
use nomiso.Errors.{Result, ok, err, idempotency_conflict}
use nomiso.Plane.{MemoryRecord, id_of}
use nomiso.Plane.Receipts.{put_request_identity}
use nomiso.Plane.Writes.{put, written}
use nomiso.Plane.Lenses.{valid_at, read}
use nomiso.Plane.World.{Erases, Run, empty_plane}
use nomiso.Plane.Methods.{Session-Run}
use nomiso.Plane.Audit.{SameAssertion, Seen, run-AsStored}
use nomiso.Plane.Outcome.{Superseded}
use nomiso.Plane.Passing.{supersede-Superseded}
use nomiso.Plane.Validity.{supersede_handover}
use nomiso.Plane.Hindsight.{supersede-hides_past}
use nomiso.Memories.{memory_key}
use nomiso.Plane.Replay.{put-once}
use nomiso.Plane.Lasting.{put-lasts}
use nomiso.Plane.Reindex.{Register}
use nomiso.Plane.Activation.{run-Register}
use nomiso.Plane.Traverse.{traverse_on, fuel_for}
use nomiso.Plane.Walk.{TraverseResult, depth_bound, edge_bound}
use nomiso.Plane.Traverse.Bounded.{BoundedIfOk, traverse-Bounded}
use nomiso.Plane.Revised.{Revised}
use nomiso.Plane.Scenario.{
  env, request, other, key_a, key_b, path_acme, plane_1, first, puts, shapes, other_shapes, plane_2,
  revision, second, closed, plane_3, superseded, find-prior, find-closed, find-second, plane_4,
  later_run, later_run_spares, plane_later, late_look, reads_b, may_look, inside_acme,
  plane_annotated, annotated, find-annotated, revising_run,
}
use nomiso.Plane.Exhibits.{plane_6, declaring_run, plane_9, walk, plane_10, session, scopes}

run-AsStored_example :
    ((r : MemoryRecord)
      → Seen 12 key_a plane_4 r
      → (m : MemoryRecord) × Seen 12 key_a plane_2 m × SameAssertion m r)
    × ((r : MemoryRecord)
        → Seen 12 key_a plane_2 r
        → Erases key_a revising_run
          ⊎ ((m : MemoryRecord) × Seen 12 key_a plane_4 m × SameAssertion r m))
run-AsStored_example = run-AsStored 12 key_a revising_run (omega arith)

supersede-Superseded_example : Superseded 20 key_b revision (written second) plane_2 plane_3
supersede-Superseded_example =
    supersede-Superseded env 20 key_b revision (written second) plane_2 plane_3 superseded

supersede_handover_example : valid_at (some 25) second ≡ not (valid_at (some 25) closed)
supersede_handover_example =
    supersede_handover env 20 key_b revision (written second) plane_2 plane_3 25 closed second
      superseded refl refl find-closed find-second (omega arith)

supersede-hides_past_example :
    (read env late_look plane_2 ≡ ok (first ∷ [])) × (read env late_look plane_3 ≡ ok [])
supersede-hides_past_example =
    supersede-hides_past env 20 key_b revision (written second) plane_2 plane_3 late_look path_acme
      (id_of key_b) 25 15 first closed second superseded find-prior find-closed find-second reads_b
      may_look refl inside_acme refl refl refl (omega arith) (omega arith) (omega arith)

-- The record was annotated after the put.
put-once_example :
    (put env 30 key_b request plane_annotated
      ≡ (ok (record (written first) { replayed = true }), plane_annotated))
    × ((put_request_identity env (record request { scope = codes "org/acme" })
          ≡ put_request_identity env (record other { scope = codes "org/acme" }))
        ⊎ (put env 30 key_b other plane_annotated ≡ (err idempotency_conflict, plane_annotated)))
put-once_example =
    put-once env 10 30 key_a key_b (codes "k") request other path_acme empty_plane plane_1
      plane_annotated (written first) annotated puts refl shapes refl other_shapes refl
      find-annotated refl

put-lasts_example :
    put env 30 key_b request plane_later
    ≡ (ok (record (written first) { replayed = true }), plane_later)
put-lasts_example =
    put-lasts env 10 30 10 20 key_a key_b (codes "k") request path_acme empty_plane plane_1
      plane_later (written first) later_run puts refl shapes
      (later_run_spares (memory_key (id_of (memory_key (id_of key_a)))))

run-Register_example : Register plane_6.generations
run-Register_example = run-Register declaring_run

traverse-Bounded_example :
    ((r : Result TraverseResult) × (traverse_on scopes (λ n. false) (fuel_for walk) walk plane_9
        ≡ some r)
      × BoundedIfOk walk r)
    × (depth_bound walk.budget ≤ 8)
    × (1 ≤ edge_bound walk.budget)
    × (edge_bound walk.budget ≤ 8192)
traverse-Bounded_example = traverse-Bounded scopes (λ n. false) walk plane_9

Session-Run_example : (late : ℕ) × (late ≤ 10) × Run env 0 empty_plane late plane_10
Session-Run_example = Session-Run session
