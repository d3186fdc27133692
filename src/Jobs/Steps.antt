-- ===== src/Jobs/Steps.antt =====
-- Every step of the journal keeps its invariant and lets its rows evolve, so every run does.
use nomiso.Prelude.{◌≡◌, refl, some, ap, true, ◌∙◌, subst, sym, ℕ, List, none, [], false}
use nomiso.Prelude.Text.{Text}
use nomiso.Errors.{ok}
use nomiso.Host.{Host}
use nomiso.Jobs.{JobRecord, terminal, JobInput, EnqueueJobRequest}
use nomiso.Jobs.Journal.{JobRow, Store, find, tomb, holds, is_live_in, job_bare_key}
use nomiso.Jobs.Enqueue.{expire_guard, expired_row, new_row, slot_taken}
use nomiso.Jobs.Claim.{claim_guard, claimed_row}
use nomiso.Jobs.Effects.{renewed_row, saved_row, completed_row, failed_row}
use nomiso.Jobs.Control.{cancelled_row, superseded_row}
use nomiso.Jobs.Rows.{Earlier, find-key, All-find, Earlier-now, RowOk}
use nomiso.Jobs.Transitions.{
  claimed-Keeps, expired-Keeps, renewed-Keeps, saved-Keeps, completed-Keeps, failed-Keeps,
  cancelled-Keeps, superseded-Keeps,
}
use nomiso.Jobs.Statements.{
  expired-store, claim-store, renew-store, checkpoint-store, complete-store, fail-store,
  cancel-store, supersede-store, enqueue-store,
}
use nomiso.Jobs.World.{
  World, In, SameJob, Step, reads, enqueues, sweeps, claims, renews, checkpoints, completes, fails,
  cancels, supersedes, moves, Reach, here, next, empty_world,
}
use nomiso.Jobs.Invariant.{
  Inv, Advances, Advances-refl, update-Advances, snapshot_row, In-All, validated_budget,
  new_row-RowOk, append-Advances, All-Tracked,
}
use nomiso.Jobs.Evolution.{EvolvesAll, EvolvesAll-refl, EvolvesAll-trans}

new_row_fresh :
    (h : Host) (now : ℕ) (key scope dedup : Text) (inputs : List JobInput) (req : EnqueueJobRequest)
    (rows : List JobRow)
    → find key rows ≡ none
    → find (new_row h now key scope dedup inputs req).key rows ≡ none
unfolding new_row
new_row_fresh h now key scope dedup inputs req rows fresh = fresh

new_row_free :
    (h : Host) (now : ℕ) (key scope dedup : Text) (inputs : List JobInput) (req : EnqueueJobRequest)
    (rows : List JobRow)
    → slot_taken dedup rows ≡ false
    → slot_taken (new_row h now key scope dedup inputs req).dedup_slot rows ≡ false
unfolding new_row
new_row_free h now key scope dedup inputs req rows free = free

new_row_slot :
    (h : Host) (now : ℕ) (key scope dedup : Text) (inputs : List JobInput) (req : EnqueueJobRequest)
    → (new_row h now key scope dedup inputs req).dedup_slot
      ≡ (new_row h now key scope dedup inputs req).dedup_key
unfolding new_row
new_row_slot h now key scope dedup inputs req = refl

module _ (h : Host) (w : World) (v : Inv w) where
  Onward : Store → Type 0
  Onward s = Advances w.store.jobs s.jobs

  stay : Onward w.store
  unfolding Onward
  stay = Advances-refl w.store.jobs v.rows v.distinct

  -- The row under the key of a job that a client has read.
  read_row :
      (job : JobRecord) (key own : Text) (r : JobRow)
      → In job w.seen
      → job_bare_key job.id ≡ ok own
      → key ≡ own
      → find key w.store.jobs ≡ some r
      → Earlier job r × (own ≡ r.key)
  read_row job key own r i named e f =
      snapshot_row w.store.jobs job own r v.rows (In-All w.store.jobs w.seen job v.snapshots i)
        named (rw e at f)

  same_keys :
      (id key own : Text) (job : JobRecord)
      → SameJob id job
      → job_bare_key id ≡ ok key
      → job_bare_key job.id ≡ ok own
      → key ≡ own
  same_keys id key own job s a b = cc

  Step-Advances : {w' : World} → Step h w w' → Advances w.store.jobs w'.store.jobs
  unfolding Onward
  Step-Advances (reads key r e) = stay
  Step-Advances (moves endpoint) = stay
  Step-Advances (enqueues now key req fresh plain) =
      enqueue-store Onward w.store stay h now key req λ scope dedup inputs valid _ free.
        append-Advances w.store.jobs _ v.rows v.distinct
          (new_row-RowOk h now key scope dedup inputs req plain (validated_budget h req valid))
          (new_row_fresh h now key scope dedup inputs req w.store.jobs fresh)
          (new_row_free h now key scope dedup inputs req w.store.jobs free)
          (new_row_slot h now key scope dedup inputs req)
  Step-Advances (sweeps now job i) = expired-store Onward w.store stay now job λ key named.
      update-Advances key (expire_guard job) (expired_row now key) (λ r. refl) w.store.jobs v.rows
        v.distinct
        λ r e ok_row g.
          expired-Keeps now key job r ok_row (read_row job key key r i named refl e).1 g
  Step-Advances (claims now worker job i room) =
      claim-store Onward w.store stay h now worker job λ key named.
        update-Advances key (claim_guard now job) (claimed_row now worker _ job) (λ r. refl)
          w.store.jobs v.rows v.distinct
          λ r e ok_row g.
            claimed-Keeps now worker _ job r ok_row (read_row job key key r i named refl e).0 room g
  Step-Advances (renews now id fence worker job) =
      renew-store Onward w.store stay h now id fence worker job λ key named.
        update-Advances key (holds fence worker) (renewed_row now _) (λ r. refl) w.store.jobs v.rows
          v.distinct λ r e ok_row g. renewed-Keeps now fence _ worker r ok_row g
  Step-Advances (checkpoints now id fence worker body) =
      checkpoint-store Onward w.store stay now id fence worker body λ key named.
        update-Advances key (holds fence worker) (saved_row now body) (λ r. refl) w.store.jobs
          v.rows v.distinct λ r e ok_row g. saved-Keeps now fence worker body r ok_row g
  Step-Advances (completes now id fence worker result job i same) =
      complete-store Onward w.store stay now id fence worker result job λ key own a b _.
        update-Advances key (holds fence worker) (completed_row now result (tomb own) job)
          (λ r. refl) w.store.jobs v.rows v.distinct
          λ r e ok_row g.
            completed-Keeps now fence worker own result job r ok_row
              (read_row job key own r i b (same_keys id key own job same a b) e).1 g
  Step-Advances (fails now id fence worker error job i same) =
      fail-store Onward w.store stay h now id fence worker error job λ key own a b.
        update-Advances key (holds fence worker) (failed_row h now error own job) (λ r. refl)
          w.store.jobs v.rows v.distinct
          λ r e ok_row g.
            let (earlier, o) = read_row job key own r i b (same_keys id key own job same a b) e in
            failed-Keeps h now fence worker own error job r ok_row earlier o g
  Step-Advances (cancels now scope id reason job i same) =
      cancel-store Onward w.store stay now scope id reason job λ key own a b.
        update-Advances key (is_live_in scope) (cancelled_row now reason own job) (λ r. refl)
          w.store.jobs v.rows v.distinct
          λ r e ok_row g.
            cancelled-Keeps now scope reason own job r ok_row
              (read_row job key own r i b (same_keys id key own job same a b) e).1 g
  Step-Advances (supersedes now scope id replacement reason job i same) =
      supersede-store Onward w.store stay now scope id replacement reason job λ key own a b.
        update-Advances key (is_live_in scope) (superseded_row now replacement reason own job)
          (λ r. refl) w.store.jobs v.rows v.distinct
          λ r e ok_row g.
            superseded-Keeps now scope replacement reason own job r ok_row
              (read_row job key own r i b (same_keys id key own job same a b) e).1 g

Step-Inv : (h : Host) {w w' : World} → Inv w → Step h w w' → Inv w'
Step-Inv h {w} v (reads key r e) = record {
  rows = v.rows;
  distinct = v.distinct;
  one_live = v.one_live;
  snapshots = (
    (
      r,
      subst (λ (t : Text). find t w.store.jobs ≡ some r) (sym (find-key key w.store.jobs r e)) e,
      Earlier-now r (All-find RowOk key w.store.jobs r v.rows e),
    ),
    v.snapshots,
  );
}
Step-Inv h {w} {w'} v (enqueues now key req fresh plain) =
    let a = Step-Advances h w v (enqueues now key req fresh plain) in
    record {
      rows = a.rows_ok;
      distinct = a.distinct;
      one_live = a.slots v.one_live;
      snapshots = All-Tracked _ _ w.seen a.evolution v.snapshots;
    }
Step-Inv h {w} {w'} v st =
    let a = Step-Advances h w v st in
    record {
      rows = a.rows_ok;
      distinct = a.distinct;
      one_live = a.slots v.one_live;
      snapshots = All-Tracked _ _ w.seen a.evolution v.snapshots;
    }

Reach-Inv : (h : Host) {w w' : World} → Inv w → Reach h w w' → Inv w'
Reach-Inv h v here = v
Reach-Inv h v (next run st) = Step-Inv h (Reach-Inv h v run) st

pub Reach-EvolvesAll :
    (h : Host) {w w' : World} → Inv w → Reach h w w' → EvolvesAll w.store.jobs w'.store.jobs
Reach-EvolvesAll h {w} v here = EvolvesAll-refl w.store.jobs
Reach-EvolvesAll h {w} {w'} v (next {u} run st) =
    EvolvesAll-trans w.store.jobs u.store.jobs w'.store.jobs (Reach-EvolvesAll h v run)
      (Step-Advances h u (Reach-Inv h v run) st).evolution

no_rows : (key : Text) (r : JobRow) → find key [] ≡ some r → ⊥
unfolding find
no_rows key r e = cc

empty-Inv : Inv empty_world
empty-Inv = record {
  rows = tt;
  distinct = tt;
  one_live = λ j k a b ea eb la lb same. absurd (no_rows j a ea);
  snapshots = tt;
}

-- Whatever the interleaving of clients from the empty journal, every row is well formed: its
-- attempts equal its fence and stay within the budget, a pending job has no owner, a leased job has an owner and an expiry, and a row holds its deduplication slot exactly
-- while it is live; keys are distinct, no two live rows share a deduplication key, and every job
-- that a client has read is an earlier state of a row.
pub run-Inv : (h : Host) (w : World) → Reach h empty_world w → Inv w
run-Inv h w run = Reach-Inv h empty-Inv run

-- From any reachable journal, a row that is terminal is the same row after any further run.
pub terminal_final :
    (h : Host) (w w' : World) (key : Text) (r : JobRow)
    → Reach h empty_world w
    → find key w.store.jobs ≡ some r
    → terminal r.state ≡ true
    → Reach h w w'
    → find key w'.store.jobs ≡ some r
terminal_final h w w' key r start e t run =
    let (r', e', d) = Reach-EvolvesAll h (run-Inv h w start) run key r e in e' ∙ ap some (d.final t)
