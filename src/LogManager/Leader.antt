-- ===== src/LogManager/Leader.antt =====
-- `append_entries` on a leader, whose entries come without an index.
use quorumkit.Prelude.{
  ℕ, suc, ◌+◌, ◌≡◌, refl, ap, true, false, List, [], ◌∷◌, ◌==◌, length, last_or, arith,
}
use quorumkit.Peer.{PeerOrder}
use quorumkit.LogEntry.{LogEntry}
use quorumkit.LogStorage.{LogStorage}
use quorumkit.LogManager.{LogManager}
use quorumkit.LogManager.Waiters.{wakeup_all_waiter}
use quorumkit.LogManager.Write.{
  assign, check_and_resolve_conflict, append_resolved, after_check, resolve_and_append,
  append_entries,
}
use quorumkit.LogManager.Terms.{last_or-Runs}
use quorumkit.LogManager.Conflict.{IsValid, Appended, keeps, Appended-IsValid, reads, Takes}
use quorumkit.LogManager.Follower.{unguarded}
use quorumkit.MemoryLog.Valid.{Runs}

module _ {P : Type 0} where
  assign-Runs : (last : ℕ) (es : List (LogEntry P)) → Runs (last + 1) (assign last es)
  unfolding assign
  assign-Runs last [] = tt
  assign-Runs last (e ∷ es) =
      let s : suc (last + 1) ≡ last + 1 + 1 = omega arith in
      (refl, rw s (assign-Runs (last + 1) es))

  length-assign : (last : ℕ) (es : List (LogEntry P)) → length (assign last es) ≡ length es
  unfolding assign
  length-assign last [] = refl
  length-assign last (e ∷ es) = ap suc (length-assign (last + 1) es)

  back-assign :
      (last : ℕ) (d e : LogEntry P) (es : List (LogEntry P))
      → (last_or d (assign last (e ∷ es))).id.index ≡ last + length (assign last (e ∷ es))
  unfolding assign
  back-assign last d e es =
      omega (arith, last_or-Runs (last + 1) _ (assign (last + 1) es) (assign-Runs last (e ∷ es)))

module _ {P S D W : Type 0} ⦃o : PeerOrder P⦄ ⦃s : LogStorage P S⦄ where
  grown_by_assigned :
      (lm : LogManager P S D W) (e : LogEntry P) (es : List (LogEntry P)) (done : D)
      → e.id.index ≡ 0
      → Appended lm (resolve_and_append lm (e ∷ es) done).0 (assign lm.last_log_index (e ∷ es))
  unfolding resolve_and_append after_check check_and_resolve_conflict append_resolved
      wakeup_all_waiter
  grown_by_assigned lm e es done zero =
      let z : e.id.index == 0 ≡ true = ground arith in
      rw z (record {
        storage_eq = refl;
        virtual_eq = refl;
        snapshot_eq = refl;
        applied_eq = refl;
        first_eq = refl;
        memory_eq = refl;
        last_eq = back-assign lm.last_log_index e e es;
      })

  -- If the memory is in order and the first entry has index 0, then `append_entries` on a manager
  -- without error gives the entries the indexes after the last one, in order, answers each of them with
  -- its term, leaves the terms before them, and keeps the manager in order; the last index grows by
  -- the number of entries.
  pub append_entries-assign :
      (lm : LogManager P S D W) (e : LogEntry P) (es : List (LogEntry P)) (done : D)
      → lm.has_error ≡ false
      → IsValid lm
      → e.id.index ≡ 0
      → Takes lm
          (append_entries lm (e ∷ es) done).0
          (lm.last_log_index + 1)
          (assign lm.last_log_index (e ∷ es))
        × ((append_entries lm (e ∷ es) done).0.last_log_index ≡ lm.last_log_index + length (e ∷ es))
        × Runs (lm.last_log_index + 1) (assign lm.last_log_index (e ∷ es))
  append_entries-assign lm e es done ok v zero =
      let r : Runs (lm.last_log_index + 1) (assign lm.last_log_index (e ∷ es)) =
        assign-Runs lm.last_log_index (e ∷ es) in
      let grown = grown_by_assigned lm e es done zero in
      rw (unguarded lm (e ∷ es) done ok) (
        record {
          takes = reads lm _ (assign lm.last_log_index (e ∷ es)) grown v r;
          before = λ i l. keeps lm _ (assign lm.last_log_index (e ∷ es)) i grown v r (omega arith);
          valid = Appended-IsValid lm _ (assign lm.last_log_index (e ∷ es)) grown v r;
        },
        omega (arith, grown.last_eq, length-assign lm.last_log_index (e ∷ es)),
        r,
      )
