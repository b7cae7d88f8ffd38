-- ===== src/BallotBox.antt =====
-- src/braft/ballot_box.h and ballot_box.cpp: the ballots of the log entries that the leader has
-- appended and that are not committed. Each method is one step under `_mutex`. `_closure_queue` is
-- part of the state; a call of `_waiter->on_committed` is the option in the result. A CHECK that
-- fails logs, and what stands after it runs.
pub mod Entry
pub mod Range
pub mod Commit
pub mod Invariant
pub mod Reachable
use quorumkit.Prelude.{
  ℕ, zero, suc, ◌+◌, ◌-◌, max, Bool, true, false, not, ◌&&◌, ◌||◌, List, [], ◌∷◌, ◌++◌, Option,
  none, some, ltb, leb, ◌==◌, if◌then◌else◌, length, drop,
}
use quorumkit.Errno.{Code, ok, minus_one, einval, erange}
use quorumkit.Peer.{PeerOrder}
use quorumkit.Ballot.{Ballot, PosHint, no_hint, granted, grant_hint}
use quorumkit.Ballot
use quorumkit.ClosureQueue.{ClosureQueue}
use quorumkit.ClosureQueue

pub record BallotBox (P C : Type 0) : Type 0 where
  pub last_committed_index : ℕ
  pub pending_index : ℕ
  pub pending_meta_queue : List (Ballot P)
  pub closure_queue : ClosureQueue C

pub record Committed (P C : Type 0) : Type 0 where
  pub code : Code
  pub box : BallotBox P C
  pub on_committed : Option ℕ

module _ {P : Type 0} where
  abbrev pub no_ballots : List (Ballot P) → Bool
  no_ballots [] = true
  no_ballots (b ∷ bs) = false

  unfoldable pub new_box : {C : Type 0} → BallotBox P C
  unfolding ClosureQueue.new_queue
  new_box = record {
    last_committed_index = 0;
    pending_index = 0;
    pending_meta_queue = [];
    closure_queue = ClosureQueue.new_queue;
  }

module _ {P : Type 0} ⦃o : PeerOrder P⦄ where
  -- The loop of `commit_at` over the queue from its front: the ballots of `skip` indexes are left
  -- alone, those of the next `count` take the vote with the hint of the one before, the rest is left
  -- alone. `index` is `log_index`, `committed` is the local `last_committed_index`.
  unfoldable pub grant_range : P → ℕ → ℕ → ℕ → PosHint → ℕ → List (Ballot P) → List (Ballot P) × ℕ
  grant_range peer skip count index hint committed [] = ([], committed)
  grant_range peer (suc skip) count index hint committed (b ∷ bs) =
      let (rest, last) = grant_range peer skip count index hint committed bs in (b ∷ rest, last)
  grant_range peer zero zero index hint committed (b ∷ bs) = (b ∷ bs, committed)
  grant_range peer zero (suc count) index hint committed (b ∷ bs) =
      let (b', hint') = grant_hint b peer hint in
      let (rest, last) =
        grant_range peer zero count (index + 1) hint' (if granted b' then index else committed)
          bs in
      (b' ∷ rest, last)

module _ {P C : Type 0} ⦃o : PeerOrder P⦄ where
  -- The end of `commit_at`, from its second test on.
  unfoldable pub finish_commit : BallotBox P C → List (Ballot P) × ℕ → Committed P C
  finish_commit box (queue, committed) =
      if committed == 0
      then record {
        code = ok;
        box = record box { pending_meta_queue = queue };
        on_committed = none;
      }
      else record {
        code = ok;
        box = record box {
          last_committed_index = committed;
          pending_index = committed + 1;
          pending_meta_queue = drop (committed + 1 - box.pending_index) queue;
        };
        on_committed = some committed;
      }

  unfoldable pub commit_at : BallotBox P C → ℕ → ℕ → P → Committed P C
  commit_at box first_log_index last_log_index peer =
      let start_at = max box.pending_index first_log_index in
      if box.pending_index == 0
      then record { code = einval; box = box; on_committed = none }
      else if ltb last_log_index box.pending_index
      then record { code = ok; box = box; on_committed = none }
      else if leb (box.pending_index + length box.pending_meta_queue) last_log_index
      then record { code = erange; box = box; on_committed = none }
      else finish_commit box (
          grant_range peer (start_at - box.pending_index) (last_log_index + 1 - start_at) start_at
            no_hint 0 box.pending_meta_queue)

  -- The box after the call, and the closures that `ClosureQueue::clear` runs. The code takes the lock
  -- of the ballots and then that of the closures. The two are one step here: in between the pending
  -- index is 0, so nothing is committed, and the node, which holds its own lock, appends nothing.
  unfoldable pub clear_pending_tasks : BallotBox P C → BallotBox P C × List C
  clear_pending_tasks box =
      let (queue, run) = ClosureQueue.clear box.closure_queue in
      (record box { pending_index = 0; pending_meta_queue = []; closure_queue = queue }, run)

  unfoldable pub reset_pending_index : BallotBox P C → ℕ → BallotBox P C
  reset_pending_index box new_pending_index = record box {
    pending_index = new_pending_index;
    closure_queue = ClosureQueue.reset_first_index box.closure_queue new_pending_index;
  }

  unfoldable pub append_pending_task :
      BallotBox P C → List P → Option (List P) → Option C → BallotBox P C
  append_pending_task box conf old_conf closure = record box {
    pending_meta_queue = box.pending_meta_queue ++ (Ballot.init conf old_conf ∷ []);
    closure_queue = ClosureQueue.append_pending_closure box.closure_queue closure;
  }

  unfoldable pub set_last_committed_index : BallotBox P C → ℕ → Committed P C
  set_last_committed_index box index =
      if not (box.pending_index == 0) || not (no_ballots box.pending_meta_queue)
      then record { code = minus_one; box = box; on_committed = none }
      else if ltb index box.last_committed_index
      then record { code = einval; box = box; on_committed = none }
      else if ltb box.last_committed_index index
      then record {
        code = ok;
        box = record box { last_committed_index = index };
        on_committed = some index;
      }
      else record { code = ok; box = box; on_committed = none }
