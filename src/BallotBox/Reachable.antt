-- ===== src/BallotBox/Reachable.antt =====
-- The reachable states of the ballot box and its closure queue: any calls, in any order.
use quorumkit.Prelude.{
  ℕ, ◌+◌, ◌-◌, ◌≤◌, ◌<◌, ◌≡◌, ◌≢◌, inl, inr, List, Option, some, ◌==◌, length, arith, Bool-cases,
  ltb,
}
use quorumkit.Errno.{ok}
use quorumkit.Peer.{PeerOrder}
use quorumkit.ClosureQueue.{ClosureQueue}
use quorumkit.ClosureQueue
use quorumkit.ClosureQueue.Order.{pop_closure_until_lem}
use quorumkit.BallotBox.{
  BallotBox, new_box, commit_at, clear_pending_tasks, reset_pending_index, append_pending_task,
  set_last_committed_index,
}
use quorumkit.BallotBox.Invariant.{
  IsValid, new_box-IsValid, commit_at-IsValid, clear-IsValid, reset-IsValid, append-IsValid,
  follow-IsValid, pop-IsValid,
}

module _ {P C : Type 0} ⦃o : PeerOrder P⦄ where
  -- The calls that the node, its log manager and its applier make, where the CHECKs hold.
  pub data Step (box : BallotBox P C) : BallotBox P C → Type 0 where
    commits : (first last : ℕ) (peer : P) → Step box (commit_at box first last peer).box
    clears : Step box (clear_pending_tasks box).0
    resets :
        (index : ℕ)
        → box.pending_index ≡ 0
        → box.last_committed_index < index
        → Step box (reset_pending_index box index)
    appends :
        (conf : List P) (old_conf : Option (List P)) (closure : Option C)
        → box.pending_index ≢ 0
        → Step box (append_pending_task box conf old_conf closure)
    follows : (index : ℕ) → Step box (set_last_committed_index box index).box
    -- `FSMCaller` pops what is committed.
    pops :
        (index : ℕ)
        → index ≤ box.last_committed_index
        → Step box (record box {
          closure_queue = (ClosureQueue.pop_closure_until box.closure_queue index).rest;
        })

  pub data Reach (box : BallotBox P C) : BallotBox P C → Type 0 where
    here : Reach box box
    next : {b c : BallotBox P C} → Reach box b → Step b c → Reach box c

  -- Every call keeps the box well formed and no call takes a commit back.
  pub Step-IsValid :
      {box b : BallotBox P C}
      → Step box b
      → IsValid P C box
      → IsValid P C b × (box.last_committed_index ≤ b.last_committed_index)
  Step-IsValid {box} (commits first last peer) v = commit_at-IsValid box first last peer v
  Step-IsValid {box} clears v = (clear-IsValid box, unfold clear_pending_tasks in omega arith)
  Step-IsValid {box} (resets index h k) v =
      (reset-IsValid box index v h k, unfold reset_pending_index in omega arith)
  Step-IsValid {box} (appends conf old_conf closure h) v =
      (append-IsValid box conf old_conf closure v h, unfold append_pending_task in omega arith)
  Step-IsValid {box} (follows index) v = follow-IsValid box index v
  Step-IsValid {box} (pops index h) v = (pop-IsValid box index v h, omega arith)

  -- Any sequence of the calls of `Step`, which are those whose CHECKs hold and pops up to a committed
  -- index, on a well-formed box keeps it well formed and takes no commit back.
  pub Reach-IsValid :
      {box b : BallotBox P C}
      → Reach box b
      → IsValid P C box
      → IsValid P C b × (box.last_committed_index ≤ b.last_committed_index)
  Reach-IsValid here v = (v, omega arith)
  Reach-IsValid (next r s) v =
      let (w, m) = Reach-IsValid r v in let (x, n) = Step-IsValid s w in (x, omega arith)

  -- In every state that calls on a new box reach, popping up to a committed index does not fail,
  -- and while the box is pending it answers one closure for each index from the first of the
  -- queue to that one.
  pub pop_committed :
      (box : BallotBox P C) (index : ℕ)
      → Reach new_box box
      → index ≤ box.last_committed_index
      → let r = ClosureQueue.pop_closure_until box.closure_queue index in
        (r.code ≡ ok)
        × (box.pending_index ≢ 0
            → box.closure_queue.first_index ≤ index
            → (r.out_first_index ≡ some box.closure_queue.first_index)
              × (length r.out ≡ index + 1 - box.closure_queue.first_index))
  pop_committed box index r h =
      let v = (Reach-IsValid r (new_box-IsValid P C)).0 in
      let lem = pop_closure_until_lem box.closure_queue index in
      (
        elim (Bool-cases (box.pending_index == 0)) [
          | inl a ↦ (lem.1 (inl (v.idle_closures (ground arith)))).0
          | inr a ↦ elim (Bool-cases (ltb index box.closure_queue.first_index)) [
            | inl b ↦ (lem.1 (inr (ground arith))).0
            | inr b ↦
                let p : box.pending_index ≢ 0 = ground arith in
                (lem.0 (ground arith) (omega (arith, v.below p, v.aligned p))).0
          ]
        ],
        λ p k. let found = lem.0 k (omega (arith, v.below p, v.aligned p)) in (found.3, found.2),
      )
