-- ===== src/BallotBox/Invariant.antt =====
-- The ballot box and its closure queue between two calls: what every reachable state satisfies.
use quorumkit.Prelude.{
  ℕ, zero, suc, ◌+◌, ◌-◌, ◌≤◌, ◌<◌, max, ◌≡◌, ◌≢◌, refl, ap, ◌⊎◌, inl, inr, List, [], ◌∷◌, Option,
  ◌==◌, if◌then◌else◌, length, length-append, length-drop, arith, Bool-cases, ltb, leb,
}
use quorumkit.Peer.{PeerOrder}
use quorumkit.Ballot
use quorumkit.Ballot.{Ballot, PosHint, no_hint, granted, grant_hint}
use quorumkit.ClosureQueue.{ClosureQueue}
use quorumkit.ClosureQueue
use quorumkit.ClosureQueue.Order.{pop_closure_until_lem, pop_in_range}
use quorumkit.BallotBox.{
  BallotBox, new_box, grant_range, finish_commit, commit_at, clear_pending_tasks,
  reset_pending_index, append_pending_task, set_last_committed_index,
}

pub record IsValid (P C : Type 0) (box : BallotBox P C) : Type 0 where
  -- A box that is not pending, as on a follower, is empty.
  pub idle : box.pending_index ≡ 0 → box.pending_meta_queue ≡ []
  pub idle_closures : box.pending_index ≡ 0 → box.closure_queue.queue ≡ []
  -- What is committed lies below what is pending.
  pub below : box.pending_index ≢ 0 → box.last_committed_index < box.pending_index
  -- The closures end where the ballots end, and begin no later.
  pub aligned :
      box.pending_index ≢ 0
      → box.closure_queue.first_index + length box.closure_queue.queue
        ≡ box.pending_index + length box.pending_meta_queue
  pub behind : box.pending_index ≢ 0 → box.closure_queue.first_index ≤ box.pending_index

pub new_box-IsValid : (P C : Type 0) → IsValid P C new_box
unfolding new_box ClosureQueue.new_queue
new_box-IsValid P C = record {
  idle = λ _. refl;
  idle_closures = λ _. refl;
  below = λ h. absurd (h refl);
  aligned = λ h. absurd (h refl);
  behind = λ h. absurd (h refl);
}

module _ {P : Type 0} ⦃o : PeerOrder P⦄ where
  length-grant_range :
      (peer : P) (skip count index : ℕ) (hint : PosHint) (c : ℕ) (bs : List (Ballot P))
      → length (grant_range peer skip count index hint c bs).0 ≡ length bs
  unfolding grant_range
  length-grant_range peer skip count index hint c [] = refl
  length-grant_range peer (suc skip) count index hint c (b ∷ bs) =
      ap suc (length-grant_range peer skip count index hint c bs)
  length-grant_range peer zero zero index hint c (b ∷ bs) = refl
  length-grant_range peer zero (suc count) index hint c (b ∷ bs) =
      ap suc (length-grant_range peer zero count (index + 1) _ _ bs)

  grant_range_bounds :
      (peer : P) (skip count index : ℕ) (hint : PosHint) (c : ℕ) (bs : List (Ballot P))
      → let r = (grant_range peer skip count index hint c bs).1 in
        (r ≡ c) ⊎ ((index ≤ r) × (r < index + count))
  unfolding grant_range
  grant_range_bounds peer skip count index hint c [] = inl refl
  grant_range_bounds peer (suc skip) count index hint c (b ∷ bs) =
      grant_range_bounds peer skip count index hint c bs
  grant_range_bounds peer zero zero index hint c (b ∷ bs) = inl refl
  grant_range_bounds peer zero (suc count) index hint c (b ∷ bs) = ground (
    arith,
    grant_range_bounds peer zero count (index + 1) (grant_hint b peer hint).1
        (if granted (grant_hint b peer hint).0 then index else c) bs,
  )

module _ {P C : Type 0} ⦃o : PeerOrder P⦄ where
  finish-IsValid :
      (box : BallotBox P C) (last : ℕ) (r : List (Ballot P) × ℕ)
      → IsValid P C box
      → box.pending_index ≢ 0
      → length r.0 ≡ length box.pending_meta_queue
      → (r.1 ≡ 0) ⊎ ((box.pending_index ≤ r.1) × (r.1 < box.pending_index + length r.0))
      → IsValid P C (finish_commit box r).box
        × (box.last_committed_index ≤ (finish_commit box r).box.last_committed_index)
  unfolding finish_commit
  finish-IsValid box last r v h l b =
      ground
        (arith, v.below h, v.aligned h, v.behind h, length-drop (r.1 + 1 - box.pending_index) r.0)

  abbrev run_loop : BallotBox P C → ℕ → ℕ → P → List (Ballot P) × ℕ
  run_loop box first last peer =
      grant_range peer (max box.pending_index first - box.pending_index)
        (last + 1 - max box.pending_index first) (max box.pending_index first) no_hint 0
        box.pending_meta_queue

  -- `commit_at` leaves the box alone, or ends in `finish_commit`.
  commit_at_cases :
      (Q : BallotBox P C → Type 0) (box : BallotBox P C) (first last : ℕ) (peer : P)
      → Q box
      → (box.pending_index ≢ 0
          → box.pending_index ≤ last
          → last < box.pending_index + length box.pending_meta_queue
          → Q (finish_commit box (run_loop box first last peer)).box)
      → Q (commit_at box first last peer).box
  unfolding commit_at
  commit_at_cases Q box first last peer kept run = elim (Bool-cases (box.pending_index == 0)) [
    | inl a ↦ rw (a, commit_at) kept
    | inr a ↦ elim (Bool-cases (ltb last box.pending_index)) [
      | inl b ↦ rw (a, b, commit_at) kept
      | inr b ↦ elim (Bool-cases (leb (box.pending_index + length box.pending_meta_queue) last)) [
        | inl c ↦ rw (a, b, c, commit_at) kept
        | inr c ↦ rw (a, b, c, commit_at) (run (ground arith) (ground arith) (ground arith))
      ]
    ]
  ]

  pub commit_at-IsValid :
      (box : BallotBox P C) (first last : ℕ) (peer : P)
      → IsValid P C box
      → IsValid P C (commit_at box first last peer).box
        × (box.last_committed_index ≤ (commit_at box first last peer).box.last_committed_index)
  commit_at-IsValid box first last peer v =
      commit_at_cases (λ b. IsValid P C b × (box.last_committed_index ≤ b.last_committed_index)) box
        first last peer (v, omega arith)
        λ h lo hi.
          let start = max box.pending_index first in
          let len =
            length-grant_range peer (start - box.pending_index) (last + 1 - start) start no_hint 0
              box.pending_meta_queue in
          finish-IsValid box last (run_loop box first last peer) v h len
            (elim (grant_range_bounds peer (start - box.pending_index) (last + 1 - start) start
              no_hint 0 box.pending_meta_queue) [
                | inl z ↦ inl z
                | inr b ↦ inr (omega (arith, b, len), omega (arith, b, len))
              ])

  pub clear-IsValid : (box : BallotBox P C) → IsValid P C (clear_pending_tasks box).0
  unfolding clear_pending_tasks ClosureQueue.clear
  clear-IsValid box = ground arith

  pub reset-IsValid :
      (box : BallotBox P C) (index : ℕ)
      → IsValid P C box
      → box.pending_index ≡ 0
      → box.last_committed_index < index
      → IsValid P C (reset_pending_index box index)
  unfolding reset_pending_index ClosureQueue.reset_first_index
  reset-IsValid box index v h k = ground (arith, v.idle h, v.idle_closures h)

  pub append-IsValid :
      (box : BallotBox P C) (conf : List P) (old_conf : Option (List P)) (closure : Option C)
      → IsValid P C box
      → box.pending_index ≢ 0
      → IsValid P C (append_pending_task box conf old_conf closure)
  unfolding append_pending_task ClosureQueue.append_pending_closure
  append-IsValid box conf old_conf closure v h = ground (
    arith,
    v.aligned h,
    length-append box.closure_queue.queue (closure ∷ []),
    length-append box.pending_meta_queue (Ballot.init conf old_conf ∷ []),
  )

  pub follow-IsValid :
      (box : BallotBox P C) (index : ℕ)
      → IsValid P C box
      → IsValid P C (set_last_committed_index box index).box
        × (box.last_committed_index ≤ (set_last_committed_index box index).box.last_committed_index)
  unfolding set_last_committed_index
  follow-IsValid box index v = ground arith

  pop_outside :
      (box : BallotBox P C) (index : ℕ)
      → (box.closure_queue.queue ≡ []) ⊎ (index < box.closure_queue.first_index)
      → (ClosureQueue.pop_closure_until box.closure_queue index).rest ≡ box.closure_queue
  pop_outside box index h = ((pop_closure_until_lem box.closure_queue index).1 h).3

  pub pop-IsValid :
      (box : BallotBox P C) (index : ℕ)
      → IsValid P C box
      → index ≤ box.last_committed_index
      → IsValid P C (record box {
        closure_queue = (ClosureQueue.pop_closure_until box.closure_queue index).rest;
      })
  pop-IsValid box index v h = elim (Bool-cases (box.pending_index == 0)) [
    | inl a ↦ rw (pop_outside box index (inl (v.idle_closures (ground arith)))) v
    | inr a ↦ elim (Bool-cases (ltb index box.closure_queue.first_index)) [
      | inl b ↦ rw (pop_outside box index (inr (ground arith))) v
      | inr b ↦
          let p : box.pending_index ≢ 0 = ground arith in
          rw
            (pop_in_range box.closure_queue index (ground arith)
              (omega (arith, v.below p, v.aligned p)))
            (ground (
              arith,
              v.below p,
              v.aligned p,
              v.idle,
              length-drop (index + 1 - box.closure_queue.first_index) box.closure_queue.queue,
            ))
    ]
  ]
