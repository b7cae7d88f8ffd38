-- ===== src/Node/Same.antt =====
-- What `step_down` and its parts do to the term, the vote, the stored vote and the follower lease.
use quorumkit.Prelude.{ℕ, ◌≡◌, refl, ◌∙◌, inl, inr, Bool, true, arith, Bool-cases}
use quorumkit.Errno.{Code}
use quorumkit.Peer.{PeerOrder}
use quorumkit.Node.{
  State, Node, leader, transferring, candidate, follower, in_error, uninitialized, shutting,
  shut_down, is_active_state, set_term_and_votedfor,
}
use quorumkit.Node.StepDown.{
  clear_box, leave_role, become_follower, reset_leader_id, raise_term, step_down,
}

module _ {P C : Type 0} ⦃o : PeerOrder P⦄ where
  -- The parts of the state that decide a vote.
  pub record Same (n m : Node P C) : Type 0 where
    pub term_eq : m.current_term ≡ n.current_term
    pub voted_eq : m.voted_id ≡ n.voted_id
    pub meta_eq : m.meta ≡ n.meta
    pub lease_eq : m.follower_lease ≡ n.follower_lease

  same : {n : Node P C} → Same n n
  same = record { term_eq = refl; voted_eq = refl; meta_eq = refl; lease_eq = refl }

  Same-trans : {n m k : Node P C} → Same n m → Same m k → Same n k
  Same-trans a b = record {
    term_eq = b.term_eq ∙ a.term_eq;
    voted_eq = b.voted_eq ∙ a.voted_eq;
    meta_eq = b.meta_eq ∙ a.meta_eq;
    lease_eq = b.lease_eq ∙ a.lease_eq;
  }

  leave_role-Same : (status : Code) (s : State) (n : Node P C) → Same n (leave_role status s n).0
  unfolding leave_role clear_box
  leave_role-Same status leader n = record {
    term_eq = refl;
    voted_eq = refl;
    meta_eq = refl;
    lease_eq = refl;
  }
  leave_role-Same status transferring n = record {
    term_eq = refl;
    voted_eq = refl;
    meta_eq = refl;
    lease_eq = refl;
  }
  leave_role-Same status candidate n = record {
    term_eq = refl;
    voted_eq = refl;
    meta_eq = refl;
    lease_eq = refl;
  }
  leave_role-Same status follower n = record {
    term_eq = refl;
    voted_eq = refl;
    meta_eq = refl;
    lease_eq = refl;
  }
  leave_role-Same status in_error n = same
  leave_role-Same status uninitialized n = same
  leave_role-Same status shutting n = same
  leave_role-Same status shut_down n = same

  pub reset_leader_id-Same :
      (p : P) (status : Code) (n : Node P C) → Same n (reset_leader_id p status n).0
  unfolding reset_leader_id
  reset_leader_id-Same p status n = elim (Bool-cases (o.is_empty p)) [
    | inl h ↦
        rw (reset_leader_id, h)
          (record { term_eq = refl; voted_eq = refl; meta_eq = refl; lease_eq = refl })
    | inr h ↦ elim (Bool-cases (o.is_empty n.leader_id)) [
      | inl k ↦
          rw (reset_leader_id, h, k)
            (record { term_eq = refl; voted_eq = refl; meta_eq = refl; lease_eq = refl })
      | inr k ↦
          rw (reset_leader_id, h, k)
            (record { term_eq = refl; voted_eq = refl; meta_eq = refl; lease_eq = refl })
    ]
  ]

  raise_term-Same :
      (saved : Bool) (term : ℕ) (n m : Node P C)
      → Same n m
      → Same (raise_term saved term n) (raise_term saved term m)
  unfolding raise_term set_term_and_votedfor
  raise_term-Same saved term n m s = record {
    term_eq = ground (arith, s.term_eq);
    voted_eq = ground (arith, s.term_eq, s.voted_eq);
    meta_eq = ground (arith, s.term_eq, s.meta_eq);
    lease_eq = ground (arith, s.term_eq, s.lease_eq);
  }

  -- A step down by an active node does to the vote what the raise of the term does.
  pub step_down-Same :
      (saved : Bool) (term : ℕ) (wakeup : Bool) (status : Code) (n : Node P C)
      → is_active_state n.state ≡ true
      → Same (raise_term saved term n) (step_down saved term wakeup status n).0
  unfolding step_down
  step_down-Same saved term wakeup status n h =
      let left = leave_role-Same status n.state n in
      let reset = reset_leader_id-Same o.empty_peer status (leave_role status n.state n).0 in
      let m = (reset_leader_id o.empty_peer status (leave_role status n.state n).0).0 in
      let both : Same n (become_follower m) = record {
        term_eq = reset.term_eq ∙ left.term_eq;
        voted_eq = reset.voted_eq ∙ left.voted_eq;
        meta_eq = reset.meta_eq ∙ left.meta_eq;
        lease_eq = reset.lease_eq ∙ left.lease_eq;
      } in
      let raised = raise_term-Same saved term n (become_follower m) both in
      rw h (record {
        term_eq = raised.term_eq;
        voted_eq = raised.voted_eq;
        meta_eq = raised.meta_eq;
        lease_eq = raised.lease_eq;
      })
