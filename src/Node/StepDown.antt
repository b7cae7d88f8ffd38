-- ===== src/Node/StepDown.antt =====
-- `step_down`, `reset_leader_id`, `check_step_down` and `increase_term_to`. The first argument is
-- whether the write of the meta storage succeeds, should there be one.
use quorumkit.Prelude.{ℕ, Bool, false, not, ◌&&◌, List, [], ◌∷◌, map, ltb, leb, if◌then◌else◌}
use quorumkit.Errno.{Code, ok, einval, enew_leader}
use quorumkit.Peer.{PeerOrder}
use quorumkit.BallotBox
use quorumkit.Lease.Leader
use quorumkit.Node.VoteCtx
use quorumkit.Node.{
  State, Node, Effect, leader, transferring, candidate, follower, is_active_state, is_leading,
  is_follower, election_timer, vote_timer, stepdown_timer, start_timer, stop_timer, stop_grant_self,
  on_leader_stop, on_stop_following, on_start_following, run_pending, reset_conf_ctx,
  clear_append_entries_cache, interrupt_snapshot, stop_replicators, wake_next_candidate,
  cancel_transfer, ◌▸◌, emit, change, set_term_and_votedfor,
}

module _ {P C : Type 0} where
  abbrev pub become_follower : Node P C → Node P C
  become_follower n = record n { state = follower; majority_nodes_readonly = false }

module _ {P C : Type 0} ⦃o : PeerOrder P⦄ where
  -- `_ballot_box->clear_pending_tasks()`, whose closures run.
  unfoldable pub clear_box : Node P C → Node P C × List (Effect P C)
  clear_box n =
      let (box, closures) = BallotBox.clear_pending_tasks n.ballot_box in
      (record n { ballot_box = box }, map run_pending closures)

  -- What the step from each role stops.
  unfoldable pub leave_role : Code → State → Node P C → Node P C × List (Effect P C)
  unfolding clear_box
  leave_role status candidate n = (
    record n { vote_ctx = VoteCtx.reset n.vote_ctx },
    stop_timer vote_timer ∷ stop_grant_self ∷ [],
  )
  leave_role status follower n =
      (record n { pre_vote_ctx = VoteCtx.reset n.pre_vote_ctx }, stop_grant_self ∷ [])
  leave_role status leader n =
      (n, stop_timer stepdown_timer ∷ [])
      ▸ clear_box
      ▸ change (λ m. record m { leader_lease = Leader.on_leader_stop m.leader_lease })
      ▸ emit (on_leader_stop status ∷ [])
  leave_role status transferring n = (n, stop_timer stepdown_timer ∷ []) ▸ clear_box
  leave_role status s n = (n, [])

  unfoldable pub reset_leader_id : P → Code → Node P C → Node P C × List (Effect P C)
  reset_leader_id new_leader_id status n =
      if o.is_empty new_leader_id
      then (
        record n { leader_id = o.empty_peer },
        if not (o.is_empty n.leader_id) && not (is_leading n.state)
            then on_stop_following n.leader_id n.current_term status ∷ []
            else [],
      )
      else if o.is_empty n.leader_id
      then (
        record n { pre_vote_ctx = VoteCtx.reset n.pre_vote_ctx; leader_id = new_leader_id },
        stop_grant_self ∷ on_start_following new_leader_id n.current_term status ∷ [],
      )
      else (record n { leader_id = new_leader_id }, [])

  -- The part on the meta state; a write that fails is only logged.
  unfoldable pub raise_term : Bool → ℕ → Node P C → Node P C
  unfolding set_term_and_votedfor
  raise_term saved term n =
      if ltb n.current_term term
      then set_term_and_votedfor saved term o.empty_peer
          (record n { current_term = term; voted_id = o.empty_peer })
      else n

  unfoldable pub step_down : Bool → ℕ → Bool → Code → Node P C → Node P C × List (Effect P C)
  unfolding leave_role reset_leader_id raise_term
  step_down saved term wakeup_a_candidate status n =
      if not (is_active_state n.state)
      then (n, [])
      else leave_role status n.state n
        ▸ reset_leader_id o.empty_peer status
        ▸ change become_follower
        ▸ emit (reset_conf_ctx ∷ clear_append_entries_cache ∷ interrupt_snapshot term ∷ [])
        ▸ change (raise_term saved term)
        ▸ emit ((if wakeup_a_candidate then wake_next_candidate else stop_replicators) ∷ [])
        ▸ emit (if n.transfer_under_way then cancel_transfer ∷ [] else [])
        ▸ change (λ m. record m { transfer_under_way = false })
        ▸ emit (start_timer election_timer ∷ [])

  -- A higher term, a role that is not a follower's, or no leader: the node steps down.
  unfoldable pub down_for : Bool → ℕ → Node P C → Node P C × List (Effect P C)
  unfolding step_down
  down_for saved request_term n =
      if ltb n.current_term request_term
      then step_down saved request_term false enew_leader n
      else if not (is_follower n.state)
      then step_down saved request_term false enew_leader n
      else if o.is_empty n.leader_id
      then step_down saved request_term false enew_leader n
      else (n, [])

  unfoldable pub save_leader : P → Node P C → Node P C × List (Effect P C)
  unfolding reset_leader_id
  save_leader server_id n =
      if o.is_empty n.leader_id then reset_leader_id server_id enew_leader n else (n, [])

  unfoldable pub check_step_down : Bool → ℕ → P → Node P C → Node P C × List (Effect P C)
  unfolding down_for save_leader
  check_step_down saved request_term server_id n =
      down_for saved request_term n ▸ save_leader server_id

  unfoldable pub increase_term_to :
      Bool → ℕ → Code → Node P C → (Node P C × List (Effect P C)) × Code
  unfolding step_down
  increase_term_to saved new_term status n =
      if leb new_term n.current_term
      then ((n, []), einval)
      else (step_down saved new_term false status n, ok)
