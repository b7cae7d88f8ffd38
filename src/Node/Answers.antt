-- ===== src/Node/Answers.antt =====
-- What a node does with the answers to its requests for votes, and when its timers end an election's
-- wait. `start_pre_vote` and `start_elect` stand for the calls of `pre_vote` and `elect_self`, up to
-- the point where these give up the mutex.
use quorumkit.Prelude.{
  ℕ, ◌+◌, Bool, true, false, not, ◌&&◌, ◌||◌, List, [], ◌∷◌, ltb, ◌==◌, if◌then◌else◌, null,
}
use quorumkit.Errno.{eraft_timed_out, ehigher_term_request, ehigher_term_response}
use quorumkit.Peer.{PeerOrder}
use quorumkit.Configuration.Set
use quorumkit.Lease.Follower
use quorumkit.Node.VoteCtx
use quorumkit.Node.VoteCtx.{VoteBallotCtx}
use quorumkit.Node.{Node, Effect, is_active_state, is_follower, is_candidate, stop_grant_self, ◌▸◌}
use quorumkit.Node.StepDown.{step_down, reset_leader_id}
use quorumkit.Node.VoteRequest.{RequestVoteResponse}
use quorumkit.Node.Election.{
  Wait, finished, request_peers_to_vote, become_leader, grant_self_vote, start_elect,
  start_pre_vote, elect_if_granted, grant_self_pre_vote, after_effects,
}

module _ {P : Type 0} where
  abbrev pub note_disrupted : P → RequestVoteResponse → VoteBallotCtx P → VoteBallotCtx P
  note_disrupted peer_id response ctx =
      if response.disrupted
      then VoteCtx.set_disrupted_leader ctx peer_id response.previous_term
      else ctx

module _ {P : Type 0} ⦃o : PeerOrder P⦄ where
  -- The peers whose votes count after this answer.
  unfoldable pub counted_peers :
      P → RequestVoteResponse → VoteBallotCtx P → VoteBallotCtx P × List P
  counted_peers peer_id response ctx =
      let popped = VoteCtx.pop_grantable_peers ctx in
      if response.rejected_by_lease
      then VoteCtx.pop_grantable_peers (VoteCtx.reserve ctx peer_id)
      else (popped.0, Set.insert peer_id popped.1)

module _ {P C : Type 0} ⦃o : PeerOrder P⦄ where
  unfoldable pub retry_vote_on_reserved_peers : Node P C → Node P C × List (Effect P C)
  unfolding request_peers_to_vote
  retry_vote_on_reserved_peers n =
      let (ctx, peers) = VoteCtx.pop_grantable_peers n.vote_ctx in
      let m = record n { vote_ctx = ctx } in
      if null peers then (m, []) else (m, request_peers_to_vote peers ctx.disrupted_leader m)

  -- A vote of the last leader frees the node's own.
  unfoldable pub grant_vote : P → Node P C → Node P C × List (Effect P C)
  grant_vote peer_id n =
      let ctx = VoteCtx.grant n.vote_ctx peer_id in
      if o.peer_eq peer_id n.follower_lease.last_leader
      then (record n { vote_ctx = VoteCtx.grant ctx n.server_id }, stop_grant_self ∷ [])
      else (record n { vote_ctx = ctx }, [])

  unfoldable pub lead_or_retry : ℕ → Node P C → Node P C × List (Effect P C)
  unfolding become_leader retry_vote_on_reserved_peers
  lead_or_retry last_log_index n =
      if VoteCtx.granted n.vote_ctx
      then become_leader last_log_index n
      else retry_vote_on_reserved_peers n

  unfoldable pub count_vote : ℕ → P → RequestVoteResponse → Node P C → Node P C × List (Effect P C)
  unfolding grant_vote lead_or_retry
  count_vote last_log_index peer_id response n =
      if response.granted
      then grant_vote peer_id n ▸ lead_or_retry last_log_index
      else retry_vote_on_reserved_peers (record n { vote_ctx = VoteCtx.reserve n.vote_ctx peer_id })

  unfoldable pub accept_vote_response :
      Bool → ℕ → P → RequestVoteResponse → Node P C → Node P C × List (Effect P C)
  unfolding step_down count_vote
  accept_vote_response saved last_log_index peer_id response n =
      if ltb n.current_term response.term
      then step_down saved response.term false ehigher_term_response n
      else if not response.granted && not response.rejected_by_lease
      then (n, [])
      else count_vote last_log_index peer_id response
          (record n { vote_ctx = note_disrupted peer_id response n.vote_ctx })

  unfoldable pub handle_request_vote_response :
      Bool → ℕ → P → ℕ → ℕ → RequestVoteResponse → Node P C → Node P C × List (Effect P C)
  unfolding accept_vote_response
  handle_request_vote_response saved last_log_index peer_id term ctx_version response n =
      if not (ctx_version == n.vote_ctx.version)
        || not (is_candidate n.state)
        || not (term == n.current_term)
      then (n, [])
      else accept_vote_response saved last_log_index peer_id response n

  -- The loop over the peers whose votes count now.
  unfoldable pub grant_pre_votes : List P → Node P C → Node P C × List (Effect P C)
  grant_pre_votes [] n = (n, [])
  grant_pre_votes (p ∷ ps) n =
      let ctx = VoteCtx.grant n.pre_vote_ctx p in
      let m = record n { pre_vote_ctx = ctx } in
      let own = record n { pre_vote_ctx = VoteCtx.grant ctx n.server_id } in
      let plain = grant_pre_votes ps m in
      let both = (own, stop_grant_self ∷ []) ▸ grant_pre_votes ps in
      if o.peer_eq p n.follower_lease.last_leader then both else plain

  unfoldable pub count_pre_vote :
      P → RequestVoteResponse → Node P C → (Node P C × List (Effect P C)) × Wait
  unfolding grant_pre_votes counted_peers elect_if_granted
  count_pre_vote peer_id response n =
      let (ctx, peers) =
        counted_peers peer_id response (note_disrupted peer_id response n.pre_vote_ctx) in
      let voted = grant_pre_votes peers (record n { pre_vote_ctx = ctx }) in
      after_effects voted.1 (elect_if_granted voted.0)

  unfoldable pub accept_pre_vote_response :
      Bool → P → RequestVoteResponse → Node P C → (Node P C × List (Effect P C)) × Wait
  unfolding step_down count_pre_vote
  accept_pre_vote_response saved peer_id response n =
      if ltb n.current_term response.term
      then (step_down saved response.term false ehigher_term_response n, finished)
      else if not response.granted && not response.rejected_by_lease
      then ((n, []), finished)
      else if response.rejected_by_lease && not n.pre_vote_ctx.triggered
      then ((n, []), finished)
      else count_pre_vote peer_id response n

  unfoldable pub handle_pre_vote_response :
      Bool → P → ℕ → ℕ → RequestVoteResponse → Node P C → (Node P C × List (Effect P C)) × Wait
  unfolding accept_pre_vote_response
  handle_pre_vote_response saved peer_id term ctx_version response n =
      if not (ctx_version == n.pre_vote_ctx.version)
        || not (is_follower n.state)
        || not (term == n.current_term)
      then ((n, []), finished)
      else accept_pre_vote_response saved peer_id response n

  -- The timer that waits for the lease to end before the node counts its own vote.
  unfoldable pub grant_vote_timedout : Bool → ℕ → ℕ → ℕ → Node P C → Node P C × List (Effect P C)
  unfolding grant_self_vote
  grant_vote_timedout enabled now last_log_index ctx_version n =
      if not (is_active_state n.state) || not (n.vote_ctx.version == ctx_version)
      then (n, [])
      else grant_self_vote enabled now last_log_index n

  unfoldable pub grant_pre_vote_timedout :
      Bool → ℕ → ℕ → Node P C → (Node P C × List (Effect P C)) × Wait
  unfolding grant_self_pre_vote
  grant_pre_vote_timedout enabled now ctx_version n =
      if not (is_active_state n.state) || not (n.pre_vote_ctx.version == ctx_version)
      then ((n, []), finished)
      else grant_self_pre_vote enabled now n

  -- `steps_down` is FLAGS_raft_step_down_when_vote_timedout, `installing` whether a snapshot is being
  -- installed.
  unfoldable pub handle_vote_timeout :
      Bool → Bool → Bool → Node P C → (Node P C × List (Effect P C)) × Wait
  unfolding step_down start_elect start_pre_vote
  handle_vote_timeout saved steps_down installing n =
      let down = step_down saved n.current_term false eraft_timed_out n in
      if not (is_candidate n.state)
      then ((n, []), finished)
      else if steps_down
      then (down, start_pre_vote installing false down.0)
      else start_elect false n

  unfoldable pub handle_election_timeout :
      ℕ → Bool → Node P C → (Node P C × List (Effect P C)) × Wait
  unfolding reset_leader_id start_pre_vote
  handle_election_timeout now installing n =
      let m = reset_leader_id o.empty_peer eraft_timed_out (record n { vote_triggered = false }) in
      if not (is_follower n.state)
      then ((n, []), finished)
      else if not n.vote_triggered && not (Follower.is_expired now n.follower_lease)
      then ((n, []), finished)
      else (m, start_pre_vote installing n.vote_triggered m.0)

  -- What the response says: the term, and whether the node starts an election.
  unfoldable pub handle_timeout_now_request :
      Bool → Bool → ℕ → Bool → Node P C → ((Node P C × List (Effect P C)) × Wait) × (ℕ × Bool)
  unfolding step_down start_elect
  handle_timeout_now_request saved enabled request_term old_leader_stepped_down n =
      let down = step_down saved request_term false ehigher_term_request n in
      if ltb n.current_term request_term
      then ((down, finished), (down.0.current_term, false))
      else if not (request_term == n.current_term) || not (is_follower n.state)
      then (((n, []), finished), (n.current_term, false))
      else (
        start_elect old_leader_stepped_down n,
        (if enabled then n.current_term else n.current_term + 1, true),
      )
