-- ===== src/Node/Election.antt =====
-- The elections that a node starts: `pre_vote`, `elect_self`, `grant_self`, `become_leader`, the
-- answers to its requests and its timeouts. `pre_vote` and `elect_self` give up the mutex while
-- `last_log_id(true)` waits for the disk, so each is what stands before (`start_…`) and after
-- (`finish_…`); `Wait` is what the second part needs. A channel that cannot be opened loses the
-- request. `last_log_index` is `_log_manager->last_log_index()`, `saved` whether a write of the meta
-- storage succeeds, `enabled` FLAGS_raft_enable_leader_lease and `now` the clock.
use quorumkit.Prelude.{
  ℕ, ◌+◌, Bool, true, false, not, ◌||◌, List, [], ◌∷◌, ◌++◌, map, none, some, ◌==◌, if◌then◌else◌,
}
use quorumkit.Errno.{eraft_timed_out}
use quorumkit.Peer.{PeerOrder}
use quorumkit.LogEntry.{LogId}
use quorumkit.ConfigurationManager.{contains, list_peers}
use quorumkit.BallotBox
use quorumkit.Lease.Leader
use quorumkit.Lease.Follower
use quorumkit.Node.VoteCtx
use quorumkit.Node.VoteCtx.{VoteBallotCtx, DisruptedLeader}
use quorumkit.Node.{
  Node, Effect, leader, candidate, is_follower, election_timer, vote_timer, stepdown_timer,
  start_timer, stop_timer, stop_grant_self, start_grant_self, reset_replicators, add_replicator,
  flush_conf_ctx, send_request_vote, send_pre_vote, ◌▸◌, emit, change, set_term_and_votedfor,
}
use quorumkit.Node.StepDown.{reset_leader_id}

-- What a step that gave up the mutex does next.
pub data Wait : Type 0 where
  finished : Wait
  electing : (old_term : ℕ) → Wait
  pre_voting : (old_term : ℕ) (triggered : Bool) → Wait

module _ {P : Type 0} ⦃o : PeerOrder P⦄ where
  -- The loops over `peers` skip the node itself.
  abbrev pub others : P → List P → List P
  others self [] = []
  others self (p ∷ ps) = let rest = others self ps in if o.peer_eq p self then rest else p ∷ rest

  -- A leader without a name is not sent.
  abbrev pub named : DisruptedLeader P → DisruptedLeader P
  named none = none
  named (some (peer_id, term)) = if o.is_empty peer_id then none else some (peer_id, term)

module _ {P C : Type 0} ⦃o : PeerOrder P⦄ where
  unfoldable pub request_peers_to_vote : List P → DisruptedLeader P → Node P C → List (Effect P C)
  request_peers_to_vote peers disrupted n =
      map
        (λ p.
          send_request_vote p n.current_term n.vote_ctx.version n.vote_ctx.last_log_id
            (named disrupted))
        (others n.server_id peers)

  unfoldable pub become_leader : ℕ → Node P C → Node P C × List (Effect P C)
  become_leader last_log_index n = (
    record n {
      state = leader;
      vote_ctx = VoteCtx.reset n.vote_ctx;
      leader_id = n.server_id;
      follower_lease = Follower.reset n.follower_lease;
      leader_lease = Leader.on_leader_start n.leader_lease n.current_term;
      ballot_box = BallotBox.reset_pending_index n.ballot_box (last_log_index + 1);
    },
    stop_timer vote_timer
        ∷ stop_grant_self
        ∷ reset_replicators n.current_term
        ∷ (map add_replicator (others n.server_id (list_peers n.conf))
            ++ (flush_conf_ctx n.conf.conf n.conf.old_conf ∷ start_timer stepdown_timer ∷ [])),
  )

  -- `vote_ctx->granted()` in `grant_self` and the handler of responses.
  unfoldable pub lead_if_granted : ℕ → Node P C → Node P C × List (Effect P C)
  unfolding become_leader
  lead_if_granted last_log_index n =
      if VoteCtx.granted n.vote_ctx then become_leader last_log_index n else (n, [])

  -- `grant_self(&_vote_ctx)`
  unfoldable pub grant_self_vote : Bool → ℕ → ℕ → Node P C → Node P C × List (Effect P C)
  unfolding lead_if_granted
  grant_self_vote enabled now last_log_index n =
      let wait_ms = Follower.votable_time_from_now enabled now n.follower_lease in
      if wait_ms == 0
      then lead_if_granted last_log_index
          (record n { vote_ctx = VoteCtx.grant n.vote_ctx n.server_id })
      else (n, start_grant_self wait_ms n.vote_ctx.version ∷ [])

  abbrev pub to_candidate : Node P C → Node P C
  to_candidate n = record n {
    state = candidate;
    current_term = n.current_term + 1;
    voted_id = n.server_id;
    pre_vote_ctx = VoteCtx.reset n.pre_vote_ctx;
    vote_ctx = VoteCtx.init n.vote_ctx n.conf false;
  }

  -- The old leader has stepped down for this node.
  unfoldable pub disrupt : Bool → P → ℕ → Node P C → Node P C
  disrupt old_leader_stepped_down old_leader leader_term n =
      if old_leader_stepped_down
      then record n {
        vote_ctx = VoteCtx.set_disrupted_leader n.vote_ctx old_leader leader_term;
        follower_lease = Follower.expire n.follower_lease;
      }
      else n

  unfoldable pub start_candidate : Bool → Node P C → Node P C × List (Effect P C)
  unfolding reset_leader_id disrupt
  start_candidate old_leader_stepped_down n =
      (n, if is_follower n.state then stop_timer election_timer ∷ [] else [])
      ▸ reset_leader_id o.empty_peer eraft_timed_out
      ▸ change to_candidate
      ▸ emit (start_timer vote_timer ∷ stop_grant_self ∷ stop_grant_self ∷ [])
      ▸ change (disrupt old_leader_stepped_down n.leader_id n.current_term)

  unfoldable pub start_elect : Bool → Node P C → (Node P C × List (Effect P C)) × Wait
  unfolding start_candidate
  start_elect old_leader_stepped_down n =
      if not (contains n.conf n.server_id)
      then ((n, []), finished)
      else (start_candidate old_leader_stepped_down n, electing (n.current_term + 1))

  -- The vote for itself is written before it counts; it is taken back if it cannot be.
  unfoldable pub save_own_vote : Bool → Bool → ℕ → ℕ → Node P C → Node P C × List (Effect P C)
  unfolding grant_self_vote set_term_and_votedfor
  save_own_vote saved enabled now last_log_index n =
      if saved
      then grant_self_vote enabled now last_log_index
          (set_term_and_votedfor true n.current_term n.server_id n)
      else (record n { voted_id = o.empty_peer }, [])

  unfoldable pub finish_elect :
      Bool → Bool → ℕ → ℕ → LogId → ℕ → Node P C → Node P C × List (Effect P C)
  unfolding save_own_vote request_peers_to_vote
  finish_elect saved enabled now last_log_index last_log_id old_term n =
      let m = record n { vote_ctx = VoteCtx.set_last_log_id n.vote_ctx last_log_id } in
      if not (old_term == n.current_term)
      then (n, [])
      else (m, request_peers_to_vote (list_peers m.conf) m.vote_ctx.disrupted_leader m)
        ▸ save_own_vote saved enabled now last_log_index

  unfoldable pub start_pre_vote : Bool → Bool → Node P C → Wait
  start_pre_vote installing triggered n =
      if installing || not (contains n.conf n.server_id)
      then finished
      else pre_voting n.current_term triggered

  unfoldable pub elect_if_granted : Node P C → (Node P C × List (Effect P C)) × Wait
  unfolding start_elect
  elect_if_granted n =
      if VoteCtx.granted n.pre_vote_ctx then start_elect false n else ((n, []), finished)

  -- `grant_self(&_pre_vote_ctx)`
  unfoldable pub grant_self_pre_vote : Bool → ℕ → Node P C → (Node P C × List (Effect P C)) × Wait
  unfolding elect_if_granted
  grant_self_pre_vote enabled now n =
      let wait_ms = Follower.votable_time_from_now enabled now n.follower_lease in
      if wait_ms == 0
      then elect_if_granted (record n { pre_vote_ctx = VoteCtx.grant n.pre_vote_ctx n.server_id })
      else ((n, start_grant_self wait_ms n.pre_vote_ctx.version ∷ []), finished)

  -- The effects of a part that stood before.
  abbrev pub after_effects :
      List (Effect P C)
      → (Node P C × List (Effect P C)) × Wait
      → (Node P C × List (Effect P C)) × Wait
  after_effects es r = ((r.0.0, es ++ r.0.1), r.1)

  unfoldable pub finish_pre_vote :
      Bool → ℕ → LogId → ℕ → Bool → Node P C → (Node P C × List (Effect P C)) × Wait
  unfolding grant_self_pre_vote
  finish_pre_vote enabled now last_log_id old_term triggered n =
      let m = record n { pre_vote_ctx = VoteCtx.init n.pre_vote_ctx n.conf triggered } in
      if not (old_term == n.current_term)
      then ((n, []), finished)
      else after_effects
          (stop_grant_self
            ∷ map (λ p. send_pre_vote p (m.current_term + 1) m.pre_vote_ctx.version last_log_id)
                (others m.server_id (list_peers m.conf)))
          (grant_self_pre_vote enabled now m)
