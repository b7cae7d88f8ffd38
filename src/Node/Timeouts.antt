-- ===== src/Node/Timeouts.antt =====
-- What the timers of an election and the answers to pre-votes do to the term and vote of a node.
use quorumkit.Prelude.{
  ℕ, refl, inl, inr, Bool, false, not, ◌&&◌, ◌||◌, List, [], ◌∷◌, ltb, ◌==◌, Bool-cases,
}
use quorumkit.Errno.{ehigher_term_request, ehigher_term_response, eraft_timed_out}
use quorumkit.Peer.{PeerOrder}
use quorumkit.Lease.Follower
use quorumkit.Node.VoteCtx
use quorumkit.Node.{Node, is_active_state, is_follower, is_candidate}
use quorumkit.Node.StepDown.{reset_leader_id}
use quorumkit.Node.VoteRequest.{RequestVoteResponse}
use quorumkit.Node.Election.{elect_if_granted}
use quorumkit.Node.Answers.{
  note_disrupted, grant_pre_votes, counted_peers, count_pre_vote, accept_pre_vote_response,
  handle_pre_vote_response, grant_vote_timedout, grant_pre_vote_timedout, handle_vote_timeout,
  handle_election_timeout, handle_timeout_now_request,
}
use quorumkit.Node.Quorum.{
  Quiet, Turns, quiet, Quiet-Turns, stays, rests, grant_self_vote-Turns, step_down-Turns,
  start_elect-Turns, elect_if_granted-Turns, grant_self_pre_vote-Turns, reset_leader_id-Quiet,
}

module _ {P C : Type 0} ⦃o : PeerOrder P⦄ where
  pub grant_vote_timedout-Turns :
      (enabled : Bool) (now last_log_index version : ℕ) (n : Node P C)
      → Turns n (grant_vote_timedout enabled now last_log_index version n).0
  unfolding grant_vote_timedout
  grant_vote_timedout-Turns enabled now last_log_index version n =
      elim (Bool-cases (not (is_active_state n.state) || not (n.vote_ctx.version == version))) [
        | inl h ↦ rw (grant_vote_timedout, h) (stays n)
        | inr h ↦ rw (grant_vote_timedout, h) (grant_self_vote-Turns enabled now last_log_index n)
      ]

  pub grant_pre_vote_timedout-Turns :
      (enabled : Bool) (now version : ℕ) (n : Node P C)
      → Turns n (grant_pre_vote_timedout enabled now version n).0.0
  unfolding grant_pre_vote_timedout
  grant_pre_vote_timedout-Turns enabled now version n =
      elim (Bool-cases (not (is_active_state n.state) || not (n.pre_vote_ctx.version == version))) [
        | inl h ↦ rw (grant_pre_vote_timedout, h) (stays n)
        | inr h ↦ rw (grant_pre_vote_timedout, h) (grant_self_pre_vote-Turns enabled now n)
      ]

  grant_pre_votes-Quiet : (ps : List P) (n : Node P C) → Quiet n (grant_pre_votes ps n).0
  unfolding grant_pre_votes
  grant_pre_votes-Quiet [] n = quiet n
  grant_pre_votes-Quiet (p ∷ ps) n =
      let ctx = VoteCtx.grant n.pre_vote_ctx p in
      elim (Bool-cases (o.peer_eq p n.follower_lease.last_leader)) [
        | inl h ↦
            let q =
              grant_pre_votes-Quiet ps
                (record n { pre_vote_ctx = VoteCtx.grant ctx n.server_id }) in
            rw h (record {
              state_eq = q.state_eq;
              term_eq = q.term_eq;
              voted_eq = q.voted_eq;
              server_eq = q.server_eq;
            })
        | inr h ↦
            let q = grant_pre_votes-Quiet ps (record n { pre_vote_ctx = ctx }) in
            rw h (record {
              state_eq = q.state_eq;
              term_eq = q.term_eq;
              voted_eq = q.voted_eq;
              server_eq = q.server_eq;
            })
      ]

  pub count_pre_vote-Turns :
      (p : P) (response : RequestVoteResponse) (n : Node P C)
      → Turns n (count_pre_vote p response n).0.0
  unfolding count_pre_vote
  count_pre_vote-Turns p response n =
      let counted = counted_peers p response (note_disrupted p response n.pre_vote_ctx) in
      let m : Node P C = record n { pre_vote_ctx = counted.0 } in
      let voted = (grant_pre_votes counted.1 m).0 in
      Quiet-Turns n m (elect_if_granted voted).0.0
        (record { state_eq = refl; term_eq = refl; voted_eq = refl; server_eq = refl })
        (Quiet-Turns m voted (elect_if_granted voted).0.0 (grant_pre_votes-Quiet counted.1 m)
          (elect_if_granted-Turns voted))

  pub accept_pre_vote_response-Turns :
      (saved : Bool) (p : P) (response : RequestVoteResponse) (n : Node P C)
      → Turns n (accept_pre_vote_response saved p response n).0.0
  unfolding accept_pre_vote_response
  accept_pre_vote_response-Turns saved p response n =
      elim (Bool-cases (ltb n.current_term response.term)) [
        | inl t ↦
            rw (accept_pre_vote_response, t)
              (step_down-Turns saved response.term false ehigher_term_response n)
        | inr t ↦ elim (Bool-cases (not response.granted && not response.rejected_by_lease)) [
          | inl g ↦ rw (accept_pre_vote_response, t, g) (stays n)
          | inr g ↦ elim (Bool-cases (response.rejected_by_lease && not n.pre_vote_ctx.triggered)) [
            | inl r ↦ rw (accept_pre_vote_response, t, g, r) (stays n)
            | inr r ↦ rw (accept_pre_vote_response, t, g, r) (count_pre_vote-Turns p response n)
          ]
        ]
      ]

  pub handle_pre_vote_response-Turns :
      (saved : Bool) (p : P) (term version : ℕ) (response : RequestVoteResponse) (n : Node P C)
      → Turns n (handle_pre_vote_response saved p term version response n).0.0
  unfolding handle_pre_vote_response
  handle_pre_vote_response-Turns saved p term version response n =
      elim (Bool-cases (
        not (version == n.pre_vote_ctx.version)
        || not (is_follower n.state)
        || not (term == n.current_term))) [
          | inl h ↦ rw (handle_pre_vote_response, h) (stays n)
          | inr h ↦
              rw (handle_pre_vote_response, h) (accept_pre_vote_response-Turns saved p response n)
        ]

  pub handle_vote_timeout-Turns :
      (saved steps_down installing : Bool) (n : Node P C)
      → Turns n (handle_vote_timeout saved steps_down installing n).0.0
  unfolding handle_vote_timeout
  handle_vote_timeout-Turns saved steps_down installing n =
      elim (Bool-cases (is_candidate n.state)) [
        | inr c ↦ rw (handle_vote_timeout, c) (stays n)
        | inl c ↦ elim (Bool-cases steps_down) [
          | inl d ↦
              rw (handle_vote_timeout, c, d)
                (step_down-Turns saved n.current_term false eraft_timed_out n)
          | inr d ↦ rw (handle_vote_timeout, c, d) (start_elect-Turns false n)
        ]
      ]

  pub handle_election_timeout-Turns :
      (now : ℕ) (installing : Bool) (n : Node P C)
      → Turns n (handle_election_timeout now installing n).0.0
  unfolding handle_election_timeout
  handle_election_timeout-Turns now installing n =
      let m : Node P C = record n { vote_triggered = false } in
      let k = (reset_leader_id o.empty_peer eraft_timed_out m).0 in
      elim (Bool-cases (is_follower n.state)) [
        | inr c ↦ rw (handle_election_timeout, c) (stays n)
        | inl c ↦
            elim (Bool-cases
              (not n.vote_triggered && not (Follower.is_expired now n.follower_lease))) [
                | inl d ↦ rw (handle_election_timeout, c, d) (stays n)
                | inr d ↦
                    rw (handle_election_timeout, c, d)
                      (Quiet-Turns n m k
                        (record {
                          state_eq = refl;
                          term_eq = refl;
                          voted_eq = refl;
                          server_eq = refl;
                        })
                        (rests m k (reset_leader_id-Quiet o.empty_peer eraft_timed_out m)))
              ]
      ]

  pub handle_timeout_now_request-Turns :
      (saved enabled : Bool) (request_term : ℕ) (stepped_down : Bool) (n : Node P C)
      → Turns n (handle_timeout_now_request saved enabled request_term stepped_down n).0.0.0
  unfolding handle_timeout_now_request
  handle_timeout_now_request-Turns saved enabled request_term stepped_down n =
      elim (Bool-cases (ltb n.current_term request_term)) [
        | inl t ↦
            rw (handle_timeout_now_request, t)
              (step_down-Turns saved request_term false ehigher_term_request n)
        | inr t ↦
            elim (Bool-cases (not (request_term == n.current_term) || not (is_follower n.state))) [
              | inl h ↦ rw (handle_timeout_now_request, t, h) (stays n)
              | inr h ↦ rw (handle_timeout_now_request, t, h) (start_elect-Turns stepped_down n)
            ]
      ]
