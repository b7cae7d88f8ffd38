-- ===== src/Node/Responses.antt =====
-- What the answers to a node's requests for votes do to its term and vote.
use quorumkit.Prelude.{ℕ, refl, inl, inr, Bool, false, not, ◌&&◌, ◌||◌, ltb, ◌==◌, null, Bool-cases}
use quorumkit.Errno.{ehigher_term_response}
use quorumkit.Peer.{PeerOrder}
use quorumkit.Node.VoteCtx
use quorumkit.Node.{Node, is_candidate}
use quorumkit.Node.VoteRequest.{RequestVoteResponse}
use quorumkit.Node.Answers.{
  retry_vote_on_reserved_peers, grant_vote, lead_or_retry, note_disrupted, count_vote,
  accept_vote_response, handle_request_vote_response,
}
use quorumkit.Node.Quorum.{
  Quiet, Turns, Quiet-Turns, stays, rests, become_leader-Turns, step_down-Turns,
}

module _ {P C : Type 0} ⦃o : PeerOrder P⦄ where
  retry-Quiet : (n : Node P C) → Quiet n (retry_vote_on_reserved_peers n).0
  unfolding retry_vote_on_reserved_peers
  retry-Quiet n = elim (Bool-cases (null (VoteCtx.pop_grantable_peers n.vote_ctx).1)) [
    | inl h ↦
        rw (retry_vote_on_reserved_peers, h)
          (record { state_eq = refl; term_eq = refl; voted_eq = refl; server_eq = refl })
    | inr h ↦
        rw (retry_vote_on_reserved_peers, h)
          (record { state_eq = refl; term_eq = refl; voted_eq = refl; server_eq = refl })
  ]

  grant_vote-Quiet : (p : P) (n : Node P C) → Quiet n (grant_vote p n).0
  unfolding grant_vote
  grant_vote-Quiet p n = elim (Bool-cases (o.peer_eq p n.follower_lease.last_leader)) [
    | inl h ↦
        rw (grant_vote, h)
          (record { state_eq = refl; term_eq = refl; voted_eq = refl; server_eq = refl })
    | inr h ↦
        rw (grant_vote, h)
          (record { state_eq = refl; term_eq = refl; voted_eq = refl; server_eq = refl })
  ]

  pub lead_or_retry-Turns :
      (last_log_index : ℕ) (n : Node P C) → Turns n (lead_or_retry last_log_index n).0
  unfolding lead_or_retry
  lead_or_retry-Turns last_log_index n = elim (Bool-cases (VoteCtx.granted n.vote_ctx)) [
    | inl g ↦ rw (lead_or_retry, g) (become_leader-Turns last_log_index n g)
    | inr g ↦ rw (lead_or_retry, g) (rests n (retry_vote_on_reserved_peers n).0 (retry-Quiet n))
  ]

  pub count_vote-Turns :
      (last_log_index : ℕ) (p : P) (response : RequestVoteResponse) (n : Node P C)
      → Turns n (count_vote last_log_index p response n).0
  unfolding count_vote
  count_vote-Turns last_log_index p response n = elim (Bool-cases response.granted) [
    | inl g ↦
        rw (count_vote, g)
          (Quiet-Turns n (grant_vote p n).0 (lead_or_retry last_log_index (grant_vote p n).0).0
            (grant_vote-Quiet p n) (lead_or_retry-Turns last_log_index (grant_vote p n).0))
    | inr g ↦
        let m : Node P C = record n { vote_ctx = VoteCtx.reserve n.vote_ctx p } in
        rw (count_vote, g)
          (Quiet-Turns n m (retry_vote_on_reserved_peers m).0
            (record { state_eq = refl; term_eq = refl; voted_eq = refl; server_eq = refl })
            (rests m (retry_vote_on_reserved_peers m).0 (retry-Quiet m)))
  ]

  pub accept_vote_response-Turns :
      (saved : Bool) (last_log_index : ℕ) (p : P) (response : RequestVoteResponse) (n : Node P C)
      → Turns n (accept_vote_response saved last_log_index p response n).0
  unfolding accept_vote_response
  accept_vote_response-Turns saved last_log_index p response n =
      let m : Node P C = record n { vote_ctx = note_disrupted p response n.vote_ctx } in
      elim (Bool-cases (ltb n.current_term response.term)) [
        | inl t ↦
            rw (accept_vote_response, t)
              (step_down-Turns saved response.term false ehigher_term_response n)
        | inr t ↦ elim (Bool-cases (not response.granted && not response.rejected_by_lease)) [
          | inl g ↦ rw (accept_vote_response, t, g) (stays n)
          | inr g ↦
              rw (accept_vote_response, t, g)
                (Quiet-Turns n m (count_vote last_log_index p response m).0
                  (record { state_eq = refl; term_eq = refl; voted_eq = refl; server_eq = refl })
                  (count_vote-Turns last_log_index p response m))
        ]
      ]

  pub handle_request_vote_response-Turns :
      (saved : Bool) (last_log_index : ℕ) (p : P) (term version : ℕ)
      (response : RequestVoteResponse) (n : Node P C)
      → Turns n (handle_request_vote_response saved last_log_index p term version response n).0
  unfolding handle_request_vote_response
  handle_request_vote_response-Turns saved last_log_index p term version response n =
      elim (Bool-cases (
        not (version == n.vote_ctx.version)
        || not (is_candidate n.state)
        || not (term == n.current_term))) [
          | inl h ↦ rw (handle_request_vote_response, h) (stays n)
          | inr h ↦
              rw (handle_request_vote_response, h)
                (accept_vote_response-Turns saved last_log_index p response n)
        ]
