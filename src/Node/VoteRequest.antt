-- ===== src/Node/VoteRequest.antt =====
-- `handle_pre_vote_request` and `handle_request_vote_request`. Each gives up the mutex while
-- `last_log_id(true)` waits for the disk, so it is what stands before (`begin_…`) and after
-- (`end_…`). `parse` is the parser of a peer's name.
use quorumkit.Prelude.{
  ℕ, Bool, false, not, ◌&&◌, List, [], Option, none, some, ltb, ◌==◌, if◌then◌else◌,
}
use quorumkit.Errno.{Code, einval, ehigher_term_request, evote_for_candidate}
use quorumkit.Peer.{PeerOrder}
use quorumkit.LogEntry.{LogId, id_ge}
use quorumkit.Lease.Follower
use quorumkit.Node.{
  Node, Effect, is_active_state, is_leading, is_follower, is_leader, ◌▸◌, change,
  set_term_and_votedfor,
}
use quorumkit.Node.StepDown.{step_down}

-- The message, with the names `S` that are still to be parsed.
pub record RequestVoteRequest (S : Type 0) : Type 0 where
  pub server_id : S
  pub term : ℕ
  pub last_log_id : LogId
  pub disrupted_leader : Option (S × ℕ)

pub record RequestVoteResponse : Type 0 where
  pub term : ℕ
  pub granted : Bool
  pub disrupted : Bool
  pub previous_term : ℕ
  pub rejected_by_lease : Bool

-- A handler's first part ends the call, or leaves what the second needs.
pub data Begun (A : Type 0) : Type 0 where
  refused : Code → Begun A
  answered : RequestVoteResponse → Begun A
  waiting : A → Begun A

-- `candidate_id` and `previous_term`
pub record Pending (P : Type 0) : Type 0 where
  pub candidate_id : P
  pub previous_term : ℕ

module _ {P C : Type 0} where
  unfoldable pub pre_vote_response : Node P C → Bool → Bool → RequestVoteResponse
  pre_vote_response n granted rejected_by_lease = record {
    term = n.current_term;
    granted = granted;
    disrupted = is_leader n.state;
    previous_term = n.current_term;
    rejected_by_lease = rejected_by_lease;
  }

module _ {P C S : Type 0} where
  begin_parsed : Option P → RequestVoteRequest S → Node P C → Begun (Pending P)
  unfolding pre_vote_response
  begin_parsed none request n = refused einval
  begin_parsed (some candidate_id) request n =
      if ltb request.term n.current_term
      then answered (pre_vote_response n false false)
      else waiting (record { candidate_id = candidate_id; previous_term = n.current_term })

  unfoldable pub begin_pre_vote :
      (S → Option P) → RequestVoteRequest S → Node P C → Begun (Pending P)
  unfolding begin_parsed
  begin_pre_vote parse request n =
      if not (is_active_state n.state)
      then refused einval
      else begin_parsed (parse request.server_id) request n

  -- `enabled` is FLAGS_raft_enable_leader_lease, `now` the clock.
  unfoldable pub end_pre_vote :
      Bool → ℕ → LogId → RequestVoteRequest S → Node P C → RequestVoteResponse
  unfolding pre_vote_response
  end_pre_vote enabled now last_log_id request n =
      let votable_time = Follower.votable_time_from_now enabled now n.follower_lease in
      let grantable = id_ge request.last_log_id last_log_id in
      pre_vote_response n (grantable && votable_time == 0) (grantable && ltb 0 votable_time)

module _ {P : Type 0} ⦃o : PeerOrder P⦄ where
  is_disrupted : Option P → P → Bool
  is_disrupted none leader_id = false
  is_disrupted (some p) leader_id = o.peer_eq leader_id p

module _ {P C S : Type 0} ⦃o : PeerOrder P⦄ where
  -- The test for a leader that the candidate has disrupted.
  unfoldable pub disrupts : (S → Option P) → Option (S × ℕ) → Node P C → Bool
  unfolding is_disrupted
  disrupts parse none n = false
  disrupts parse (some (peer_id, term)) n =
      is_follower n.state && n.current_term == term && is_disrupted (parse peer_id) n.leader_id

  unfoldable pub expire_disrupted : (S → Option P) → RequestVoteRequest S → Node P C → Node P C
  unfolding disrupts
  expire_disrupted parse request n =
      if disrupts parse request.disrupted_leader n
      then record n { follower_lease = Follower.expire n.follower_lease }
      else n

  unfoldable pub response_to :
      P → RequestVoteRequest S → Bool → ℕ → Bool → Node P C → RequestVoteResponse
  response_to candidate_id request disrupted previous_term rejected_by_lease n = record {
    term = n.current_term;
    granted = request.term == n.current_term && o.peer_eq n.voted_id candidate_id;
    disrupted = disrupted;
    previous_term = previous_term;
    rejected_by_lease = rejected_by_lease;
  }

  unfoldable pub begin_vote_parsed :
      (S → Option P) → Option P → RequestVoteRequest S → Node P C → Node P C × Begun (Pending P)
  unfolding expire_disrupted response_to
  begin_vote_parsed parse none request n = (n, refused einval)
  begin_vote_parsed parse (some candidate_id) request n =
      let m = expire_disrupted parse request n in
      if ltb request.term m.current_term
      then (m, answered (response_to candidate_id request false m.current_term false m))
      else (m, waiting (record { candidate_id = candidate_id; previous_term = m.current_term }))

  unfoldable pub begin_request_vote :
      (S → Option P) → RequestVoteRequest S → Node P C → Node P C × Begun (Pending P)
  unfolding begin_vote_parsed
  begin_request_vote parse request n =
      if not (is_active_state n.state)
      then (n, refused einval)
      else begin_vote_parsed parse (parse request.server_id) request n

module _ {P C : Type 0} ⦃o : PeerOrder P⦄ where
  -- The vote is taken back if it cannot be written.
  unfoldable pub save_vote : Bool → P → Node P C → Node P C
  unfolding set_term_and_votedfor
  save_vote saved candidate_id n =
      if saved
      then set_term_and_votedfor saved n.current_term candidate_id
          (record n { voted_id = candidate_id })
      else record n { voted_id = o.empty_peer }

  -- A higher term is taken over.
  unfoldable pub adopt_term : Bool → ℕ → Node P C → Node P C × List (Effect P C)
  unfolding step_down
  adopt_term saved term n =
      if ltb n.current_term term then step_down saved term false ehigher_term_request n else (n, [])

  -- The vote is cast if the candidate's log is good enough and there is none in the term.
  unfoldable pub vote_for : Bool → Bool → Bool → P → ℕ → Node P C → Node P C × List (Effect P C)
  unfolding save_vote step_down
  vote_for saved_term saved_vote log_is_ok candidate_id term n =
      if log_is_ok && o.is_empty n.voted_id
      then step_down saved_term term false evote_for_candidate n
        ▸ change (save_vote saved_vote candidate_id)
      else (n, [])

  -- The part after the check of the lease.
  unfoldable pub cast_vote : Bool → Bool → Bool → P → ℕ → Node P C → Node P C × List (Effect P C)
  unfolding adopt_term vote_for
  cast_vote saved_term saved_vote log_is_ok candidate_id term n =
      adopt_term saved_term term n ▸ vote_for saved_term saved_vote log_is_ok candidate_id term

module _ {P C S : Type 0} ⦃o : PeerOrder P⦄ where
  unfoldable pub end_request_vote :
      Bool
      → Bool
      → Bool
      → ℕ
      → LogId
      → Pending P
      → RequestVoteRequest S
      → Node P C
      → (Node P C × List (Effect P C)) × RequestVoteResponse
  unfolding cast_vote response_to
  end_request_vote saved_term saved_vote enabled now last_log_id pending request n =
      let c = pending.candidate_id in
      let log_is_ok = id_ge request.last_log_id last_log_id in
      let votable_time = Follower.votable_time_from_now enabled now n.follower_lease in
      let disrupted = ltb n.current_term request.term && is_leading n.state in
      let voted = cast_vote saved_term saved_vote log_is_ok c request.term n in
      if not (pending.previous_term == n.current_term)
      then ((n, []), response_to c request false pending.previous_term false n)
      else if ltb 0 votable_time
      then ((n, []), response_to c request false pending.previous_term log_is_ok n)
      else (voted, response_to c request disrupted pending.previous_term false voted.0)
