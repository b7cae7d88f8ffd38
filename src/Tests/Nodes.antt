-- ===== src/Tests/Nodes.antt =====
-- A follower that is asked for votes.
use quorumkit.Prelude.{zero, suc, ℕ, ◌≡◌, ◌≤◌, Bool, ◌⊎◌, refl, true, false, [], ◌==◌, none}
use quorumkit.LogEntry.{LogId, no_id, id_ge}
use quorumkit.Ballot.{empty_ballot}
use quorumkit.BallotBox.{new_box}
use quorumkit.Lease.Leader.{new_lease}
use quorumkit.Lease.Follower.{votable_time_from_now}
use quorumkit.Node.{Node, follower, is_active_state, is_leader}
use quorumkit.Node.StepDown.{check_step_down}
use quorumkit.Node.VoteCtx.{VoteBallotCtx}
use quorumkit.Node.VoteRequest.{RequestVoteRequest, RequestVoteResponse, Pending, end_request_vote}
use quorumkit.Node.OneVote.{Keeps}
use quorumkit.Node.Steps.{Run, halt, next, ends_vote, done, does, fails, Runs-Keeps}
use quorumkit.Node.Election.{start_elect, finish_elect}
use quorumkit.Node.Answers.{handle_request_vote_response}
use quorumkit.Node.Grant.{NewVote, granted_vote_lem, one_vote_per_term, own_vote_lem}
use quorumkit.Tests.{number_peer, three}

abbrev idle_ctx : VoteBallotCtx ℕ
idle_ctx = record {
  ballot = empty_ballot;
  version = 0;
  triggered = false;
  reserved_peers = [];
  disrupted_leader = none;
  last_log_id = no_id;
}

-- A follower of term 3 without a vote, whose lease is long over.
abbrev pub voter : Node ℕ ℕ
voter = record {
  state = follower;
  current_term = 3;
  leader_id = 2;
  voted_id = 0;
  server_id = 1;
  conf = record { id = no_id; conf = three; old_conf = [] };
  vote_ctx = idle_ctx;
  pre_vote_ctx = idle_ctx;
  ballot_box = new_box;
  leader_lease = new_lease;
  follower_lease = record {
    election_timeout_ms = 100;
    max_clock_drift_ms = 10;
    last_leader = 2;
    last_leader_timestamp = 50;
  };
  majority_nodes_readonly = false;
  transfer_under_way = false;
  vote_triggered = false;
  meta = record { term = 3; votedfor = 0 };
}

abbrev pub last_id : LogId
last_id = record { index = 7; term = 2 }

-- Peer 3 asks in term 4.
abbrev request : RequestVoteRequest ℕ
request = record {
  server_id = 3;
  term = 4;
  last_log_id = record { index = 8; term = 2 };
  disrupted_leader = none;
}

abbrev pending : Pending ℕ
pending = record { candidate_id = 3; previous_term = 3 }

abbrev pending_again : Pending ℕ
pending_again = record { candidate_id = 3; previous_term = 4 }

vote_granted : (end_request_vote true true true 900 last_id pending request voter).1.granted ≡ true
unfolding end_request_vote votable_time_from_now id_ge is_active_state
vote_granted = refl

abbrev voted : Node ℕ ℕ
voted = (end_request_vote true true true 900 last_id pending request voter).0.0

granted_vote_lem_example :
    (voted.current_term ≡ 4)
    × ((voted.voted_id == 3) ≡ true)
    × (((voter.current_term ≡ 4) × ((voter.voted_id == 3) ≡ true))
        ⊎ NewVote true 900 last_id pending request voter voted)
granted_vote_lem_example =
    granted_vote_lem true true true 900 last_id pending request voter refl vote_granted

-- Then peer 2 asks in the same term, and is refused.
abbrev rival : RequestVoteRequest ℕ
rival = record {
  server_id = 2;
  term = 4;
  last_log_id = record { index = 9; term = 2 };
  disrupted_leader = none;
}

abbrev pending_rival : Pending ℕ
pending_rival = record { candidate_id = 2; previous_term = 4 }

abbrev asked_twice : Node ℕ ℕ
asked_twice = (end_request_vote true true true 920 last_id pending_rival rival voted).0.0

asked_twice-Run : Run ℕ voted asked_twice
asked_twice-Run =
    next (ends_vote true true true 920 last_id pending_rival rival voted) (halt asked_twice)

granted_again :
    (end_request_vote true true true 950 last_id pending_again request asked_twice).1.granted ≡ true
unfolding end_request_vote votable_time_from_now id_ge is_active_state
granted_again = refl

one_vote_per_term_example : (3 == 3) ≡ true
one_vote_per_term_example =
    one_vote_per_term true true true 900 last_id pending request voter asked_twice true true true
      950 last_id pending_again request refl vote_granted asked_twice-Run granted_again refl

-- The voter also fails to write a vote of its own.
abbrev vote_lost : Node ℕ ℕ
vote_lost = (finish_elect false true 930 7 last_id 4 asked_twice).0

Runs-Keeps_example :
    (voted.current_term ≤ vote_lost.current_term)
    × (suc zero ≡ zero → Keeps voted vote_lost)
    × ((enabled : Bool) (now last_log_index : ℕ) (last_log_id : LogId) (old_term : ℕ)
        → ((finish_elect false enabled now last_log_index last_log_id old_term
              vote_lost).0.current_term
            ≡ vote_lost.current_term)
          × (((finish_elect false enabled now last_log_index last_log_id old_term
                  vote_lost).0.voted_id
                ≡ vote_lost.voted_id)
              ⊎ ((finish_elect false enabled now last_log_index last_log_id old_term
                    vote_lost).0.voted_id
                  ≡ 0)))
Runs-Keeps_example = Runs-Keeps {S = ℕ} 1 voted vote_lost (
    does (ends_vote true true true 920 last_id pending_rival rival voted)
      (fails true 930 7 last_id 4 asked_twice (done vote_lost)))

-- The follower of term 3 starts an election, and one vote is a quorum with its own.
abbrev running : Node ℕ ℕ
running = (start_elect false voter).0.0

abbrev own_request : RequestVoteRequest ℕ
own_request = record {
  server_id = 1;
  term = 4;
  last_log_id = record { index = 8; term = 2 };
  disrupted_leader = none;
}

abbrev own_pending : Pending ℕ
own_pending = record { candidate_id = 1; previous_term = 4 }

own_granted :
    (end_request_vote true true true 900 last_id own_pending own_request running).1.granted ≡ true
unfolding start_elect end_request_vote quorumkit.ConfigurationManager.contains
    quorumkit.Configuration.contains quorumkit.Configuration.Set.find votable_time_from_now id_ge
own_granted = refl

own_vote_lem_example : (1 == 1) ≡ true
unfolding quorumkit.ConfigurationManager.contains quorumkit.Configuration.contains
    quorumkit.Configuration.Set.find
own_vote_lem_example =
    own_vote_lem {S = ℕ} false voter running true true true 900 last_id own_pending own_request refl
      refl (done running) own_granted refl

abbrev yes_from_two : RequestVoteResponse
yes_from_two = record {
  term = 4;
  granted = true;
  disrupted = false;
  previous_term = 3;
  rejected_by_lease = false;
}

abbrev asked : Node ℕ ℕ
asked = (finish_elect true true 900 7 last_id 4 running).0

abbrev chosen : Node ℕ ℕ
chosen = (handle_request_vote_response true 7 3 4 1 yes_from_two asked).0

chosen_leads : (is_leader asked.state ≡ false) × (is_leader chosen.state ≡ true)
unfolding start_elect is_leader finish_elect handle_request_vote_response
    quorumkit.ConfigurationManager.contains quorumkit.Configuration.contains
    quorumkit.Configuration.Set.find votable_time_from_now quorumkit.Node.VoteCtx.granted
    quorumkit.Ballot.granted quorumkit.Node.VoteCtx.grant quorumkit.Ballot.grant
    quorumkit.Node.VoteCtx.set_last_log_id quorumkit.Node.VoteCtx.init quorumkit.Ballot.init
    quorumkit.ConfigurationManager.stable quorumkit.Ballot.grant_group quorumkit.Ballot.find_peer
    quorumkit.Ballot.found_at quorumkit.Ballot.grant_hint quorumkit.Ballot.scan
    quorumkit.Ballot.set_found quorumkit.Node.Election.grant_self_vote
    quorumkit.Node.Election.lead_if_granted quorumkit.Node.Election.save_own_vote
    quorumkit.Node.Election.start_candidate quorumkit.Node.StepDown.reset_leader_id
    quorumkit.Node.VoteCtx.reset quorumkit.Node.is_follower quorumkit.Node.is_candidate
    quorumkit.Node.set_term_and_votedfor
chosen_leads = (refl, refl)
