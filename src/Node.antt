-- ===== src/Node.antt =====
-- src/braft/node.h and node.cpp, and `State` of src/braft/raft.h: the terms, votes and roles of a
-- node. Each function is one step under `_mutex`; one that gives up the mutex in between is two, and
-- what it kept is an argument of the second. What a step starts elsewhere is its list of effects:
-- timers, RPCs, and calls of the applier, the replicators, the snapshot executor and the
-- configuration context. A clock reading, and whether a write of the meta storage succeeds, are
-- arguments.
pub mod VoteCtx
pub mod StepDown
pub mod VoteRequest
pub mod Election
pub mod Answers
pub mod Quorum
pub mod Responses
pub mod Timeouts
pub mod Steps
pub mod ConfigurationCtx
pub mod Stages
pub mod Joint
pub mod Append
pub mod Matching
pub mod Apply
pub mod Accepted
pub mod Alive
pub mod Active
pub mod Same
pub mod OneVote
pub mod Grant
use quorumkit.Prelude.{ℕ, Bool, true, false, List, [], ◌∷◌, ◌++◌, if◌then◌else◌}
use quorumkit.Errno.{Code}
use quorumkit.LogEntry.{LogId}
use quorumkit.ConfigurationManager.{ConfigurationEntry}
use quorumkit.BallotBox.{BallotBox}
use quorumkit.Lease.{LeaderLease, FollowerLease}
use quorumkit.Node.VoteCtx.{VoteBallotCtx, DisruptedLeader}

pub data State : Type 0 where
  leader transferring candidate follower in_error uninitialized shutting shut_down : State

-- `s < STATE_ERROR`
unfoldable pub is_active_state : State → Bool
is_active_state leader = true
is_active_state transferring = true
is_active_state candidate = true
is_active_state follower = true
is_active_state s = false

-- `s <= STATE_TRANSFERRING`
unfoldable pub is_leading : State → Bool
is_leading leader = true
is_leading transferring = true
is_leading s = false

unfoldable pub is_follower : State → Bool
is_follower follower = true
is_follower s = false

unfoldable pub is_candidate : State → Bool
is_candidate candidate = true
is_candidate s = false

unfoldable pub is_leader : State → Bool
is_leader leader = true
is_leader s = false

pub data Timer : Type 0 where
  election_timer vote_timer stepdown_timer : Timer

pub data Effect (P C : Type 0) : Type 0 where
  start_timer stop_timer : Timer → Effect P C
  stop_grant_self : Effect P C
  on_leader_stop : Code → Effect P C
  on_stop_following on_start_following : P → ℕ → Code → Effect P C
  run_pending : C → Effect P C
  reset_conf_ctx : Effect P C
  clear_append_entries_cache : Effect P C
  interrupt_snapshot : ℕ → Effect P C
  stop_replicators wake_next_candidate : Effect P C
  cancel_transfer : Effect P C
  -- After so many milliseconds, for the version of the ballot.
  start_grant_self : ℕ → ℕ → Effect P C
  reset_replicators : ℕ → Effect P C
  add_replicator : P → Effect P C
  flush_conf_ctx : List P → List P → Effect P C
  -- The term, the version of the ballot and the last log id.
  send_request_vote : P → ℕ → ℕ → LogId → DisruptedLeader P → Effect P C
  send_pre_vote : P → ℕ → ℕ → LogId → Effect P C

-- What the meta storage holds.
pub record StableMeta (P : Type 0) : Type 0 where
  pub term : ℕ
  pub votedfor : P

pub record Node (P C : Type 0) : Type 0 where
  pub state : State
  pub current_term : ℕ
  pub leader_id : P
  pub voted_id : P
  pub server_id : P
  pub conf : ConfigurationEntry P
  pub vote_ctx : VoteBallotCtx P
  pub pre_vote_ctx : VoteBallotCtx P
  pub ballot_box : BallotBox P C
  pub leader_lease : LeaderLease
  pub follower_lease : FollowerLease P
  pub majority_nodes_readonly : Bool
  pub transfer_under_way : Bool
  pub vote_triggered : Bool
  pub meta : StableMeta P

module _ {P C : Type 0} where
  infixl 20 ◌▸◌
  -- One part of a step after another, with the effects of both.
  abbrev pub ◌▸◌ :
      Node P C × List (Effect P C)
      → (Node P C → Node P C × List (Effect P C))
      → Node P C × List (Effect P C)
  r ▸ f = ((f r.0).0, r.1 ++ (f r.0).1)

  -- A part that is skipped unless the test holds.
  abbrev pub only_if :
      Bool → (Node P C → Node P C × List (Effect P C)) → Node P C → Node P C × List (Effect P C)
  only_if b f n = if b then f n else (n, [])

  abbrev pub emit : List (Effect P C) → Node P C → Node P C × List (Effect P C)
  emit es n = (n, es)

  abbrev pub change : (Node P C → Node P C) → Node P C → Node P C × List (Effect P C)
  change f n = (f n, [])

  -- `set_term_and_votedfor`; nothing is written where it fails.
  unfoldable pub set_term_and_votedfor : Bool → ℕ → P → Node P C → Node P C
  set_term_and_votedfor saved term votedfor n =
      if saved then record n { meta = record { term = term; votedfor = votedfor } } else n
