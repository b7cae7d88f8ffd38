-- ===== src/Node/VoteCtx.antt =====
-- `NodeImpl::VoteBallotCtx`: the versioned ballot of an election or a pre-vote. Its timer is left to
-- the effects of the node's steps. The term -1 of a `DisruptedLeader` that is not set is `none`.
use quorumkit.Prelude.{ℕ, ◌+◌, Bool, false, List, [], Option, none, some, if◌then◌else◌}
use quorumkit.Peer.{PeerOrder}
use quorumkit.Ballot
use quorumkit.Ballot.{Ballot}
use quorumkit.Configuration.Set
use quorumkit.LogEntry.{LogId, no_id}
use quorumkit.ConfigurationManager.{ConfigurationEntry, stable}

-- The leader and its term.
abbrev pub DisruptedLeader : Type 0 → Type 0
DisruptedLeader P = Option (P × ℕ)

pub record VoteBallotCtx (P : Type 0) : Type 0 where
  pub ballot : Ballot P
  pub version : ℕ
  pub triggered : Bool
  pub reserved_peers : List P
  pub disrupted_leader : DisruptedLeader P
  pub last_log_id : LogId

module _ {P : Type 0} where
  unfoldable pub reset : VoteBallotCtx P → VoteBallotCtx P
  reset ctx = record ctx {
    version = ctx.version + 1;
    triggered = false;
    last_log_id = no_id;
    disrupted_leader = none;
    reserved_peers = [];
  }

  unfoldable pub init : VoteBallotCtx P → ConfigurationEntry P → Bool → VoteBallotCtx P
  unfolding reset
  init ctx conf triggered = record (reset ctx) {
    ballot = Ballot.init conf.conf (if stable conf then none else some conf.old_conf);
    triggered = triggered;
  }

  unfoldable pub set_disrupted_leader : VoteBallotCtx P → P → ℕ → VoteBallotCtx P
  set_disrupted_leader ctx peer term = record ctx { disrupted_leader = some (peer, term) }

  unfoldable pub set_last_log_id : VoteBallotCtx P → LogId → VoteBallotCtx P
  set_last_log_id ctx id = record ctx { last_log_id = id }

  pop_if_disrupted : DisruptedLeader P → VoteBallotCtx P → VoteBallotCtx P × List P
  pop_if_disrupted none ctx = (ctx, [])
  pop_if_disrupted (some d) ctx = (record ctx { reserved_peers = [] }, ctx.reserved_peers)

  unfoldable pub pop_grantable_peers : VoteBallotCtx P → VoteBallotCtx P × List P
  unfolding pop_if_disrupted
  pop_grantable_peers ctx = pop_if_disrupted ctx.disrupted_leader ctx

  unfoldable pub granted : VoteBallotCtx P → Bool
  granted ctx = Ballot.granted ctx.ballot

module _ {P : Type 0} ⦃o : PeerOrder P⦄ where
  unfoldable pub grant : VoteBallotCtx P → P → VoteBallotCtx P
  grant ctx peer = record ctx { ballot = Ballot.grant ctx.ballot peer }

  unfoldable pub reserve : VoteBallotCtx P → P → VoteBallotCtx P
  reserve ctx peer = record ctx { reserved_peers = Set.insert peer ctx.reserved_peers }
