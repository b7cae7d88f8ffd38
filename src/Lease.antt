-- ===== src/Lease.antt =====
-- src/braft/lease.h and lease.cpp. A clock reading is an argument: `butil::monotonic_time_ms()` is a
-- library's, and FLAGS_raft_enable_leader_lease is an argument too. Times are natural numbers, and a
-- comparison of a difference is written as one of sums.
pub mod Leader
pub mod Follower
pub mod Safety
use quorumkit.Prelude.{ℕ}

pub data InternalState : Type 0 where
  disabled expired not_ready valid suspect : InternalState

pub record LeaseInfo : Type 0 where
  pub state : InternalState
  pub term : ℕ
  pub lease_epoch : ℕ

pub record LeaderLease : Type 0 where
  pub election_timeout_ms : ℕ
  pub last_active_timestamp : ℕ
  pub term : ℕ
  pub lease_epoch : ℕ

pub record FollowerLease (P : Type 0) : Type 0 where
  pub election_timeout_ms : ℕ
  pub max_clock_drift_ms : ℕ
  pub last_leader : P
  pub last_leader_timestamp : ℕ
