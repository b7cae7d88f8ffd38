-- ===== src/Lease/Follower.antt =====
-- `FollowerLease` (src/braft/lease.cpp).
use quorumkit.Prelude.{ℕ, ◌+◌, ◌-◌, Bool, not, leb, if◌then◌else◌}
use quorumkit.Peer.{PeerOrder}
use quorumkit.Lease.{FollowerLease}

unfoldable pub init : {P : Type 0} → FollowerLease P → ℕ → ℕ → ℕ → FollowerLease P
init l now election_timeout_ms max_clock_drift_ms = record l {
  election_timeout_ms = election_timeout_ms;
  max_clock_drift_ms = max_clock_drift_ms;
  last_leader_timestamp = now;
}

unfoldable pub renew : {P : Type 0} → FollowerLease P → ℕ → P → FollowerLease P
renew l now leader_id = record l { last_leader = leader_id; last_leader_timestamp = now }

unfoldable pub votable_time_from_now : {P : Type 0} → Bool → ℕ → FollowerLease P → ℕ
votable_time_from_now enabled now l =
    let votable_timestamp =
      l.last_leader_timestamp + l.election_timeout_ms + l.max_clock_drift_ms in
    if not enabled then 0 else if leb votable_timestamp now then 0 else votable_timestamp - now

-- `now - last_leader_timestamp >= election_timeout_ms + max_clock_drift_ms`
unfoldable pub is_expired : {P : Type 0} → ℕ → FollowerLease P → Bool
is_expired now l = leb (l.election_timeout_ms + l.max_clock_drift_ms + l.last_leader_timestamp) now

unfoldable pub reset : {P : Type 0} ⦃o : PeerOrder P⦄ → FollowerLease P → FollowerLease P
reset ⦃o⦄ l = record l { last_leader = o.empty_peer; last_leader_timestamp = 0 }

unfoldable pub expire : {P : Type 0} → FollowerLease P → FollowerLease P
expire l = record l { last_leader_timestamp = 0 }

unfoldable pub reset_election_timeout_ms : {P : Type 0} → FollowerLease P → ℕ → ℕ → FollowerLease P
reset_election_timeout_ms l election_timeout_ms max_clock_drift_ms = record l {
  election_timeout_ms = election_timeout_ms;
  max_clock_drift_ms = max_clock_drift_ms;
}
