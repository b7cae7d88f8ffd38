-- ===== src/Lease/Leader.antt =====
-- `LeaderLease` (src/braft/lease.cpp).
use quorumkit.Prelude.{ℕ, ◌+◌, Bool, ◌||◌, not, ltb, ◌==◌, if◌then◌else◌}
use quorumkit.Lease.{LeaderLease, LeaseInfo, disabled, expired, not_ready, valid, suspect}

abbrev pub new_lease : LeaderLease
new_lease = record { election_timeout_ms = 0; last_active_timestamp = 0; term = 0; lease_epoch = 0 }

unfoldable pub init : LeaderLease → ℕ → LeaderLease
init l election_timeout_ms = record l { election_timeout_ms = election_timeout_ms }

unfoldable pub on_leader_start : LeaderLease → ℕ → LeaderLease
on_leader_start l term = record l {
  lease_epoch = l.lease_epoch + 1;
  term = term;
  last_active_timestamp = 0;
}

unfoldable pub on_leader_stop : LeaderLease → LeaderLease
on_leader_stop l = record l { last_active_timestamp = 0; term = 0 }

unfoldable pub on_lease_start : LeaderLease → ℕ → ℕ → LeaderLease
on_lease_start l expect_lease_epoch last_active_timestamp =
    if l.term == 0 || not (expect_lease_epoch == l.lease_epoch)
    then l
    else record l { last_active_timestamp = last_active_timestamp }

unfoldable pub renew : LeaderLease → ℕ → LeaderLease
renew l last_active_timestamp = record l { last_active_timestamp = last_active_timestamp }

unfoldable pub reset_election_timeout_ms : LeaderLease → ℕ → LeaderLease
reset_election_timeout_ms l election_timeout_ms = record l {
  election_timeout_ms = election_timeout_ms;
}

unfoldable pub get_lease_info : Bool → ℕ → LeaderLease → LeaseInfo
get_lease_info enabled now l =
    if not enabled
    then record { state = disabled; term = 0; lease_epoch = 0 }
    else if l.term == 0
    then record { state = expired; term = 0; lease_epoch = 0 }
    else if l.last_active_timestamp == 0
    then record { state = not_ready; term = 0; lease_epoch = 0 }
    else if ltb now (l.last_active_timestamp + l.election_timeout_ms)
    then record { state = valid; term = l.term; lease_epoch = l.lease_epoch }
    else record { state = suspect; term = 0; lease_epoch = 0 }
