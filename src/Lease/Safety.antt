-- ===== src/Lease/Safety.antt =====
-- What a valid leader lease promises, and that no follower votes against it.
use quorumkit.Prelude.{
  ℕ, ◌+◌, ◌≤◌, ◌<◌, ◌≡◌, ◌≢◌, ◌↔◌, ◌⊎◌, inr, refl, Bool, true, false, not, ◌||◌, ◌==◌, arith,
}
use quorumkit.Lease.{LeaderLease, FollowerLease, valid}
use quorumkit.Lease.Leader.{
  init, on_leader_start, on_leader_stop, on_lease_start, renew, reset_election_timeout_ms,
  get_lease_info,
}
use quorumkit.Lease.Follower.{votable_time_from_now, is_expired}

-- A lease is reported valid exactly if leases are enabled, the node leads, the lease has been started
-- and less than an election timeout has passed since the last contact with a majority; and only then
-- are the term and the epoch reported.
pub valid_iff :
    (enabled : Bool) (now : ℕ) (l : LeaderLease)
    → (((get_lease_info enabled now l).state ≡ valid) ↔ (
        (enabled ≡ true)
        × (l.term ≢ 0)
        × (l.last_active_timestamp ≢ 0)
        × (now < l.last_active_timestamp + l.election_timeout_ms)))
      × ((get_lease_info enabled now l).term ≢ 0
          → ((get_lease_info enabled now l).state ≡ valid)
            × ((get_lease_info enabled now l).term ≡ l.term)
            × ((get_lease_info enabled now l).lease_epoch ≡ l.lease_epoch))
unfolding get_lease_info
valid_iff enabled now l = (
  (λ h. (ground arith, ground arith, ground arith, ground arith), λ h. ground arith),
  λ h. ground arith,
)

-- The calls that change a lease.
pub data Call : LeaderLease → LeaderLease → Type 0 where
  inits : (timeout : ℕ) (l : LeaderLease) → Call l (init l timeout)
  starts : (term : ℕ) (l : LeaderLease) → Call l (on_leader_start l term)
  stops : (l : LeaderLease) → Call l (on_leader_stop l)
  begins : (epoch stamp : ℕ) (l : LeaderLease) → Call l (on_lease_start l epoch stamp)
  renews : (stamp : ℕ) (l : LeaderLease) → Call l (renew l stamp)
  resets : (timeout : ℕ) (l : LeaderLease) → Call l (reset_election_timeout_ms l timeout)

pub data Calls : LeaderLease → LeaderLease → Type 0 where
  halt : (l : LeaderLease) → Calls l l
  next : {l m k : LeaderLease} → Call l m → Calls m k → Calls l k

-- The leadership of the epoch is over.
abbrev Past : ℕ → LeaderLease → Type 0
Past e l = (e < l.lease_epoch) ⊎ ((e ≡ l.lease_epoch) × (l.term ≡ 0))

Call-Past : {l m : LeaderLease} (e : ℕ) → Call l m → Past e l → Past e m
unfolding init on_leader_start on_leader_stop on_lease_start renew reset_election_timeout_ms
Call-Past e (inits timeout l) p = p
Call-Past e (starts term l) p = ground (arith, p)
Call-Past e (stops l) p = ground (arith, p)
Call-Past e (begins epoch stamp l) p = ground (arith, p)
Call-Past e (renews stamp l) p = p
Call-Past e (resets timeout l) p = p

Calls-Past : {l m : LeaderLease} (e : ℕ) → Calls l m → Past e l → Past e m
Calls-Past e (halt l) p = p
Calls-Past e (next c cs) p = Calls-Past e cs (Call-Past e c p)

-- Once a leadership has stopped, a request to start its lease does nothing, whatever calls come in
-- between: whether the node does not lead, or leads again for the first or any later time.
pub stale_lease_start :
    (l after : LeaderLease) (stamp : ℕ)
    → Calls (on_leader_stop l) after
    → on_lease_start after l.lease_epoch stamp ≡ after
unfolding on_leader_stop on_lease_start
stale_lease_start l after stamp cs =
    let p = Calls-Past l.lease_epoch cs (inr (refl, refl)) in
    let k : (after.term == 0 || not (l.lease_epoch == after.lease_epoch)) ≡ true =
      ground (arith, p) in
    rw k refl

module _ {P : Type 0} where
  -- With leases enabled `votable_time_from_now` answers how long to wait: the follower may not vote
  -- before that much time has passed, and it may once it has; it answers 0 exactly if the lease has
  -- expired. With leases disabled it answers 0 at any time.
  pub votable_time_exact :
      (now later : ℕ) (l : FollowerLease P)
      → now ≤ later
      → ((votable_time_from_now true later l ≡ 0)
          ↔ (now + votable_time_from_now true now l ≤ later))
        × ((votable_time_from_now true now l ≡ 0) ↔ (is_expired now l ≡ true))
        × (votable_time_from_now false now l ≡ 0)
  unfolding votable_time_from_now is_expired
  votable_time_exact now later l h = ground arith

  -- With leases enabled and one election timeout, if the leader's lease is valid and the follower
  -- has heard the leader at or after the leader's last active time, up to the drift between the
  -- clocks, then `votable_time_from_now` of the follower is positive: it does not vote.
  pub lease_exclusion :
      (leader : LeaderLease) (follower : FollowerLease P) (leader_now follower_now : ℕ)
      → follower.election_timeout_ms ≡ leader.election_timeout_ms
      → leader.last_active_timestamp ≤ leader_now
      → follower_now + leader.last_active_timestamp
        ≤ leader_now + follower.last_leader_timestamp + follower.max_clock_drift_ms
      → (get_lease_info true leader_now leader).state ≡ valid
      → 0 < votable_time_from_now true follower_now follower
  unfolding get_lease_info votable_time_from_now
  lease_exclusion leader follower leader_now follower_now e a d h = ground arith
