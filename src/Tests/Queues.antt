-- ===== src/Tests/Queues.antt =====
-- The closure queue, the leases, and the histories of configurations.
use mathlib.Core.List.{Memᴰ}
use quorumkit.Prelude.{
  ℕ, ◌+◌, ◌-◌, ◌≡◌, ◌≢◌, ◌≤◌, ◌<◌, ◌↔◌, ◌⊎◌, refl, true, false, [], ◌∷◌, ◌++◌, none, some, length,
  if◌then◌else◌, ltb, arith,
}
use quorumkit.Errno.{ok, minus_one}
use quorumkit.ClosureQueue.{ClosureQueue, pop_closure_until}
use quorumkit.ClosureQueue.Order.{pop_closure_until_lem, pop_pop}
use quorumkit.Lease.{LeaderLease, FollowerLease}
use quorumkit.Lease.Leader.{
  new_lease, on_leader_start, on_leader_stop, on_lease_start, get_lease_info,
}
use quorumkit.Lease.Follower.{votable_time_from_now, is_expired}
use quorumkit.Lease.Safety.{
  starts, stops, halt, next, stale_lease_start, votable_time_exact, lease_exclusion,
}
use quorumkit.ConfigurationManager.{
  ConfigurationEntry, ConfigurationManager, no_entry, index, add, get, truncate_prefix,
  truncate_suffix,
}
use quorumkit.ConfigurationManager.Latest.{AllAfter, IsRising, IsLast, get_lem}
use quorumkit.ConfigurationManager.Truncate.{
  AllBefore, add_lem, get-truncate_suffix, get-truncate_prefix,
}

abbrev three_closures : ClosureQueue ℕ
three_closures = record { first_index = 4; queue = some 7 ∷ none ∷ some 9 ∷ [] }

pop_closure_until_lem_example :
    let r = pop_closure_until three_closures 5 in
    (4 ≤ 5
      → 5 < 7
      → (r.code ≡ ok)
        × (r.out ++ r.rest.queue ≡ three_closures.queue)
        × (length r.out ≡ 5 + 1 - 4)
        × (r.out_first_index ≡ some 4)
        × (r.rest.first_index ≡ 5 + 1))
    × (((three_closures.queue ≡ []) ⊎ (5 < 4))
        → (r.code ≡ ok)
          × (r.out ≡ [])
          × (r.out_first_index ≡ some (5 + 1))
          × (r.rest ≡ three_closures))
    × (three_closures.queue ≢ []
        → 7 ≤ 5
        → (r.code ≡ minus_one)
          × (r.out ≡ [])
          × (r.out_first_index ≡ none)
          × (r.rest ≡ three_closures))
pop_closure_until_lem_example = pop_closure_until_lem three_closures 5

pop_pop_example :
    ((pop_closure_until three_closures 4).out
        ++ (pop_closure_until (pop_closure_until three_closures 4).rest 6).out
      ≡ (pop_closure_until three_closures 6).out)
    × ((pop_closure_until (pop_closure_until three_closures 4).rest 6).rest
        ≡ (pop_closure_until three_closures 6).rest)
pop_pop_example = pop_pop three_closures 4 6 (omega arith) (omega arith) (omega arith)

abbrev led : LeaderLease
led = record { election_timeout_ms = 100; last_active_timestamp = 40; term = 3; lease_epoch = 2 }

abbrev followed : FollowerLease ℕ
followed = record {
  election_timeout_ms = 100;
  max_clock_drift_ms = 10;
  last_leader = 1;
  last_leader_timestamp = 45;
}

-- The node leads in term 3, stops, leads in terms 4 and 6, and then hears of the first lease.
abbrev first_lease : LeaderLease
first_lease = on_leader_start new_lease 3

abbrev third_lease : LeaderLease
third_lease = on_leader_start (on_leader_stop (on_leader_start (on_leader_stop first_lease) 4)) 6

stale_lease_start_example : on_lease_start third_lease first_lease.lease_epoch 20 ≡ third_lease
stale_lease_start_example =
    stale_lease_start first_lease third_lease 20
      (next (starts 4 _) (next (stops _) (next (starts 6 _) (halt _))))

votable_time_exact_example :
    ((votable_time_from_now true 160 followed ≡ 0)
      ↔ (100 + votable_time_from_now true 100 followed ≤ 160))
    × ((votable_time_from_now true 100 followed ≡ 0) ↔ (is_expired 100 followed ≡ true))
    × (votable_time_from_now false 100 followed ≡ 0)
votable_time_exact_example = votable_time_exact 100 160 followed (omega arith)

lease_exclusion_example : 0 < votable_time_from_now true 100 followed
unfolding get_lease_info
lease_exclusion_example = lease_exclusion led followed 100 100 refl (omega arith) (omega arith) refl

abbrev entry_at : ℕ → ConfigurationEntry ℕ
entry_at k = record { id = record { index = k; term = 1 }; conf = k ∷ []; old_conf = [] }

abbrev history : ConfigurationManager ℕ
history = record { configurations = entry_at 3 ∷ entry_at 6 ∷ []; snapshot = no_entry }

history_IsRising : IsRising history.configurations
history_IsRising = ((omega arith, tt), (tt, tt))

get_lem_example :
    ((get history 5 ≡ history.snapshot) × AllAfter 5 history.configurations)
    ⊎ (Memᴰ (get history 5) history.configurations
        × (index (get history 5) ≤ 5)
        × IsLast 5 (get history 5) history.configurations)
get_lem_example = get_lem history 5 history_IsRising

add_lem_example :
    IsRising (add history (entry_at 8)).1.configurations
    × (((add history (entry_at 8)).0 ≡ ok) ↔ AllBefore 8 history.configurations)
    × ((add history (entry_at 8)).0 ≡ minus_one → (add history (entry_at 8)).1 ≡ history)
    × ((add history (entry_at 8)).0 ≡ ok
        → get (add history (entry_at 8)).1 7 ≡ (if ltb 7 8 then get history 7 else entry_at 8))
add_lem_example = add_lem history (entry_at 8) 7 history_IsRising

get-truncate_suffix_example : get (truncate_suffix history 5) 4 ≡ get history 4
get-truncate_suffix_example = get-truncate_suffix history 5 4 (omega arith)

get-truncate_prefix_example : get (truncate_prefix history 5) 7 ≡ get history 7
unfolding get
get-truncate_prefix_example = get-truncate_prefix history 5 7 history_IsRising (omega arith)
