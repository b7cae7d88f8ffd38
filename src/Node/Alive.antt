-- ===== src/Node/Alive.antt =====
-- How a leader judges that a majority of its group is alive: `check_dead_nodes`,
-- `handle_stepdown_timeout`, `last_leader_active_timestamp` and `leader_lease_start`. `sent p` is
-- `_replicator_group.last_rpc_send_timestamp(p)`, `now` the clock, at least every `sent p`. The
-- library's heap of timestamps is the list of its elements, the least first.
use quorumkit.Prelude.{
  ℕ, suc, ◌+◌, ◌-◌, ◌/◌, Bool, true, false, not, ◌||◌, List, [], ◌∷◌, min, ltb, leb, if◌then◌else◌,
  length, null, drop,
}
use quorumkit.Errno.{eraft_timed_out, etransfer_leadership}
use quorumkit.Peer.{PeerOrder}
use quorumkit.Lease.Leader
use quorumkit.Node.{Node, Effect, is_leading, is_leader, ◌▸◌}
use quorumkit.Node.StepDown.{step_down}

-- `push_heap` of a timestamp.
unfoldable pub push_heap : ℕ → List ℕ → List ℕ
push_heap x [] = x ∷ []
push_heap x (y ∷ ys) = let rest = push_heap x ys in if leb x y then x ∷ y ∷ ys else y ∷ rest

-- The least is popped where there are more than `most`.
unfoldable pub keep_most : ℕ → List ℕ → List ℕ
keep_most most xs = if ltb most (length xs) then drop 1 xs else xs

-- `pop_heap` and `back()`: the least of those kept, or the clock where the node is alone.
abbrev pub least_or : ℕ → List ℕ → ℕ
least_or now [] = now
least_or now (x ∷ xs) = x

module _ {P : Type 0} ⦃o : PeerOrder P⦄ where
  -- The loop over the peers, which skips the node itself.
  unfoldable pub latest : P → (P → ℕ) → ℕ → List P → List ℕ → List ℕ
  unfolding push_heap keep_most
  latest self sent most [] kept = kept
  latest self sent most (p ∷ ps) kept =
      let skipped = latest self sent most ps kept in
      let rest = latest self sent most ps (keep_most most (push_heap (sent p) kept)) in
      if o.peer_eq p self then skipped else rest

  unfoldable pub last_active_in : P → (P → ℕ) → ℕ → List P → ℕ
  unfolding latest
  last_active_in self sent now peers = least_or now (latest self sent (length peers / 2) peers [])

  -- `last_leader_active_timestamp()`
  unfoldable pub last_leader_active_timestamp : P → (P → ℕ) → ℕ → List P → List P → ℕ
  unfolding last_active_in
  last_leader_active_timestamp self sent now conf old_conf =
      let timestamp = last_active_in self sent now conf in
      if null old_conf then timestamp else min timestamp (last_active_in self sent now old_conf)

  -- The node itself, and those that it has sent to within the timeout.
  unfoldable pub alive_count : P → (P → ℕ) → ℕ → ℕ → List P → ℕ
  alive_count self sent now timeout [] = 0
  alive_count self sent now timeout (p ∷ ps) =
      let rest = alive_count self sent now timeout ps in
      if o.peer_eq p self || leb (now - sent p) timeout then suc rest else rest

module _ {P C : Type 0} ⦃o : PeerOrder P⦄ where
  -- `timeout` is `_options.election_timeout_ms`.
  unfoldable pub check_dead_nodes :
      Bool → (P → ℕ) → ℕ → ℕ → List P → Node P C → Node P C × List (Effect P C)
  unfolding alive_count step_down
  check_dead_nodes saved sent now timeout peers n =
      if leb (length peers / 2 + 1) (alive_count n.server_id sent now timeout peers)
      then (n, [])
      else step_down saved n.current_term false eraft_timed_out n

  -- A witness that leads steps down and wakes a candidate.
  unfoldable pub check_witness : Bool → Bool → Node P C → Node P C × List (Effect P C)
  unfolding step_down
  check_witness saved witness n =
      if witness then step_down saved n.current_term true etransfer_leadership n else (n, [])

  abbrev pub check_old : Bool → (P → ℕ) → ℕ → ℕ → List P → Node P C → Node P C × List (Effect P C)
  check_old saved sent now timeout old_conf n =
      if null old_conf then (n, []) else check_dead_nodes saved sent now timeout old_conf n

  unfoldable pub handle_stepdown_timeout :
      Bool → Bool → (P → ℕ) → ℕ → ℕ → Node P C → Node P C × List (Effect P C)
  unfolding check_dead_nodes check_witness
  handle_stepdown_timeout saved witness sent now timeout n =
      if not (is_leading n.state)
      then (n, [])
      else check_witness saved witness n
        ▸ check_dead_nodes saved sent now timeout n.conf.conf
        ▸ check_old saved sent now timeout n.conf.old_conf

  unfoldable pub leader_lease_start : (P → ℕ) → ℕ → ℕ → Node P C → Node P C
  unfolding last_leader_active_timestamp
  leader_lease_start sent now lease_epoch n =
      if is_leader n.state
      then record n {
        leader_lease =
            Leader.on_lease_start n.leader_lease lease_epoch
              (last_leader_active_timestamp n.server_id sent now n.conf.conf n.conf.old_conf);
      }
      else n
