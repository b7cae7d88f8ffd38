-- ===== src/Replicator.antt =====
-- src/braft/replicator.h and replicator.cpp: how a leader feeds one follower. A request in flight is
-- an element of `_append_entries_in_fly`. What the calls outside the replicator answer in a step is
-- its `Outside`: the log manager's reads, the id of a new RPC and of a new waiter, the opening of a
-- snapshot. A timer can always be added. The numbers that only `describe` shows are left out.
pub mod Send
pub mod Returned
pub mod Window
pub mod Acknowledged
pub mod Commits
use quorumkit.Prelude.{
  ℕ, ◌+◌, ◌-◌, Bool, true, false, not, ◌&&◌, ◌||◌, List, [], ◌∷◌, ◌++◌, map, Option, none, some,
  ltb, leb, ◌==◌, if◌then◌else◌, length,
}
use quorumkit.Errno.{Code, ok, is_ok, eperm, etimedout}
use quorumkit.LogEntry.{LogEntry}
use quorumkit.Node.Append.{AppendEntriesRequest}

-- `FlyingAppendEntriesRpc`
pub record Flying : Type 0 where
  pub log_index : ℕ
  pub entries_size : ℕ
  pub call_id : ℕ

pub data St : Type 0 where
  idle blocking appending_entries installing_snapshot : St

abbrev pub is_blocking : St → Bool
is_blocking blocking = true
is_blocking st = false

-- `CatchupClosure`
pub record Catchup (C : Type 0) : Type 0 where
  pub closure : C
  pub max_margin : ℕ
  pub error_was_set : Bool
  pub has_timer : Bool

-- The wait id and the index of the timeout request are 0 where there is none.
pub record Replicator (C : Type 0) : Type 0 where
  pub next_index : ℕ
  pub flying_append_entries_size : ℕ
  pub append_entries_in_fly : List Flying
  pub consecutive_error_times : ℕ
  pub has_succeeded : Bool
  pub timeout_now_index : ℕ
  pub readonly_index : ℕ
  pub st : St
  pub wait_id : ℕ
  pub is_waiter_canceled : Bool
  pub has_reader : Bool
  pub catchup : Option (Catchup C)
  pub last_rpc_send_timestamp : ℕ

-- `ReplicatorOptions` and the flags. Whether the node is a witness and whether the peer is one are
-- two things; `to_string` is that of a peer.
pub record Options (P N : Type 0) : Type 0 where
  pub server_id : N
  pub term : ℕ
  pub to_string : P → N
  pub node_is_witness : Bool
  pub peer_is_witness : Bool
  pub enable_witness_to_leader : Bool
  pub max_entries_size : ℕ
  pub max_parallel_append_entries_rpc_num : ℕ
  pub max_body_size : ℕ

-- What opening a snapshot answers: the throttle refuses, it cannot be opened, has no uri or no meta
-- data, or it is opened with its last index.
pub data Opening : Type 0 where
  throttled not_opened no_uri no_meta : Opening
  opened : (last_included_index : ℕ) → Opening

pub record Outside (P : Type 0) : Type 0 where
  pub get_term : ℕ → ℕ
  pub get_entry : ℕ → Option (LogEntry P)
  pub first_log_index : ℕ
  pub last_log_index : ℕ
  pub last_committed_index : ℕ
  pub call_id : ℕ
  pub wait_id : ℕ
  pub opening : Opening
  pub timer_runs : Bool

pub data Effect (P N C : Type 0) : Type 0 where
  append_entries : (call_id : ℕ) → AppendEntriesRequest N → Effect P N C
  cancel : (call_id : ℕ) → Effect P N C
  commit_at : (first_log_index last_log_index : ℕ) → Effect P N C
  wait : (expected_last_log_index : ℕ) → Effect P N C
  remove_waiter : (wait_id : ℕ) → Effect P N C
  start_heartbeat_timer block_timer timeout_now close_reader fail_snapshot : Effect P N C
  install_snapshot : (last_included_index : ℕ) → Effect P N C
  increase_term_to : ℕ → Effect P N C
  change_readonly_config : Bool → Effect P N C
  -- The closure has no status where there was no error.
  caught_up : C → Option Code → Effect P N C
  destroy : Effect P N C

module _ {P N C : Type 0} where
  infixl 5 ◌▸◌
  -- One call after another.
  abbrev pub ◌▸◌ :
      Replicator C × List (Effect P N C)
      → (Replicator C → Replicator C × List (Effect P N C))
      → Replicator C × List (Effect P N C)
  (r, es) ▸ f = let next = f r in (next.0, es ++ next.1)

  abbrev pub change :
      (Replicator C → Replicator C) → Replicator C → Replicator C × List (Effect P N C)
  change f r = (f r, [])

  abbrev pub emit : List (Effect P N C) → Replicator C → Replicator C × List (Effect P N C)
  emit es r = (r, es)

abbrev pub is_given_up : Option Code → Bool
is_given_up (some etimedout) = true
is_given_up (some eperm) = true
is_given_up error = false

abbrev pub or_ok : Option Code → Code
or_ok none = ok
or_ok (some code) = code

module _ {C : Type 0} where
  unfoldable pub min_flying_index : Replicator C → ℕ
  min_flying_index r = r.next_index - r.flying_append_entries_size

  unfoldable pub update_last_rpc_send_timestamp : ℕ → Replicator C → Replicator C
  update_last_rpc_send_timestamp time r =
      if ltb r.last_rpc_send_timestamp time then record r { last_rpc_send_timestamp = time } else r

module _ {P C : Type 0} where
  unfoldable pub is_catchup : Outside P → ℕ → Replicator C → Bool
  unfolding min_flying_index
  is_catchup out max_margin r =
      not (ltb r.next_index out.first_log_index)
      && leb out.last_log_index (min_flying_index r - 1 + max_margin)

module _ {P N C : Type 0} where
  unfoldable pub cancel_append_entries_rpcs : Replicator C → Replicator C × List (Effect P N C)
  cancel_append_entries_rpcs r =
      (record r { append_entries_in_fly = [] }, map (λ f. cancel f.call_id) r.append_entries_in_fly)

  unfoldable pub reset_next_index : Replicator C → Replicator C × List (Effect P N C)
  unfolding min_flying_index cancel_append_entries_rpcs
  reset_next_index r =
      (record r { next_index = min_flying_index r; flying_append_entries_size = 0 }, [])
      ▸ cancel_append_entries_rpcs
      ▸ λ r. (
        record r { is_waiter_canceled = true; wait_id = 0 },
        if r.wait_id == 0 then [] else remove_waiter r.wait_id ∷ [],
      )

  unfoldable pub block : Replicator C → Replicator C × List (Effect P N C)
  block r = if is_blocking r.st then (r, []) else (record r { st = blocking }, block_timer ∷ [])

  -- The step down or the timeout of the wait.
  abbrev pub drop_catchup : Code → Catchup C → Replicator C → Replicator C × List (Effect P N C)
  drop_catchup code c r = (
    record r { catchup = none },
    caught_up c.closure (if c.error_was_set then none else some code) ∷ [],
  )

  -- The rest of `_notify_on_caught_up`; a timer that runs already is left to call the closure.
  unfoldable pub finish_catchup :
      Outside P → Option Code → Bool → Catchup C → Replicator C → Replicator C × List (Effect P N C)
  unfolding is_catchup
  finish_catchup out error before_destroy c r =
      if not (is_catchup out c.max_margin r) || c.error_was_set
      then (r, [])
      else if c.has_timer && not before_destroy && out.timer_runs
      then (record r { catchup = some (record c { error_was_set = true }) }, [])
      else (record r { catchup = none }, caught_up c.closure error ∷ [])

  unfoldable pub notify_closure :
      Outside P
      → Option Code
      → Bool
      → Option (Catchup C)
      → Replicator C
      → Replicator C × List (Effect P N C)
  unfolding finish_catchup
  notify_closure out error before_destroy none r = (r, [])
  notify_closure out error before_destroy (some c) r =
      if is_given_up error
      then drop_catchup (or_ok error) c r
      else finish_catchup out error before_destroy c r

  -- `_notify_on_caught_up`; no code stands for 0.
  unfoldable pub notify_on_caught_up :
      Outside P → Option Code → Bool → Replicator C → Replicator C × List (Effect P N C)
  unfolding notify_closure
  notify_on_caught_up out error before_destroy r =
      notify_closure out error before_destroy r.catchup r

  unfoldable pub send_timeout_now : Bool → Replicator C → Replicator C × List (Effect P N C)
  send_timeout_now old_leader_stepped_down r = (
    (if old_leader_stepped_down then r else record r { timeout_now_index = 0 }),
    timeout_now ∷ [],
  )

  -- The follower has all that it was to have before it may lead.
  unfoldable pub timeout_now_if_reached : Replicator C → Replicator C × List (Effect P N C)
  unfolding min_flying_index send_timeout_now
  timeout_now_if_reached r =
      if ltb 0 r.timeout_now_index && ltb r.timeout_now_index (min_flying_index r)
      then send_timeout_now false r
      else (r, [])
