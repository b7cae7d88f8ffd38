-- ===== src/Replicator/Returned.antt =====
-- What a replicator does with the answers to its requests, when it is woken, and for the node.
use quorumkit.Prelude.{
  ℕ, ◌+◌, ◌-◌, Bool, true, false, not, ◌&&◌, ◌||◌, List, [], ◌∷◌, Option, none, some, ltb, leb,
  ◌==◌, if◌then◌else◌,
}
use quorumkit.Errno.{Code, eperm, estop, einval, etimedout}
use quorumkit.Replicator.{
  Flying, Catchup, Replicator, Options, Outside, Effect, idle, cancel, commit_at, remove_waiter,
  start_heartbeat_timer, close_reader, increase_term_to, caught_up, destroy, ◌▸◌, change, emit,
  min_flying_index, update_last_rpc_send_timestamp, cancel_append_entries_rpcs, reset_next_index,
  block, is_catchup, notify_on_caught_up, send_timeout_now, timeout_now_if_reached,
}
use quorumkit.Replicator
use quorumkit.Replicator.Send.{send_entries, send_empty_entries, wait_more_entries}

-- `AppendEntriesResponse`
pub record Response : Type 0 where
  pub term : ℕ
  pub success : Bool
  pub last_log_index : ℕ
  pub readonly : Bool

-- What is known of an RPC that has returned: its request, in short, and when it was sent.
pub record Sent : Type 0 where
  pub call_id : ℕ
  pub prev_log_index : ℕ
  pub entries_size : ℕ
  pub send_time : ℕ

-- The loop that looks for the RPC, up to the first that begins after it.
unfoldable pub is_in_fly : ℕ → ℕ → List Flying → Bool
is_in_fly call_id first_index [] = false
is_in_fly call_id first_index (f ∷ fs) =
    let rest = is_in_fly call_id first_index fs in
    if ltb first_index f.log_index then false else f.call_id == call_id || rest

-- The requests up to the one that succeeded leave the window.
unfoldable pub pop_until : ℕ → List Flying → ℕ → List Flying × ℕ
pop_until first_index [] size = ([], size)
pop_until first_index (f ∷ fs) size =
    let rest = pop_until first_index fs (size - f.entries_size) in
    if leb f.log_index first_index then rest else (f ∷ fs, size)

module _ {C : Type 0} where
  unfoldable pub pop_window : ℕ → Replicator C → Replicator C
  unfolding pop_until
  pop_window first_index r =
      let (fly, size) =
        pop_until first_index r.append_entries_in_fly r.flying_append_entries_size in
      record r { append_entries_in_fly = fly; flying_append_entries_size = size }

  -- Where to probe next after a mismatch.
  unfoldable pub step_back : ℕ → Replicator C → Replicator C
  step_back last_log_index r =
      if ltb (last_log_index + 1) r.next_index
      then record r { next_index = last_log_index + 1 }
      else if ltb 1 r.next_index
      then record r { next_index = r.next_index - 1 }
      else r

  unfoldable pub stop_transfer_leadership : Replicator C → Replicator C
  stop_transfer_leadership r = record r { timeout_now_index = 0 }

  abbrev pub keep_waiting : Bool → ℕ → C → Replicator C → Replicator C
  keep_waiting timed max_margin closure r = record r {
    catchup = some (record {
      closure = closure;
      max_margin = max_margin;
      error_was_set = false;
      has_timer = timed;
    });
  }

module _ {P N C : Type 0} where
  -- A higher term ends the replicator.
  unfoldable pub quit : Outside P → ℕ → Replicator C → Replicator C × List (Effect P N C)
  unfolding notify_on_caught_up
  quit out term r =
      notify_on_caught_up out (some eperm) true r ▸ emit (destroy ∷ increase_term_to term ∷ [])

  unfoldable pub on_rpc_failed : Replicator C → Replicator C × List (Effect P N C)
  unfolding reset_next_index block
  on_rpc_failed r =
      (record r { consecutive_error_times = r.consecutive_error_times + 1 }, [])
      ▸ reset_next_index
      ▸ block

  unfoldable pub on_mismatch :
      Options P N → Outside P → Sent → Response → Replicator C → Replicator C × List (Effect P N C)
  unfolding reset_next_index step_back send_empty_entries update_last_rpc_send_timestamp quit
  on_mismatch opts out sent response r =
      if ltb opts.term response.term
      then reset_next_index r ▸ quit out response.term
      else reset_next_index (update_last_rpc_send_timestamp sent.send_time r)
        ▸ change (step_back response.last_log_index)
        ▸ send_empty_entries opts out false

  abbrev pub commits : Sent → Replicator C → Replicator C × List (Effect P N C)
  commits sent r = (
    r,
    if ltb 0 sent.entries_size
        then commit_at (min_flying_index r) (sent.prev_log_index + sent.entries_size) ∷ []
        else [],
  )

  unfoldable pub on_success :
      Options P N → Outside P → Sent → Response → Replicator C → Replicator C × List (Effect P N C)
  unfolding reset_next_index pop_window update_last_rpc_send_timestamp notify_on_caught_up
      timeout_now_if_reached send_entries
  on_success opts out sent response r =
      if not (response.term == opts.term)
      then reset_next_index r
      else commits sent (update_last_rpc_send_timestamp sent.send_time r)
        ▸ change (pop_window (sent.prev_log_index + 1))
        ▸ change (λ r. record r { has_succeeded = true })
        ▸ notify_on_caught_up out none false
        ▸ timeout_now_if_reached
        ▸ send_entries opts out

  -- `failed` is `cntl->Failed()`.
  unfoldable pub on_rpc_returned :
      Options P N
      → Outside P
      → Bool
      → Sent
      → Response
      → Replicator C
      → Replicator C × List (Effect P N C)
  unfolding is_in_fly on_rpc_failed on_mismatch on_success
  on_rpc_returned opts out failed sent response r =
      let answered = record r { consecutive_error_times = 0 } in
      if not (is_in_fly sent.call_id (sent.prev_log_index + 1) r.append_entries_in_fly)
      then (r, [])
      else if failed
      then on_rpc_failed r
      else if not response.success
      then on_mismatch opts out sent response answered
      else on_success opts out sent response answered

  unfoldable pub on_heartbeat_returned :
      Options P N
      → Outside P
      → Bool
      → ℕ
      → Response
      → Replicator C
      → Replicator C × List (Effect P N C)
  unfolding quit update_last_rpc_send_timestamp
  on_heartbeat_returned opts out failed send_time response r =
      if failed
      then (
        record r { consecutive_error_times = r.consecutive_error_times + 1 },
        start_heartbeat_timer ∷ [],
      )
      else if ltb opts.term response.term
      then quit out response.term (record r { consecutive_error_times = 0 })
      else (
        update_last_rpc_send_timestamp send_time (record r { consecutive_error_times = 0 }),
        start_heartbeat_timer
            ∷ (if (response.readonly && r.readonly_index == 0)
                  || (not response.readonly && not (r.readonly_index == 0))
                then Replicator.change_readonly_config response.readonly ∷ []
                else []),
      )

  unfoldable pub on_install_snapshot_returned :
      Options P N → Outside P → Bool → ℕ → Bool → Replicator C → Replicator C × List (Effect P N C)
  unfolding block notify_on_caught_up timeout_now_if_reached send_entries
  on_install_snapshot_returned opts out failed last_included_index success r =
      let closed = record r { has_reader = false } in
      let closing = if r.has_reader then close_reader ∷ [] else [] in
      if failed
      then (record closed { consecutive_error_times = r.consecutive_error_times + 1 }, closing)
        ▸ block
      else if not success
      then (closed, closing) ▸ block
      else (record closed { next_index = last_included_index + 1; has_succeeded = true }, closing)
        ▸ notify_on_caught_up out none false
        ▸ timeout_now_if_reached
        ▸ send_entries opts out

  -- `_continue_sending`: the end of a block, and a waiter that is woken or stopped.
  unfoldable pub continue_sending :
      Options P N → Outside P → Code → Replicator C → Replicator C × List (Effect P N C)
  unfolding send_empty_entries send_entries
  continue_sending opts out etimedout r =
      if not (r.wait_id == 0) then (r, []) else send_empty_entries opts out false r
  continue_sending opts out estop r = (r, [])
  continue_sending opts out code r =
      if r.is_waiter_canceled then (r, []) else send_entries opts out (record r { wait_id = 0 })

  unfoldable pub on_block_timedout :
      Options P N → Outside P → Replicator C → Replicator C × List (Effect P N C)
  unfolding continue_sending
  on_block_timedout opts out r = continue_sending opts out etimedout (record r { st = idle })

  unfoldable pub transfer_leadership : ℕ → Replicator C → Replicator C × List (Effect P N C)
  unfolding min_flying_index send_timeout_now
  transfer_leadership log_index r =
      if r.has_succeeded && ltb log_index (min_flying_index r)
      then send_timeout_now false r
      else (record r { timeout_now_index = log_index }, [])

  unfoldable pub change_readonly_config :
      Options P N → Outside P → Bool → Replicator C → Replicator C × List (Effect P N C)
  unfolding wait_more_entries
  change_readonly_config opts out readonly r =
      if (readonly && not (r.readonly_index == 0)) || (not readonly && r.readonly_index == 0)
      then (r, [])
      else if readonly
      then (record r { readonly_index = out.last_log_index + 1 }, [])
      else wait_more_entries opts out (record r { readonly_index = 0 })

  unfoldable pub wait_new :
      Option (Catchup C)
      → Outside P
      → Bool
      → Bool
      → ℕ
      → C
      → Replicator C
      → Replicator C × List (Effect P N C)
  unfolding is_catchup
  wait_new (some c) out timed added max_margin closure r = (r, caught_up closure (some einval) ∷ [])
  wait_new none out timed added max_margin closure r =
      if r.has_succeeded && is_catchup out max_margin r
      then (r, caught_up closure none ∷ [])
      else if timed && not added
      then (r, caught_up closure (some einval) ∷ [])
      else (keep_waiting timed max_margin closure r, [])

  -- `timed` is whether there is a due time, and `added` whether its timer could be added.
  unfoldable pub wait_for_caught_up :
      Outside P → Bool → Bool → ℕ → C → Replicator C → Replicator C × List (Effect P N C)
  unfolding wait_new
  wait_for_caught_up out timed added max_margin closure r =
      wait_new r.catchup out timed added max_margin closure r

  -- `_on_catch_up_timedout`
  unfoldable pub on_catch_up_timedout :
      Outside P → Replicator C → Replicator C × List (Effect P N C)
  unfolding notify_on_caught_up
  on_catch_up_timedout out r = notify_on_caught_up out (some etimedout) false r

  -- `_on_error` with ESTOP; the RPCs that are no appends are cancelled too.
  unfoldable pub on_stop : Outside P → Replicator C → Replicator C × List (Effect P N C)
  unfolding cancel_append_entries_rpcs notify_on_caught_up
  on_stop out r =
      cancel_append_entries_rpcs r
      ▸ emit (remove_waiter r.wait_id ∷ [])
      ▸ notify_on_caught_up out (some estop) true
      ▸ change (λ r. record r { wait_id = 0 })
      ▸ emit (destroy ∷ [])
