-- ===== src/Replicator/Send.antt =====
-- What a replicator sends: `_send_entries`, `_send_empty_entries`, `_wait_more_entries` and
-- `_install_snapshot`.
use quorumkit.Prelude.{
  map, ℕ, zero, suc, ◌+◌, ◌-◌, Bool, true, false, not, ◌&&◌, ◌||◌, List, [], ◌∷◌, ◌++◌, Option,
  none, some, ltb, leb, ◌==◌, if◌then◌else◌, length, null,
}
use quorumkit.Errno.{Code, ok, is_ok, erange, enoent, ereadonly}
use quorumkit.LogEntry.{LogEntry, EntryType, configuration}
use quorumkit.Node.Append.{EntryMeta, AppendEntriesRequest}
use quorumkit.Replicator.{
  Flying, Opening, throttled, not_opened, no_uri, no_meta, opened, Replicator, Options, Outside,
  Effect, idle, appending_entries, installing_snapshot, is_blocking, wait, close_reader,
  fail_snapshot, install_snapshot, ◌▸◌, change, emit, reset_next_index, block,
}
use quorumkit.Replicator

abbrev pub is_configuration : EntryType → Bool
is_configuration configuration = true
is_configuration t = false

abbrev pub or_nil : {P : Type 0} → Option (List P) → List P
or_nil none = []
or_nil (some ps) = ps

-- The old peers are sent only where there are peers.
abbrev pub old_of : {P : Type 0} → Option (List P) → Option (List P) → List P
old_of none old = []
old_of (some ps) old = or_nil old

abbrev pub is_readonly : Code → Bool
is_readonly ereadonly = true
is_readonly code = false

-- What `_prepare_entry` fills in: one entry, or none and why.
pub record Prepared (N : Type 0) : Type 0 where
  pub code : Code
  pub entries : List (EntryMeta N)
  pub attachment : List ℕ
  pub readonly_index : ℕ

module _ {N : Type 0} where
  abbrev pub stops : Code → List ℕ → ℕ → Prepared N
  stops code body readonly_index = record {
    code = code;
    entries = [];
    attachment = body;
    readonly_index = readonly_index;
  }

module _ {P : Type 0} where
  -- `_fill_common_fields`: the previous index and term, or none for an entry that is compacted.
  unfoldable pub fill_common_fields : Outside P → ℕ → Bool → Option (ℕ × ℕ)
  fill_common_fields out prev_log_index is_heartbeat =
      let prev_log_term = out.get_term prev_log_index in
      if prev_log_term == 0 && not (prev_log_index == 0)
      then (if is_heartbeat then some (0, prev_log_term) else none)
      else some (prev_log_index, prev_log_term)

module _ {P N : Type 0} where
  abbrev pub takes : (P → N) → Bool → ℕ → LogEntry P → List ℕ → Prepared N
  takes to_string with_data readonly_index e body = record {
    code = ok;
    entries =
        record {
          type = e.type;
          term = e.id.term;
          peers = map to_string (or_nil e.peers);
          old_peers = map to_string (old_of e.peers e.old_peers);
          data_len = if with_data then some (length e.content) else none;
        }
        ∷ [];
    attachment = if with_data then body ++ e.content else body;
    readonly_index = readonly_index;
  }

  -- From the readonly index on, only the entries of a configuration are sent.
  unfoldable pub prepare_read : Options P N → ℕ → Option (LogEntry P) → List ℕ → ℕ → Prepared N
  prepare_read opts log_index none body readonly_index = stops enoent body readonly_index
  prepare_read opts log_index (some e) body readonly_index =
      let with_data = not opts.peer_is_witness || opts.enable_witness_to_leader in
      if not (readonly_index == 0) && leb readonly_index log_index
      then (if is_configuration e.type
          then takes opts.to_string with_data (log_index + 1) e body
          else stops ereadonly body readonly_index)
      else takes opts.to_string with_data readonly_index e body

  unfoldable pub prepare_entry : Options P N → Outside P → ℕ → List ℕ → ℕ → Prepared N
  unfolding prepare_read
  prepare_entry opts out log_index body readonly_index =
      if leb opts.max_body_size (length body)
      then stops erange body readonly_index
      else prepare_read opts log_index (out.get_entry log_index) body readonly_index

  -- The loop of `_send_entries`.
  unfoldable pub prepare_entries : Options P N → Outside P → ℕ → ℕ → List ℕ → ℕ → Prepared N
  unfolding prepare_entry
  prepare_entries opts out zero log_index body readonly_index = stops ok body readonly_index
  prepare_entries opts out (suc n) log_index body readonly_index =
      let p = prepare_entry opts out log_index body readonly_index in
      let rest = prepare_entries opts out n (log_index + 1) p.attachment p.readonly_index in
      if is_ok p.code then record rest { entries = p.entries ++ rest.entries } else p

  abbrev pub request_of :
      Options P N → Outside P → ℕ × ℕ → List (EntryMeta N) → List ℕ → AppendEntriesRequest N
  request_of opts out prev entries attachment = record {
    server_id = opts.server_id;
    term = opts.term;
    prev_log_index = prev.0;
    prev_log_term = prev.1;
    committed_index = out.last_committed_index;
    entries = entries;
    attachment = attachment;
  }

module _ {P N C : Type 0} where
  abbrev pub with_opening : Opening → Replicator C → Replicator C × List (Effect P N C)
  with_opening throttled r = block r
  with_opening not_opened r = (record r { st = installing_snapshot }, fail_snapshot ∷ [])
  with_opening no_uri r =
      emit (close_reader ∷ []) (record r { st = installing_snapshot; has_reader = false }) ▸ block
  with_opening no_meta r =
      (record r { st = installing_snapshot; has_reader = true }, fail_snapshot ∷ [])
  with_opening (opened last_included_index) r = (
    record r { st = installing_snapshot; has_reader = true },
    install_snapshot last_included_index ∷ [],
  )

  unfoldable pub start_install :
      Options P N → Outside P → Replicator C → Replicator C × List (Effect P N C)
  unfolding block
  start_install opts out r =
      if opts.node_is_witness
      then block r
      else if r.has_reader
      then (r, [])
      else with_opening out.opening r

  unfoldable pub wait_more_entries :
      Options P N → Outside P → Replicator C → Replicator C × List (Effect P N C)
  wait_more_entries opts out r =
      (if r.wait_id == 0
          && ltb r.flying_append_entries_size opts.max_entries_size
          && ltb (length r.append_entries_in_fly) opts.max_parallel_append_entries_rpc_num
        then (
          record r { wait_id = out.wait_id; is_waiter_canceled = false },
          wait (r.next_index - 1) ∷ [],
        )
        else (r, []))
      ▸ change λ r. if r.flying_append_entries_size == 0 then record r { st = idle } else r

  -- A probe, which takes no entries.
  unfoldable pub send_probe :
      Options P N → Outside P → Option (ℕ × ℕ) → Replicator C → Replicator C × List (Effect P N C)
  unfolding start_install
  send_probe opts out none r = start_install opts out r
  send_probe opts out (some prev) r = (
    record r {
      st = appending_entries;
      append_entries_in_fly =
          r.append_entries_in_fly
          ++ (record { log_index = r.next_index; entries_size = 0; call_id = out.call_id } ∷ []);
    },
    Replicator.append_entries out.call_id (request_of opts out prev [] []) ∷ [],
  )

  abbrev pub beat :
      Options P N → Outside P → Option (ℕ × ℕ) → Replicator C → Replicator C × List (Effect P N C)
  beat opts out none r = (r, [])
  beat opts out (some prev) r =
      (r, Replicator.append_entries out.call_id (request_of opts out prev [] []) ∷ [])

  unfoldable pub send_empty_entries :
      Options P N → Outside P → Bool → Replicator C → Replicator C × List (Effect P N C)
  unfolding send_probe fill_common_fields
  send_empty_entries opts out is_heartbeat r =
      let prev = fill_common_fields out (r.next_index - 1) is_heartbeat in
      if is_heartbeat then beat opts out prev r else send_probe opts out prev r

  unfoldable pub send_prepared :
      Options P N
      → Outside P
      → ℕ × ℕ
      → Prepared N
      → Replicator C
      → Replicator C × List (Effect P N C)
  unfolding wait_more_entries
  send_prepared opts out prev p r =
      let n = length p.entries in
      (
        record r {
          append_entries_in_fly =
              r.append_entries_in_fly
              ++ (record { log_index = r.next_index; entries_size = n; call_id = out.call_id }
                  ∷ []);
          next_index = r.next_index + n;
          flying_append_entries_size = r.flying_append_entries_size + n;
          st = appending_entries;
        },
        Replicator.append_entries out.call_id (request_of opts out prev p.entries p.attachment)
            ∷ [],
      )
      ▸ wait_more_entries opts out

  -- There is no entry to send.
  unfoldable pub send_none :
      Options P N → Outside P → Code → Replicator C → Replicator C × List (Effect P N C)
  unfolding wait_more_entries start_install reset_next_index
  send_none opts out code r =
      if ltb r.next_index out.first_log_index
      then reset_next_index r ▸ start_install opts out
      else if is_readonly code
      then (if r.flying_append_entries_size == 0 then record r { st = idle } else r, [])
      else wait_more_entries opts out r

  unfoldable pub send_from :
      Options P N → Outside P → Option (ℕ × ℕ) → Replicator C → Replicator C × List (Effect P N C)
  unfolding prepare_entries send_none send_prepared
  send_from opts out none r = reset_next_index r ▸ start_install opts out
  send_from opts out (some prev) r =
      let p =
        prepare_entries opts out (opts.max_entries_size - r.flying_append_entries_size) r.next_index
          [] r.readonly_index in
      let m = record r { readonly_index = p.readonly_index } in
      if null p.entries then send_none opts out p.code m else send_prepared opts out prev p m

  unfoldable pub send_entries :
      Options P N → Outside P → Replicator C → Replicator C × List (Effect P N C)
  unfolding send_from fill_common_fields
  send_entries opts out r =
      if leb opts.max_entries_size r.flying_append_entries_size
        || leb opts.max_parallel_append_entries_rpc_num (length r.append_entries_in_fly)
        || is_blocking r.st
      then (r, [])
      else send_from opts out (fill_common_fields out (r.next_index - 1) false) r
