-- ===== src/LogManager/Write.antt =====
-- Writing to the log: `append_entries` with `check_and_resolve_conflict`, `unsafe_truncate_suffix`,
-- and the private `truncate_prefix` and `reset`.
use quorumkit.Prelude.{
  ℕ, ◌+◌, ◌-◌, List, [], ◌∷◌, ◌++◌, ltb, leb, ◌==◌, if◌then◌else◌, drop_while, drop_while_end,
  last_or,
}
use quorumkit.Errno.{Code, ok, einval, eio}
use quorumkit.Peer.{PeerOrder}
use quorumkit.LogEntry.{LogId, LogEntry, EntryType, unknown, no_op, user_data, configuration}
use quorumkit.ConfigurationManager.{ConfigurationManager, of_log_entry}
use quorumkit.ConfigurationManager
use quorumkit.LogStorage.{LogStorage}
use quorumkit.LogManager.{
  LogManager, Event, store, cut_prefix, cut_suffix, start_over, run, unsafe_get_term,
}
use quorumkit.LogManager.Waiters.{wakeup_all_waiter}

-- What `check_and_resolve_conflict` returns: 0 with the entries left to append; -1 with the status
-- of the closure, which runs; or 1, where the closure runs as it is.
pub data Resolved (P : Type 0) : Type 0 where
  proceed : List (LogEntry P) → Resolved P
  refuse : Code → Resolved P
  duplicate : Resolved P

module _ {P S D W : Type 0} where
  unfoldable pub truncate_prefix : LogManager P S D W → ℕ → LogManager P S D W
  truncate_prefix lm first_index_kept = record lm {
    logs_in_memory = drop_while (λ e. ltb e.id.index first_index_kept) lm.logs_in_memory;
    first_log_index = first_index_kept;
    last_log_index =
        if ltb lm.last_log_index first_index_kept then first_index_kept - 1 else lm.last_log_index;
    config_manager = ConfigurationManager.truncate_prefix lm.config_manager first_index_kept;
    disk_queue = lm.disk_queue ++ (cut_prefix first_index_kept ∷ []);
  }

  -- `next_log_index` is positive at its caller.
  unfoldable pub reset : LogManager P S D W → ℕ → LogManager P S D W
  reset lm next_log_index = record lm {
    logs_in_memory = [];
    first_log_index = next_log_index;
    last_log_index = next_log_index - 1;
    config_manager =
        ConfigurationManager.truncate_suffix
          (ConfigurationManager.truncate_prefix lm.config_manager next_log_index)
          (next_log_index - 1);
    disk_queue = lm.disk_queue ++ (start_over next_log_index ∷ []);
  }

module _ {P S D W : Type 0} ⦃s : LogStorage P S⦄ where
  -- What stands before the read of the term that is kept.
  unfoldable pub cut_memory : LogManager P S D W → ℕ → LogManager P S D W
  cut_memory lm last_index_kept = record lm {
    logs_in_memory = drop_while_end (λ e. ltb last_index_kept e.id.index) lm.logs_in_memory;
    last_log_index = last_index_kept;
  }

  unfoldable pub unsafe_truncate_suffix : LogManager P S D W → ℕ → LogManager P S D W
  unfolding cut_memory
  unsafe_truncate_suffix lm last_index_kept =
      let cut = cut_memory lm last_index_kept in
      let kept : LogId = record {
        index = last_index_kept;
        term = unsafe_get_term cut last_index_kept;
      } in
      if ltb last_index_kept lm.applied_id.index then lm else record cut {
        config_manager = ConfigurationManager.truncate_suffix lm.config_manager last_index_kept;
        disk_queue = lm.disk_queue ++ (cut_suffix kept ∷ []);
      }

module _ {P : Type 0} where
  -- The leader's entries get the indexes after `last`.
  unfoldable pub assign : ℕ → List (LogEntry P) → List (LogEntry P)
  assign last [] = []
  assign last (e ∷ es) = record e { id = record e.id { index = last + 1 } } ∷ assign (last + 1) es

module _ {P S D W : Type 0} ⦃s : LogStorage P S⦄ where
  -- The entries from the first one whose term is not the local one.
  unfoldable pub from_conflict : LogManager P S D W → List (LogEntry P) → List (LogEntry P)
  from_conflict lm es = drop_while (λ e. unsafe_get_term lm e.id.index == e.id.term) es

  -- The branch in which the entries overlap the local ones, with the entries from the conflict on.
  unfoldable pub truncate_conflict : LogManager P S D W → ℕ → List (LogEntry P) → LogManager P S D W
  unfolding unsafe_truncate_suffix
  truncate_conflict lm back [] = lm
  truncate_conflict lm back (e ∷ es) =
      let cut =
        if leb e.id.index lm.last_log_index
        then unsafe_truncate_suffix lm (e.id.index - 1)
        else lm in
      record cut { last_log_index = back }

  unfoldable pub check_and_resolve_conflict :
      LogManager P S D W → LogEntry P → List (LogEntry P) → LogManager P S D W × Resolved P
  unfolding assign from_conflict truncate_conflict
  check_and_resolve_conflict lm e es =
      let back = (last_or e es).id.index in
      let assigned = assign lm.last_log_index (e ∷ es) in
      let rest = from_conflict lm (e ∷ es) in
      if e.id.index == 0
      then (record lm { last_log_index = (last_or e assigned).id.index }, proceed assigned)
      else if ltb (lm.last_log_index + 1) e.id.index
      then (lm, refuse einval)
      else if leb back lm.applied_id.index
      then (lm, duplicate)
      else if e.id.index == lm.last_log_index + 1
      then (record lm { last_log_index = back }, proceed (e ∷ es))
      else (truncate_conflict lm back rest, proceed rest)

module _ {P : Type 0} ⦃o : PeerOrder P⦄ where
  abbrev add_if_configuration :
      EntryType → LogEntry P → ConfigurationManager P → ConfigurationManager P
  add_if_configuration unknown e m = m
  add_if_configuration no_op e m = m
  add_if_configuration user_data e m = m
  add_if_configuration configuration e m = (ConfigurationManager.add m (of_log_entry e)).1

  unfoldable pub add_configurations :
      ConfigurationManager P → List (LogEntry P) → ConfigurationManager P
  add_configurations m [] = m
  add_configurations m (e ∷ es) = add_configurations (add_if_configuration e.type e m) es

module _ {P S D W : Type 0} ⦃o : PeerOrder P⦄ where
  -- What `append_entries` does once the conflicts are resolved.
  unfoldable pub append_resolved :
      LogManager P S D W → List (LogEntry P) → D → LogManager P S D W × List (Event D W)
  unfolding add_configurations wakeup_all_waiter
  append_resolved lm es done = wakeup_all_waiter (record lm {
    config_manager = add_configurations lm.config_manager es;
    logs_in_memory = lm.logs_in_memory ++ es;
    disk_queue = lm.disk_queue ++ (store done es ∷ []);
  })

  unfoldable pub after_check :
      LogManager P S D W → Resolved P → D → LogManager P S D W × List (Event D W)
  unfolding append_resolved
  after_check lm (proceed es) done = append_resolved lm es done
  after_check lm (refuse code) done = (lm, run done code ∷ [])
  after_check lm duplicate done = (lm, run done ok ∷ [])

module _ {P S D W : Type 0} ⦃o : PeerOrder P⦄ ⦃s : LogStorage P S⦄ where
  unfoldable pub resolve_and_append :
      LogManager P S D W → List (LogEntry P) → D → LogManager P S D W × List (Event D W)
  unfolding after_check check_and_resolve_conflict
  resolve_and_append lm [] done = append_resolved lm [] done
  resolve_and_append lm (e ∷ es) done =
      let (checked, resolved) = check_and_resolve_conflict lm e es in
      after_check checked resolved done

  unfoldable pub append_entries :
      LogManager P S D W → List (LogEntry P) → D → LogManager P S D W × List (Event D W)
  unfolding resolve_and_append
  append_entries lm es done =
      if lm.has_error then (lm, run done eio ∷ []) else resolve_and_append lm es done
