-- ===== src/LogManager.antt =====
-- src/braft/log_manager.h and log_manager.cpp: the log of a node, its recent entries in memory and
-- all of them behind a queue of writes to the storage. Each method is one step under `_mutex`. What
-- a method starts elsewhere is in its result: a task for the disk thread stands in `disk_queue`, a
-- closure that runs, a waiter that is woken and an error for the applier are events. A CHECK or a
-- LOG(FATAL) logs, and what stands after it runs. Metrics and reference counts are left out.
pub mod Write
pub mod Snapshot
pub mod Disk
pub mod Waiters
pub mod Conflict
pub mod Consistency
pub mod Terms
pub mod Follower
pub mod Leader
use quorumkit.Prelude.{
  ℕ, suc, ◌+◌, ◌-◌, Bool, true, false, not, ◌&&◌, ◌||◌, List, [], ◌∷◌, ◌++◌, Option, none, some,
  ltb, leb, ◌==◌, if◌then◌else◌, get_elem?, last_or, drop_while,
}
use quorumkit.Errno.{Code, ok, eio, einval, estop}
use quorumkit.LogEntry.{LogId, LogEntry, id_lt, id_gt, id_min, id_eq, no_id}
use quorumkit.ConfigurationManager.{ConfigurationEntry, ConfigurationManager}
use quorumkit.ConfigurationManager
use quorumkit.LogStorage.{LogStorage}

-- A `StableClosure` in the disk queue; `D` is the closure of a caller.
pub data Task (P D : Type 0) : Type 0 where
  store : D → List (LogEntry P) → Task P D
  report_last_id : D → Task P D
  cut_prefix : ℕ → Task P D
  cut_suffix : LogId → Task P D
  start_over : ℕ → Task P D

pub data Event (D W : Type 0) : Type 0 where
  run : D → Code → Event D W
  tell_last_id : D → LogId → Event D W
  wake : W → Code → Event D W
  log_error : Code → Event D W

pub record LogManager (P S D W : Type 0) : Type 0 where
  pub storage : S
  pub config_manager : ConfigurationManager P
  pub stopped : Bool
  pub has_error : Bool
  pub next_wait_id : ℕ
  pub wait_map : List (ℕ × W)
  pub disk_id : LogId
  pub applied_id : LogId
  pub logs_in_memory : List (LogEntry P)
  pub first_log_index : ℕ
  pub last_log_index : ℕ
  pub last_snapshot_id : LogId
  pub virtual_first_log_id : LogId
  pub disk_queue : List (Task P D)

module _ {P : Type 0} where
  -- The deque in memory holds consecutive indexes, from that of its front.
  pub from_memory : List (LogEntry P) → ℕ → Option (LogEntry P)
  from_memory [] index = none
  from_memory (e ∷ es) index =
      if leb e.id.index index && leb index (last_or e es).id.index
      then get_elem? (e ∷ es) (index - e.id.index)
      else none

module _ {P S : Type 0} ⦃s : LogStorage P S⦄ where
  -- The term of an entry found in memory, or else what the storage says.
  or_stored : S → ℕ → Option (LogEntry P) → ℕ
  or_stored storage index none = s.get_term storage index
  or_stored storage index (some e) = e.id.term

module _ {P S D W : Type 0} ⦃s : LogStorage P S⦄ where
  -- `init` on a new manager.
  unfoldable pub init : LogManager P S D W → S → ConfigurationManager P → LogManager P S D W
  init lm storage config_manager = record lm {
    storage = storage;
    config_manager = config_manager;
    first_log_index = s.first_log_index storage;
    last_log_index = s.last_log_index storage;
    disk_id = record {
      index = s.last_log_index storage;
      term = s.get_term storage (s.last_log_index storage);
    };
  }

  unfoldable pub get_entry_from_memory : LogManager P S D W → ℕ → Option (LogEntry P)
  unfolding from_memory
  get_entry_from_memory lm index = from_memory lm.logs_in_memory index

  unfoldable pub unsafe_get_term : LogManager P S D W → ℕ → ℕ
  unfolding or_stored get_entry_from_memory
  unsafe_get_term lm index =
      if index == 0
      then 0
      else if index == lm.virtual_first_log_id.index
      then lm.virtual_first_log_id.term
      else if index == lm.last_snapshot_id.index
      then lm.last_snapshot_id.term
      else if ltb lm.last_log_index index || ltb index lm.first_log_index
      then 0
      else or_stored lm.storage index (get_entry_from_memory lm index)

  -- `get_term` repeats `unsafe_get_term`, and reads the storage with the mutex released.
  unfoldable pub get_term : LogManager P S D W → ℕ → ℕ
  unfolding unsafe_get_term
  get_term lm index = unsafe_get_term lm index

  -- `last_log_id(false)`
  unfoldable pub last_log_id : LogManager P S D W → LogId
  unfolding unsafe_get_term
  last_log_id lm =
      if leb lm.first_log_index lm.last_log_index
      then record { index = lm.last_log_index; term = unsafe_get_term lm lm.last_log_index }
      else lm.last_snapshot_id

  -- `last_log_id(true)`: answered at once, or by the disk thread when it reaches the task.
  unfoldable pub flush_last_log_id : LogManager P S D W → D → LogManager P S D W × Option LogId
  flush_last_log_id lm done =
      if lm.last_log_index == lm.last_snapshot_id.index
      then (lm, some lm.last_snapshot_id)
      else (record lm { disk_queue = lm.disk_queue ++ (report_last_id done ∷ []) }, none)

  -- The entry, read from memory or from the storage; a missing one is reported to the applier.
  stored_entry :
      LogManager P S D W
      → Option (LogEntry P)
      → LogManager P S D W × Option (LogEntry P) × List (Event D W)
  stored_entry lm (some e) = (lm, some e, [])
  stored_entry lm none = (record lm { has_error = true }, none, log_error eio ∷ [])

  or_read :
      LogManager P S D W
      → ℕ
      → Option (LogEntry P)
      → LogManager P S D W × Option (LogEntry P) × List (Event D W)
  unfolding stored_entry
  or_read lm index (some e) = (lm, some e, [])
  or_read lm index none = stored_entry lm (s.get_entry lm.storage index)

  unfoldable pub get_entry :
      LogManager P S D W → ℕ → LogManager P S D W × Option (LogEntry P) × List (Event D W)
  unfolding or_read get_entry_from_memory
  get_entry lm index =
      if ltb lm.last_log_index index || ltb index lm.first_log_index
      then (lm, none, [])
      else or_read lm index (get_entry_from_memory lm index)

module _ {P S D W : Type 0} where
  unfoldable pub get_configuration : LogManager P S D W → ℕ → ConfigurationEntry P
  get_configuration lm index = ConfigurationManager.get lm.config_manager index

  -- The caller's configuration after the call, and whether it was replaced.
  unfoldable pub check_and_set_configuration :
      LogManager P S D W → ConfigurationEntry P → ConfigurationEntry P × Bool
  check_and_set_configuration lm current =
      let last_conf = ConfigurationManager.last_configuration lm.config_manager in
      if id_eq current.id last_conf.id then (current, false) else (last_conf, true)

  -- `clear_memory_logs` takes batches of 256 and gives up the mutex between them; the batches end with
  -- the first entry after `id`.
  unfoldable pub clear_memory_logs : LogManager P S D W → LogId → LogManager P S D W
  clear_memory_logs lm id = record lm {
    logs_in_memory = drop_while (λ e. not (id_gt e.id id)) lm.logs_in_memory;
  }

  unfoldable pub set_disk_id : LogManager P S D W → LogId → LogManager P S D W
  unfolding clear_memory_logs
  set_disk_id lm disk_id =
      if id_lt disk_id lm.disk_id
      then lm
      else clear_memory_logs (record lm { disk_id = disk_id }) (id_min disk_id lm.applied_id)

  unfoldable pub set_applied_id : LogManager P S D W → LogId → LogManager P S D W
  unfolding clear_memory_logs
  set_applied_id lm applied_id =
      if id_lt applied_id lm.applied_id
      then lm
      else clear_memory_logs (record lm { applied_id = applied_id }) (id_min lm.disk_id applied_id)

  unfoldable pub check_consistency : LogManager P S D W → Code
  check_consistency lm =
      if id_eq lm.last_snapshot_id no_id
      then (if lm.first_log_index == 1 then ok else eio)
      else (if leb lm.first_log_index (lm.last_snapshot_id.index + 1)
            && leb lm.last_snapshot_id.index lm.last_log_index
          then ok
          else eio)
