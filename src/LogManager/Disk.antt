-- ===== src/LogManager/Disk.antt =====
-- The disk thread: `disk_thread`, `AppendBatcher` and `append_to_storage`. It takes a batch of tasks
-- from the front of the queue and here runs it in one step. The number of closures that a batch
-- holds and `FLAGS_raft_max_append_buffer_size` are arguments.
use quorumkit.Prelude.{
  ℕ, ◌+◌, ◌-◌, true, ◌||◌, List, [], ◌∷◌, ◌++◌, ltb, leb, ◌==◌, if◌then◌else◌, length, take, drop,
  get_elem?, Option, none, some, null,
}
use quorumkit.Errno.{Code, ok, eio}
use quorumkit.LogEntry.{LogId, LogEntry}
use quorumkit.LogStorage.{LogStorage}
use quorumkit.LogManager.{
  LogManager, Task, Event, store, report_last_id, cut_prefix, cut_suffix, start_over, run,
  tell_last_id, log_error, set_disk_id,
}

-- The batcher, its `last_id`, and the manager it writes for; `events` are oldest first.
pub record Batch (P S D W : Type 0) : Type 0 where
  pub manager : LogManager P S D W
  pub last_id : LogId
  pub closures : List D
  pub to_append : List (LogEntry P)
  pub buffer_size : ℕ
  pub events : List (Event D W)

-- `last_id` after `truncate_suffix` returned the code.
abbrev kept_or : LogId → LogId → Code → LogId
kept_or last_id kept ok = kept
kept_or last_id kept code = last_id

module _ {P : Type 0} where
  pub bytes_of : List (LogEntry P) → ℕ
  bytes_of [] = 0
  bytes_of (e ∷ es) = length e.content + bytes_of es

  -- The id of the last entry that was appended.
  abbrev pub id_or : LogId → Option (LogEntry P) → LogId
  id_or last_id none = last_id
  id_or last_id (some e) = e.id

module _ {D W : Type 0} where
  -- The closures of a batch run with the status that `has_error` gives them.
  pub run_each : Code → List D → List (Event D W)
  run_each code [] = []
  run_each code (d ∷ ds) = run d code ∷ run_each code ds

module _ {P S D W : Type 0} where
  -- `report_error`
  unfoldable pub report_error : Batch P S D W → Code → Batch P S D W
  report_error b code = record b {
    manager = record b.manager { has_error = true };
    events = b.events ++ (log_error code ∷ []);
  }

module _ {P S D W : Type 0} ⦃s : LogStorage P S⦄ where
  -- `append_to_storage`, which leaves `to_append` empty.
  unfoldable pub append_to_storage : Batch P S D W → Batch P S D W
  unfolding report_error
  append_to_storage b =
      let (nappent, storage) = s.append_entries b.manager.storage b.to_append in
      let written = record b { manager = record b.manager { storage = storage }; to_append = [] } in
      let reported = if nappent == length b.to_append then written else report_error written eio in
      if b.manager.has_error then record b { to_append = [] } else record reported {
        last_id =
            if ltb 0 nappent
            then id_or b.last_id (get_elem? b.to_append (nappent - 1))
            else b.last_id;
      }

  unfoldable pub flush : Batch P S D W → Batch P S D W
  unfolding append_to_storage run_each
  flush b =
      let written = append_to_storage b in
      let code = if written.manager.has_error then eio else ok in
      let flushed =
        if null b.closures
        then b
        else record written { events = written.events ++ run_each code b.closures } in
      record flushed { closures = []; buffer_size = 0 }

  -- `AppendBatcher::append`
  unfoldable pub batch : ℕ → ℕ → Batch P S D W → D → List (LogEntry P) → Batch P S D W
  unfolding flush bytes_of
  batch cap max_append_buffer_size b done entries =
      let b1 =
        if length b.closures == cap || leb max_append_buffer_size b.buffer_size
        then flush b
        else b in
      record b1 {
        closures = b1.closures ++ (done ∷ []);
        to_append = b1.to_append ++ entries;
        buffer_size = b1.buffer_size + bytes_of entries;
      }

  -- What an operation on the storage returned.
  unfoldable pub after_storage : Batch P S D W → Code × S → Batch P S D W
  unfolding report_error
  after_storage b (ok, storage) = record b { manager = record b.manager { storage = storage } }
  after_storage b (code, storage) =
      report_error (record b { manager = record b.manager { storage = storage } }) code

  -- One turn of the loop of `disk_thread`.
  unfoldable pub disk_task : ℕ → ℕ → Batch P S D W → Task P D → Batch P S D W
  unfolding batch after_storage
  disk_task cap max_size b (store done []) =
      let f = flush b in record f { events = f.events ++ (run done ok ∷ []) }
  disk_task cap max_size b (store done (e ∷ es)) = batch cap max_size b done (e ∷ es)
  disk_task cap max_size b (report_last_id done) =
      let f = flush b in record f { events = f.events ++ (tell_last_id done f.last_id ∷ []) }
  disk_task cap max_size b (cut_prefix first_index_kept) =
      let f = flush b in after_storage f (s.truncate_prefix f.manager.storage first_index_kept)
  disk_task cap max_size b (cut_suffix kept) =
      let f = flush b in
      let result = s.truncate_suffix f.manager.storage kept.index in
      after_storage (record f { last_id = kept_or f.last_id kept result.0 }) result
  disk_task cap max_size b (start_over next_log_index) =
      let f = flush b in after_storage f (s.reset f.manager.storage next_log_index)

  pub disk_tasks : ℕ → ℕ → Batch P S D W → List (Task P D) → Batch P S D W
  disk_tasks cap max_size b [] = b
  disk_tasks cap max_size b (t ∷ ts) = disk_tasks cap max_size (disk_task cap max_size b t) ts

  -- `disk_thread` on the first `n` tasks.
  unfoldable pub disk_thread :
      ℕ → ℕ → ℕ → LogManager P S D W → LogManager P S D W × List (Event D W)
  unfolding disk_tasks set_disk_id
  disk_thread cap max_size n lm =
      let start : Batch P S D W = record {
        manager = record lm { disk_queue = drop n lm.disk_queue };
        last_id = lm.disk_id;
        closures = [];
        to_append = [];
        buffer_size = 0;
        events = [];
      } in
      let finish = flush (disk_tasks cap max_size start (take n lm.disk_queue)) in
      (set_disk_id finish.manager finish.last_id, finish.events)
