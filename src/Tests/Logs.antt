-- ===== src/Tests/Logs.antt =====
-- The memory log and the log manager.
use quorumkit.Prelude.{
  ℕ, ◌+◌, ◌≡◌, ◌⊎◌, ◌≤◌, ◌<◌, refl, false, ◌&&◌, List, [], ◌∷◌, none, some, ◌==◌, if◌then◌else◌,
  arith,
}
use quorumkit.LogEntry.{LogEntry, user_data}
use quorumkit.ConfigurationManager.{new_manager}
use quorumkit.MemoryLog.{MemoryLog, get_entry, get_term, append_entry}
use quorumkit.MemoryLog.Valid.{Runs, IsValid}
use quorumkit.MemoryLog.Contents.{get_entry_lem, get_entry-append_entry}
use quorumkit.LogStorage.{memory_storage}
use quorumkit.LogManager.{LogManager}
use quorumkit.LogManager.Write.{append_entries, assign}
use quorumkit.LogManager.Snapshot.{SnapshotMeta, set_snapshot}
use quorumkit.LogManager.Conflict
use quorumkit.LogManager.Conflict.{Settled, Takes}
use quorumkit.LogManager.Follower.{append_entries-Takes}
use quorumkit.LogManager.Leader.{append_entries-assign}
use quorumkit.LogManager.Consistency.{Joins, set_snapshot-check_consistency}
use quorumkit.Tests.{number_peer}

abbrev written : ℕ → ℕ → LogEntry ℕ
written index term = record {
  type = user_data;
  id = record { index = index; term = term };
  peers = none;
  old_peers = none;
  content = [];
}

abbrev stored : MemoryLog ℕ
stored = record {
  first_log_index = 5;
  last_log_index = 7;
  log_entry_data = written 5 1 ∷ written 6 1 ∷ written 7 2 ∷ [];
}

stored-IsValid : IsValid stored
stored-IsValid = record { runs = (refl, (refl, (refl, tt))); ends = refl }

get_entry_lem_example :
    (5 ≤ 6
      → 6 ≤ 7
      → (e : LogEntry ℕ) × (get_entry stored 6 ≡ some e)
        × (e.id.index ≡ 6)
        × (get_term stored 6 ≡ e.id.term))
    × (((6 < 5) ⊎ (7 < 6)) → (get_entry stored 6 ≡ none) × (get_term stored 6 ≡ 0))
get_entry_lem_example = get_entry_lem stored 6 stored-IsValid

get_entry-append_entry_example :
    get_entry (append_entry stored (written 8 2)).1 8
    ≡ (if 8 == 7 + 1 && 8 == 8 then some (written 8 2) else get_entry stored 8)
get_entry-append_entry_example = get_entry-append_entry stored (written 8 2) 8 stored-IsValid

-- Entries 5 to 7 on the disk, 6 and 7 in memory too, and all up to 5 applied.
abbrev manager : LogManager ℕ (MemoryLog ℕ) ℕ ℕ
manager = record {
  storage = stored;
  config_manager = new_manager;
  stopped = false;
  has_error = false;
  next_wait_id = 0;
  wait_map = [];
  disk_id = record { index = 7; term = 2 };
  applied_id = record { index = 5; term = 1 };
  logs_in_memory = written 6 1 ∷ written 7 2 ∷ [];
  first_log_index = 5;
  last_log_index = 7;
  last_snapshot_id = record { index = 4; term = 1 };
  virtual_first_log_id = record { index = 4; term = 1 };
  disk_queue = [];
}

manager_IsValid : Conflict.IsValid manager
manager_IsValid = record {
  memory = record { start = 6; runs = (refl, (refl, tt)); ends = refl };
  virtual_le = omega arith;
  snapshot_le = omega arith;
  first_le = omega arith;
  applied_le = omega arith;
}

-- A new leader's entries: 6 is there, and 7 conflicts.
abbrev batch : List (LogEntry ℕ)
batch = written 7 3 ∷ written 8 3 ∷ []

batch-Settled : Settled manager (written 6 1 ∷ batch)
batch-Settled = (
  omega arith,
  (λ h. absurd (omega arith)),
  (omega arith, (λ h. absurd (omega arith)), (omega arith, (λ h. absurd (omega arith)), tt)),
)

append_entries-Takes_example :
    Takes manager (append_entries manager (written 6 1 ∷ batch) 0).0 6 (written 6 1 ∷ batch)
append_entries-Takes_example =
    append_entries-Takes manager (written 6 1) batch 0 refl manager_IsValid
      (refl, (refl, (refl, tt))) batch-Settled (omega arith) (omega arith) (omega arith)

append_entries-assign_example :
    Takes manager
      (append_entries manager (written 0 3 ∷ written 0 3 ∷ []) 0).0
      8
      (assign 7 (written 0 3 ∷ written 0 3 ∷ []))
    × ((append_entries manager (written 0 3 ∷ written 0 3 ∷ []) 0).0.last_log_index ≡ 7 + 2)
    × Runs 8 (assign 7 (written 0 3 ∷ written 0 3 ∷ []))
append_entries-assign_example =
    append_entries-assign manager (written 0 3) (written 0 3 ∷ []) 0 refl manager_IsValid refl

abbrev snapshot_at_six : SnapshotMeta ℕ
snapshot_at_six = record {
  last_included_index = 6;
  last_included_term = 1;
  peers = 1 ∷ 2 ∷ [];
  old_peers = [];
}

set_snapshot-check_consistency_example :
    (5 ≤ manager.last_snapshot_id.index + 1)
    × (5 ≤ 7)
    × Joins (set_snapshot manager snapshot_at_six) snapshot_at_six
unfolding quorumkit.LogManager.check_consistency quorumkit.LogEntry.id_eq
set_snapshot-check_consistency_example =
    set_snapshot-check_consistency manager snapshot_at_six refl (omega arith) (omega arith)
