-- ===== src/LogStorage.antt =====
-- src/braft/storage.h: what a log manager asks of its log storage. `MemoryLog` is one instance.
use quorumkit.Prelude.{ℕ, List, Option}
use quorumkit.Errno.{Code, ok}
use quorumkit.LogEntry.{LogEntry}
use quorumkit.MemoryLog.{MemoryLog}
use quorumkit.MemoryLog

pub record LogStorage (P S : Type 0) : Type 0 where
  pub first_log_index : S → ℕ
  pub last_log_index : S → ℕ
  pub get_entry : S → ℕ → Option (LogEntry P)
  pub get_term : S → ℕ → ℕ
  -- How many entries were appended.
  pub append_entries : S → List (LogEntry P) → ℕ × S
  pub truncate_prefix : S → ℕ → Code × S
  pub truncate_suffix : S → ℕ → Code × S
  pub reset : S → ℕ → Code × S

instance abbrev pub memory_storage : {P : Type 0} → LogStorage P (MemoryLog P)
memory_storage = record {
  first_log_index = λ s. s.first_log_index;
  last_log_index = λ s. s.last_log_index;
  get_entry = MemoryLog.get_entry;
  get_term = MemoryLog.get_term;
  append_entries = MemoryLog.append_entries;
  truncate_prefix = λ s k. (ok, MemoryLog.truncate_prefix s k);
  truncate_suffix = λ s k. (ok, MemoryLog.truncate_suffix s k);
  reset = MemoryLog.reset;
}
