-- ===== src/MemoryLog.antt =====
-- src/braft/memory_log.cpp: the log storage that keeps its entries in a deque. Each method is one
-- step under `_mutex`. A CHECK that fails logs, and what stands after it runs; the reference counts
-- of the entries and the unused `IOMetric*` are left out.
pub mod Valid
pub mod Contents
use quorumkit.Prelude.{
  ℕ, ◌+◌, ◌-◌, Bool, ◌||◌, List, [], ◌∷◌, ◌++◌, Option, none, some, ltb, leb, ◌==◌, if◌then◌else◌,
  length, get_elem?, drop_while, drop_while_end,
}
use quorumkit.Errno.{Code, ok, einval, erange}
use quorumkit.LogEntry.{LogEntry}

pub record MemoryLog (P : Type 0) : Type 0 where
  pub first_log_index : ℕ
  pub last_log_index : ℕ
  pub log_entry_data : List (LogEntry P)

module _ {P : Type 0} where
  unfoldable pub init : MemoryLog P → MemoryLog P
  init s = record s { first_log_index = 1; last_log_index = 0 }

  unfoldable pub get_entry : MemoryLog P → ℕ → Option (LogEntry P)
  get_entry s index =
      if ltb index s.first_log_index || ltb s.last_log_index index
      then none
      else get_elem? s.log_entry_data (index - s.first_log_index)

  -- The term of the entry that is read; the C++ reads past the deque where there is none.
  abbrev pub term_of : Option (LogEntry P) → ℕ
  term_of none = 0
  term_of (some e) = e.id.term

  unfoldable pub get_term : MemoryLog P → ℕ → ℕ
  get_term s index =
      if ltb index s.first_log_index || ltb s.last_log_index index
      then 0
      else term_of (get_elem? s.log_entry_data (index - s.first_log_index))

  unfoldable pub append_entry : MemoryLog P → LogEntry P → Code × MemoryLog P
  append_entry s e =
      if e.id.index == s.last_log_index + 1
      then (
        ok,
        record s {
          log_entry_data = s.log_entry_data ++ (e ∷ []);
          last_log_index = s.last_log_index + 1;
        },
      )
      else (erange, s)

  -- The loop of `append_entries`, which ignores what `append_entry` returns.
  pub append_each : MemoryLog P → List (LogEntry P) → MemoryLog P
  append_each s [] = s
  append_each s (e ∷ es) = append_each (append_entry s e).1 es

  unfoldable pub append_entries : MemoryLog P → List (LogEntry P) → ℕ × MemoryLog P
  unfolding append_each
  append_entries s es = (length es, append_each s es)

  unfoldable pub truncate_prefix : MemoryLog P → ℕ → MemoryLog P
  truncate_prefix s first_index_kept = record {
    first_log_index = first_index_kept;
    last_log_index =
        if ltb s.last_log_index first_index_kept then first_index_kept - 1 else s.last_log_index;
    log_entry_data = drop_while (λ e. ltb e.id.index first_index_kept) s.log_entry_data;
  }

  unfoldable pub truncate_suffix : MemoryLog P → ℕ → MemoryLog P
  truncate_suffix s last_index_kept = record {
    first_log_index =
        if ltb last_index_kept s.first_log_index then last_index_kept + 1 else s.first_log_index;
    last_log_index = last_index_kept;
    log_entry_data = drop_while_end (λ e. ltb last_index_kept e.id.index) s.log_entry_data;
  }

  unfoldable pub reset : MemoryLog P → ℕ → Code × MemoryLog P
  reset s next_log_index = if next_log_index == 0 then (einval, s) else (
    ok,
    record {
      first_log_index = next_log_index;
      last_log_index = next_log_index - 1;
      log_entry_data = [];
    },
  )
