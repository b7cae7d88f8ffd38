-- ===== src/LogEntry.antt =====
-- src/braft/log_entry.h: log identifiers and log entries. An index or a term is a natural number
-- (`int64_t`, at least 0). The content of a `butil::IOBuf` is the list of its bytes.
pub mod Order
use quorumkit.Prelude.{ℕ, Bool, not, ◌&&◌, List, Option, ltb, ◌==◌, if◌then◌else◌}

pub record LogId : Type 0 where
  pub index : ℕ
  pub term : ℕ

-- `EntryType` of enum.proto; `user_data` is ENTRY_TYPE_DATA.
pub data EntryType : Type 0 where
  unknown no_op user_data configuration : EntryType

pub record LogEntry (P : Type 0) : Type 0 where
  pub type : EntryType
  pub id : LogId
  pub peers : Option (List P)
  pub old_peers : Option (List P)
  pub content : List ℕ

abbrev pub no_id : LogId
no_id = record { index = 0; term = 0 }

unfoldable pub id_eq : LogId → LogId → Bool
id_eq a b = a.index == b.index && a.term == b.term

unfoldable pub id_ne : LogId → LogId → Bool
unfolding id_eq
id_ne a b = not (id_eq a b)

unfoldable pub id_lt : LogId → LogId → Bool
id_lt a b = if a.term == b.term then ltb a.index b.index else ltb a.term b.term

unfoldable pub id_gt : LogId → LogId → Bool
id_gt a b = if a.term == b.term then ltb b.index a.index else ltb b.term a.term

unfoldable pub id_le : LogId → LogId → Bool
unfolding id_gt
id_le a b = not (id_gt a b)

unfoldable pub id_ge : LogId → LogId → Bool
unfolding id_lt
id_ge a b = not (id_lt a b)

-- `std::min` on `LogId`: the second only if it is less.
unfoldable pub id_min : LogId → LogId → LogId
unfolding id_lt
id_min a b = if id_lt b a then b else a
