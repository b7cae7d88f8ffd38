-- ===== src/FsmCaller.antt =====
-- src/braft/fsm_caller.h and fsm_caller.cpp: the state machine caller. One thread takes tasks from a
-- queue and calls the user's state machine: committed entries in order, snapshots, and changes of
-- leader. What it calls and the closures it runs are kept in order in `calls`. The user's code is the
-- instance `UserMachine`. A CHECK that fails logs, and what stands after it runs. Reference counts
-- and metrics are left out.
pub mod Iterate
pub mod Tasks
pub mod Loop
pub mod Replay
pub mod Progress
pub mod Fault
use quorumkit.Prelude.{
  ℕ, Bool, true, false, not, List, [], ◌∷◌, ◌++◌, Option, none, some, if◌then◌else◌,
}
use quorumkit.Errno.{Code, ok, is_ok, einval}
use quorumkit.LogEntry.{LogId, LogEntry}
use quorumkit.ClosureQueue.{ClosureQueue}
use quorumkit.LogManager.{LogManager, Event}

-- `ErrorType` of enum.proto.
pub data ErrorType : Type 0 where
  error_none error_log error_stable error_snapshot error_state_machine : ErrorType

pub record Error : Type 0 where
  pub type : ErrorType
  pub status : Code

abbrev pub no_error : Error
no_error = record { type = error_none; status = ok }

abbrev pub is_none : ErrorType → Bool
is_none error_none = true
is_none t = false

-- `SnapshotMeta` of raft.proto; its peers are kept parsed.
pub record SnapshotMeta (P : Type 0) : Type 0 where
  pub last_included_index : ℕ
  pub last_included_term : ℕ
  pub peers : List P
  pub old_peers : List P

-- What the user's loop in `on_apply` does after it has looked at an entry: move on, return, or report
-- an error and return. The flag says whether it has run the closure of the entry.
pub data Act : Type 0 where
  go_on leave : Bool → Act
  give_up : (ntail : ℕ) → Act

-- The other calls of the user's state machine, which may change it too.
pub data Notice (P : Type 0) : Type 0 where
  leads : (term : ℕ) → Notice P
  leads_no_more : Code → Notice P
  follows follows_no_more : P → (term : ℕ) → Code → Notice P
  configured : List P → ℕ → Notice P
  saves : SnapshotMeta P → Notice P
  faulted : Error → Notice P
  shuts_down : Notice P

-- The user's state machine: its loop in `on_apply` for each valid entry, and what it does when it is
-- told something; `SnapshotUser` is its `on_snapshot_load`.
pub record UserMachine (P M : Type 0) : Type 0 where
  pub visit : M → LogEntry P → M × Act
  pub hear : M → Notice P → M

pub record SnapshotUser (R M : Type 0) : Type 0 where
  pub on_snapshot_load : M → R → M × Code

-- What the caller does outside its own state. `apply` shows the user an entry.
pub data Call (P D W C : Type 0) : Type 0 where
  apply : LogEntry P → Call P D W C
  configuration_committed : List P → ℕ → Call P D W C
  run : C → Code → Call P D W C
  log_event : Event D W → Call P D W C
  fsm_error node_error : Error → Call P D W C
  snapshot_save : SnapshotMeta P → C → Call P D W C
  lease_start : ℕ → Call P D W C
  leader_start : ℕ → Call P D W C
  leader_stop : Code → Call P D W C
  start_following stop_following : P → ℕ → Code → Call P D W C
  fsm_shutdown after_shutdown : Call P D W C

pub data TaskType : Type 0 where
  idle committing saving loading stopping starting following unfollowing failing : TaskType

pub record FsmCaller (P S D W C M : Type 0) : Type 0 where
  pub log_manager : LogManager P S D W
  pub machine : M
  pub closure_queue : ClosureQueue C
  pub last_applied_index : ℕ
  pub last_applied_term : ℕ
  pub has_after_shutdown : Bool
  pub has_node : Bool
  pub cur_task : TaskType
  pub applying_index : ℕ
  pub error : Error
  pub queue_started : Bool
  pub calls : List (Call P D W C)

module _ {P D W C : Type 0} where
  abbrev pub refuse : Option C → List (Call P D W C)
  refuse none = []
  refuse (some done) = run done einval ∷ []

module _ {P S D W C M : Type 0} where
  abbrev pub call : List (Call P D W C) → FsmCaller P S D W C M → FsmCaller P S D W C M
  call more c = record c { calls = c.calls ++ more }

  unfoldable pub applying_index : FsmCaller P S D W C M → ℕ
  applying_index c = elim c.cur_task [ committing ↦ c.applying_index | _ ↦ 0 ]

  -- Whether a task may run; where it may not, its closure runs with EINVAL.
  unfoldable pub pass_by_status : Option C → FsmCaller P S D W C M → FsmCaller P S D W C M × Bool
  pass_by_status done c = if is_ok c.error.status then (c, true) else (call (refuse done) c, false)

module _ {P S D W C M : Type 0} ⦃u : UserMachine P M⦄ where
  unfoldable pub set_error : Error → FsmCaller P S D W C M → FsmCaller P S D W C M
  set_error e c =
      if is_none c.error.type
      then record c {
        error = e;
        machine = u.hear c.machine (faulted e);
        calls = c.calls ++ (fsm_error e ∷ (if c.has_node then node_error e ∷ [] else []));
      }
      else c
