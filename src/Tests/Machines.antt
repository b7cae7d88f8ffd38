-- ===== src/Tests/Machines.antt =====
-- A state machine that lists the indexes it is shown, over a memory log.
use quorumkit.Prelude.{
  ℕ, ◌+◌, ◌≡◌, ◌≤◌, ◌⊎◌, refl, inl, inr, subst, true, false, List, [], ◌∷◌, ◌++◌, none, some, ◌==◌,
  Bool-cases, arith,
}
use quorumkit.Errno.{ok, eio, is_ok}
use quorumkit.LogEntry.{LogEntry, no_id, user_data}
use quorumkit.ConfigurationManager.{new_manager}
use quorumkit.MemoryLog.{MemoryLog}
use quorumkit.MemoryLog
use quorumkit.LogStorage.{memory_storage}
use quorumkit.LogManager.{LogManager}
use quorumkit.LogManager
use quorumkit.ClosureQueue.{new_queue}
use quorumkit.FsmCaller.{FsmCaller, UserMachine, SnapshotUser, go_on, idle, no_error, error_log}
use quorumkit.FsmCaller.Iterate.{
  Iterator, apply_all, do_committed, has_error, rounds_left, start_iterator,
}
use quorumkit.FsmCaller.Tasks.{committed, run_loop}
use quorumkit.FsmCaller.Loop.{apply_all_ends}
use quorumkit.FsmCaller.Replay.{replay}
use quorumkit.FsmCaller.Progress.{do_committed-replay, run_loop-commits, greatest}
use quorumkit.FsmCaller.Fault.{run_loop-Frozen, Frozen}
use quorumkit.Tests.{number_peer}

instance abbrev lister : UserMachine ℕ (List ℕ)
lister = record { visit = λ m e. (m ++ (e.id.index ∷ []), go_on true); hear = λ m notice. m }

instance abbrev loader : SnapshotUser ℕ (List ℕ)
loader = record { on_snapshot_load = λ m content. (content ∷ [], ok) }

abbrev entry_at : ℕ → LogEntry ℕ
entry_at i = record {
  type = user_data;
  id = record { index = i; term = 2 };
  peers = none;
  old_peers = none;
  content = [];
}

abbrev kept : MemoryLog ℕ
kept = record {
  first_log_index = 5;
  last_log_index = 7;
  log_entry_data = entry_at 5 ∷ entry_at 6 ∷ entry_at 7 ∷ [];
}

abbrev manager : LogManager ℕ (MemoryLog ℕ) ℕ ℕ
manager = record {
  storage = kept;
  config_manager = new_manager;
  stopped = false;
  has_error = false;
  next_wait_id = 0;
  wait_map = [];
  disk_id = record { index = 7; term = 2 };
  applied_id = record { index = 5; term = 2 };
  logs_in_memory = [];
  first_log_index = 5;
  last_log_index = 7;
  last_snapshot_id = no_id;
  virtual_first_log_id = no_id;
  disk_queue = [];
}

abbrev caller : FsmCaller ℕ (MemoryLog ℕ) ℕ ℕ ℕ (List ℕ)
caller = record {
  log_manager = manager;
  machine = 5 ∷ [];
  closure_queue = new_queue;
  last_applied_index = 5;
  last_applied_term = 2;
  has_after_shutdown = false;
  has_node = true;
  cur_task = idle;
  applying_index = 0;
  error = no_error;
  queue_started = true;
  calls = [];
}

holds :
    (i : ℕ)
    → 6 ≤ i
    → i ≤ 7
    → LogManager.get_entry {D = ℕ} {W = ℕ} manager i ≡ (manager, some (entry_at i), [])
unfolding LogManager.get_entry MemoryLog.get_entry LogManager.get_entry_from_memory
holds i h k = elim (Bool-cases (i == 6)) [
  | inl e ↦
      let q : 6 ≡ i = ground arith in
      subst (λ i. LogManager.get_entry {D = ℕ} {W = ℕ} manager i ≡ (manager, some (entry_at i), []))
        q refl
  | inr e ↦
      let q : 7 ≡ i = ground arith in
      subst (λ i. LogManager.get_entry {D = ℕ} {W = ℕ} manager i ≡ (manager, some (entry_at i), []))
        q refl
]

do_committed-replay_example :
    ((do_committed 7 caller).machine ≡ replay entry_at 6 2 (5 ∷ []))
    × ((do_committed 7 caller).last_applied_index ≡ 7)
    × ((do_committed 7 caller).last_applied_term ≡ LogManager.get_term manager 7)
    × (is_ok (do_committed 7 caller).error.status ≡ true)
do_committed-replay_example =
    do_committed-replay entry_at 7 caller refl (omega arith) holds (λ m e. refl)

replayed : replay {M = List ℕ} entry_at 6 2 (5 ∷ []) ≡ 5 ∷ 6 ∷ 7 ∷ []
replayed = refl

abbrev standing : Iterator ℕ (MemoryLog ℕ) ℕ ℕ ℕ (List ℕ)
standing = start_iterator 7 caller

standing_bounds : (rounds_left standing ≤ 2) × (standing.cur_index ≤ standing.committed_index + 1)
unfolding start_iterator
standing_bounds = (omega arith, omega arith)

apply_all_ends_example :
    ((apply_all 2 standing).committed_index ≡ standing.committed_index)
    × ((has_error (apply_all 2 standing) ≡ true)
        ⊎ ((apply_all 2 standing).cur_index ≡ standing.committed_index + 1))
apply_all_ends_example = apply_all_ends 2 standing standing_bounds.0 standing_bounds.1

abbrev broken : FsmCaller ℕ (MemoryLog ℕ) ℕ ℕ ℕ (List ℕ)
broken = record caller { error = record { type = error_log; status = eio } }

run_loop-Frozen_example :
    Frozen (5 ∷ []) broken (run_loop {R = ℕ} 2 none 0 (committed 6 ∷ committed 7 ∷ []) broken)
run_loop-Frozen_example =
    run_loop-Frozen {R = ℕ} 2 none 0 (committed 6 ∷ committed 7 ∷ []) broken refl refl

run_is_ok :
    is_ok (run_loop {R = ℕ} 2 none 0 (committed 7 ∷ committed 6 ∷ []) caller).error.status ≡ true
unfolding run_loop LogManager.get_entry MemoryLog.get_entry
run_is_ok = refl

run_loop-commits_example :
    (is_ok caller.error.status ≡ true)
    × ((run_loop {R = ℕ} 2 none 0 (committed 7 ∷ committed 6 ∷ []) caller).last_applied_index
        ≡ greatest (7 ∷ 6 ∷ []) 5)
run_loop-commits_example = run_loop-commits ℕ 2 (7 ∷ 6 ∷ []) caller run_is_ok
