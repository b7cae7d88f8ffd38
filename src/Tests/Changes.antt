-- ===== src/Tests/Changes.antt =====
-- A change of the configuration, and what a node appends.
use quorumkit.Prelude.{
  ℕ, ◌+◌, ◌*◌, ◌/◌, ◌≡◌, ◌≤◌, refl, true, false, List, [], ◌∷◌, ◌++◌, Option, none, some, length,
}
use quorumkit.Errno.{ok, eperm, is_ok}
use quorumkit.LogEntry.{LogEntry, no_id, user_data}
use quorumkit.ConfigurationManager.{new_manager}
use quorumkit.MemoryLog.{MemoryLog}
use quorumkit.LogStorage.{memory_storage}
use quorumkit.LogManager.{LogManager}
use quorumkit.LogManager.Write.{append_entries}
use quorumkit.Node.{Node, leader}
use quorumkit.Node.ConfigurationCtx.{
  ConfigurationCtx, joint, stable, register_conf_change, next_stage,
}
use quorumkit.Node.Joint.{no_change}
use quorumkit.Node.Append.{
  AppendEntriesRequest, StableClosure, leader_stable, answers, handle_append_entries_request,
  follower_stable_run,
}
use quorumkit.Node.Matching.{
  Faithful, handle_append_entries_request-Faithful, follower_stable_run_lem,
}
use quorumkit.Node.Apply.{Task, user_entry, refuse_all, apply}
use quorumkit.Node.Accepted.{accepted, rejected, ballots_of, apply_lem}
use quorumkit.Node.Alive.{last_active_in}
use quorumkit.Node.Active.{reached, last_active_majority}
use quorumkit.Tests.{number_peer, three}
use quorumkit.Tests.Nodes.{voter}

-- The leader 1 removes the peers 2 and 3 at once.
abbrev shrinking : ConfigurationCtx ℕ ℕ
shrinking =
    (register_conf_change 1 (λ p. true) (λ p. true) leader three three (1 ∷ []) (some 5)
      no_change).0

is_shrinking : (shrinking.stage ≡ joint) × ((next_stage 1 shrinking).0.stage ≡ stable)
unfolding register_conf_change quorumkit.Node.is_leader quorumkit.Configuration.equals
    quorumkit.Configuration.diffs quorumkit.Configuration.Set.erase next_stage
is_shrinking = (refl, refl)

abbrev shrunk : ConfigurationCtx ℕ ℕ
shrunk = (next_stage 1 shrinking).0

abbrev stored : LogEntry ℕ
stored = record {
  type = user_data;
  id = record { index = 5; term = 2 };
  peers = none;
  old_peers = none;
  content = [];
}

abbrev memory : MemoryLog ℕ
memory = record { first_log_index = 5; last_log_index = 5; log_entry_data = stored ∷ [] }

abbrev manager : LogManager ℕ (MemoryLog ℕ) (StableClosure ℕ) ℕ
manager = record {
  storage = memory;
  config_manager = new_manager;
  stopped = false;
  has_error = false;
  next_wait_id = 0;
  wait_map = [];
  disk_id = record { index = 5; term = 2 };
  applied_id = record { index = 5; term = 2 };
  logs_in_memory = [];
  first_log_index = 5;
  last_log_index = 5;
  last_snapshot_id = no_id;
  virtual_first_log_id = no_id;
  disk_queue = [];
}

-- The leader 2 of term 3 sends one entry after the last.
abbrev request : AppendEntriesRequest ℕ
request = record {
  server_id = 2;
  term = 3;
  prev_log_index = 5;
  prev_log_term = 2;
  committed_index = 5;
  entries =
      record { type = user_data; term = 3; peers = []; old_peers = []; data_len = some 2 } ∷ [];
  attachment = 8 ∷ 9 ∷ [];
}

handle_append_entries_request-Faithful_example :
    Faithful
      (λ i. some i)
      4
      request
      manager
      (handle_append_entries_request
        (λ i. some i)
        true
        false
        false
        false
        70
        4
        request
        voter
        manager)
handle_append_entries_request-Faithful_example =
    handle_append_entries_request-Faithful (λ i. some i) true false false false 70 4 request voter
      manager

follower_stable_run_lem_example :
    ((t : ℕ) (l : Option ℕ)
      → (follower_stable_run ok 9 6 3 voter).1 ≡ answers true t l
      → (is_ok ok ≡ true) × (voter.current_term ≡ 3) × (t ≡ 3))
    × ((k : ℕ)
        → (follower_stable_run ok 9 6 3 voter).2 ≡ some k
        → (k ≤ 9) × (k ≤ 6) × (voter.current_term ≡ 3))
    × ((follower_stable_run ok 9 6 3 voter).0.current_term ≡ voter.current_term)
    × ((follower_stable_run ok 9 6 3 voter).0.voted_id ≡ voter.voted_id)
follower_stable_run_lem_example = follower_stable_run_lem ok 9 6 3 voter

-- Two tasks for the leader, the second of which expects an earlier term.
abbrev tasks : List (Task ℕ)
tasks =
    record { content = 8 ∷ []; done = some 1; expected_term = none }
    ∷ record { content = 9 ∷ []; done = some 2; expected_term = some 2 }
    ∷ []

abbrev leading : Node ℕ ℕ
leading = record voter { state = leader; leader_id = 1 }

abbrev taken : List (LogEntry ℕ)
taken = user_entry 3 (8 ∷ []) ∷ []

apply_lem_example :
    ((false ≡ true)
      → ((apply false tasks leading manager).node ≡ leading)
        × ((apply false tasks leading manager).log ≡ manager)
        × ((apply false tasks leading manager).runs ≡ refuse_all eperm tasks))
    × ((false ≡ false)
        → ((apply false tasks leading manager).runs ≡ refuse_all eperm (rejected 3 tasks))
          × ((apply false tasks leading manager).log
              ≡ (append_entries manager taken (leader_stable 1)).0)
          × ((apply false tasks leading manager).node.ballot_box.pending_meta_queue
              ≡ leading.ballot_box.pending_meta_queue ++ ballots_of leading.conf (accepted 3 tasks))
          × ((apply false tasks leading manager).node.ballot_box.closure_queue.queue
              ≡ leading.ballot_box.closure_queue.queue ++ (some 1 ∷ [])))
unfolding quorumkit.Node.is_leader
apply_lem_example = apply_lem false tasks leading manager

-- When the leader 1 last sent to each peer.
abbrev sent : ℕ → ℕ
sent p = 10 * p

last_active_majority_example :
    length three / 2 + 1 ≤ reached 1 sent (last_active_in 1 sent 90 three) three
last_active_majority_example = last_active_majority 1 sent 90 three refl
