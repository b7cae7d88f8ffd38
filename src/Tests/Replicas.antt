-- ===== src/Tests/Replicas.antt =====
-- A replicator with two requests in flight.
use quorumkit.Prelude.{ℕ, ◌≤◌, ◌<◌, ◌≡◌, refl, true, false, List, [], ◌∷◌, none, arith}
use quorumkit.Replicator.{
  Flying, Replicator, Options, Outside, Effect, throttled, appending_entries, commit_at,
}
use quorumkit.Replicator.Returned.{Response, Sent, on_rpc_returned}
use quorumkit.Replicator.Window.{lowest, IsValid}
use quorumkit.Replicator.Acknowledged.{on_rpc_returned-IsValid}
use quorumkit.Replicator.Commits.{on_rpc_returned_lem}

abbrev first_request : Flying
first_request = record { log_index = 5; entries_size = 2; call_id = 11 }

abbrev second_request : Flying
second_request = record { log_index = 7; entries_size = 1; call_id = 12 }

abbrev feeding : Replicator ℕ
feeding = record {
  next_index = 8;
  flying_append_entries_size = 3;
  append_entries_in_fly = first_request ∷ second_request ∷ [];
  consecutive_error_times = 0;
  has_succeeded = true;
  timeout_now_index = 0;
  readonly_index = 0;
  st = appending_entries;
  wait_id = 0;
  is_waiter_canceled = false;
  has_reader = false;
  catchup = none;
  last_rpc_send_timestamp = 40;
}

abbrev options : Options ℕ ℕ
options = record {
  server_id = 1;
  term = 3;
  to_string = λ p. p;
  node_is_witness = false;
  peer_is_witness = true;
  enable_witness_to_leader = false;
  max_entries_size = 4;
  max_parallel_append_entries_rpc_num = 2;
  max_body_size = 100;
}

abbrev outside : Outside ℕ
outside = record {
  get_term = λ i. 3;
  get_entry = λ i. none;
  first_log_index = 1;
  last_log_index = 7;
  last_committed_index = 4;
  call_id = 13;
  wait_id = 6;
  opening = throttled;
  timer_runs = false;
}

-- The second request is answered first.
abbrev sent : Sent
sent = record { call_id = 12; prev_log_index = 6; entries_size = 1; send_time = 50 }

abbrev response : Response
response = record { term = 3; success = true; last_log_index = 7; readonly = false }

feeding-IsValid : IsValid feeding
feeding-IsValid = (omega arith, (refl, (refl, refl)))

on_rpc_returned-IsValid_example :
    IsValid (on_rpc_returned options outside false sent response feeding).0
on_rpc_returned-IsValid_example =
    on_rpc_returned-IsValid ℕ ℕ options outside false sent response feeding feeding-IsValid

on_rpc_returned_lem_example :
    (lowest (on_rpc_returned options outside false sent response feeding).0 ≡ 8)
    × (lowest feeding ≤ 7)
    × (7 < feeding.next_index)
    × ((rest : List (Effect ℕ ℕ ℕ)) × ((on_rpc_returned options outside false sent response
            feeding).1
          ≡ commit_at 5 7 ∷ rest))
on_rpc_returned_lem_example =
    on_rpc_returned_lem ℕ ℕ options outside (first_request ∷ []) [] sent response feeding
      feeding-IsValid refl (omega arith) refl refl
