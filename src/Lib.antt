-- ===== src/Lib.antt =====
-- A verification library for quorumkit, an implementation of the Raft consensus protocol in C++.
--
-- The program. A node (src/braft/node.cpp) keeps a term, a vote and a role. It takes part in
-- elections under a configuration of peers (configuration.h) with a ballot (ballot.cpp), guarded by
-- leases on the clock (lease.cpp). A leader's entries go through the log manager (log_manager.cpp) to
-- a log storage (memory_log.cpp here), the acknowledgements of the peers through the ballot box
-- (ballot_box.cpp), which commits an index by quorum, and the closures of the callers wait in the
-- closure queue (closure_queue.cpp) for that commit. The caller of the state machine
-- (fsm_caller.cpp) then shows the committed entries to the user. A leader feeds each follower
-- through a replicator (replicator.cpp). The configurations that the log holds are in the
-- configuration manager (configuration_manager.cpp).
--
-- The files:
--   Peer, Configuration: `PeerId`, the order on peers, and `Configuration` (src/braft/configuration.h).
--     A `std::set` is a list in order. Components use peers through the interface `PeerOrder`, of
--     which `PeerId` is an instance; `butil::EndPoint` is a parameter.
--   Ballot: `Ballot` (src/braft/ballot.h, ballot.cpp). An iterator is a position, and `end()` none.
--     Ballot/Majority and Ballot/Change are about its quorums, the latter across a change of the
--     configuration.
--   ClosureQueue, BallotBox: src/braft/closure_queue.cpp and ballot_box.cpp. BallotBox/Entry says
--     which log entry a ballot of the queue stands for.
--   LogEntry, ConfigurationManager: src/braft/log_entry.h and configuration_manager.cpp.
--   Lease: `LeaderLease` and `FollowerLease` (src/braft/lease.cpp); the clock is an argument.
--   MemoryLog, LogStorage: src/braft/memory_log.cpp, and the interface of src/braft/storage.h that
--     it fills and that the log manager uses.
--   LogManager: src/braft/log_manager.cpp: the reads, LogManager/Write (`append_entries`,
--     `check_and_resolve_conflict` and the truncations), LogManager/Snapshot (`set_snapshot`),
--     LogManager/Waiters and LogManager/Disk (the disk thread and its batcher).
--   FsmCaller: src/braft/fsm_caller.cpp, and `Iterator` of raft.cpp: FsmCaller/Iterate (`IteratorImpl`
--     and `do_committed`), FsmCaller/Tasks (the loop of the queue, `do_snapshot_save`,
--     `do_snapshot_load` and the other tasks). The user's machine is the interface `UserMachine`:
--     what it does with an entry and with each other call, which may change it too.
--     FsmCaller/Loop, Replay, Progress and Fault are the proofs.
--   Node: src/braft/node.cpp. Node/StepDown (`step_down`, `check_step_down`, `reset_leader_id`),
--     Node/VoteCtx (`VoteBallotCtx`), Node/VoteRequest (the handlers of vote requests), Node/Election
--     (`pre_vote`, `elect_self`, `grant_self`, `become_leader`), Node/Answers (the answers to the
--     requests and the timers), Node/ConfigurationCtx (`ConfigurationCtx`), Node/Append
--     (`handle_append_entries_request`, `FollowerStableClosure`), Node/Apply (`apply`,
--     `unsafe_apply_configuration`, `LeaderStableClosure`), Node/Alive (`check_dead_nodes`, the
--     stepdown timer and the start of the lease). Node/Steps has the steps of a node and their runs:
--     `Run` has no failed write of the node's own vote, `Runs` counts them. Node/Stages and Node/Joint
--     are about the stages of a change, Node/Matching, Accepted and Active about appending, applying
--     and the majority that is alive, the rest about votes.
--   Replicator: src/braft/replicator.cpp: Replicator/Send (`_send_entries`, `_send_empty_entries`,
--     `_wait_more_entries`, `_install_snapshot`), Replicator/Returned (the answers, `_continue_sending`,
--     the waits for catching up). Replicator/Window, Acknowledged and Commits are about the requests in
--     flight.
--   Errno: the error codes. Prelude: names, lists and integers that all share.
--   Tests: concrete inputs at which the theorems apply.
--
-- The model. A method is a function from the state to the state and what it returns; what it calls
-- outside its component is in the result, as events or effects. An `int64_t` index, term or time is a
-- natural number, and a counter that goes below zero an integer; the program does not come near the
-- bound of 2^63. A failed CHECK, and LOG(FATAL), log and go on, as the code after them does. A
-- method that gives up its mutex is split there: a handler of vote requests is `begin_…` and `end_…`,
-- with any steps in between. Every loop is structural recursion on a list, or on the number of
-- rounds that the code itself sets (`_send_entries`), but that of `do_committed` and the user's
-- `on_apply`, which run for as many rounds as there are committed entries after the current one: each
-- round takes one, and FsmCaller/Loop shows that they are enough.
--
-- Not modelled: RPCs, files, threads and timers as such; the group of replicators, the segment log, the
-- snapshot executor, the meta storage and the command line services; of the node its start, its
-- shutdown, the transfer of leadership, the cache of out-of-order requests and the switches to
-- read-only; of a replicator its start and the answer to TimeoutNow.
pub mod Prelude
pub mod Peer
pub mod Configuration
pub mod Ballot
pub mod Errno
pub mod ClosureQueue
pub mod BallotBox
pub mod LogEntry
pub mod ConfigurationManager
pub mod Lease
pub mod MemoryLog
pub mod LogStorage
pub mod LogManager
pub mod FsmCaller
pub mod Node
pub mod Replicator
pub mod Tests
