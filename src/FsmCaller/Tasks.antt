-- ===== src/FsmCaller/Tasks.antt =====
-- The tasks of the queue and the loop that takes them. What `done->start()` and `load_meta` answer is
-- part of a task. `committed_index` is at least 0; `none` stands for -1.
use quorumkit.Prelude.{
  ℕ, ◌+◌, Bool, true, false, List, [], ◌∷◌, ◌++◌, Option, none, some, ltb, if◌then◌else◌, null,
}
use quorumkit.Errno.{Code, ok, is_ok, einval, estale, eio}
use quorumkit.LogEntry.{LogId, id_gt}
use quorumkit.Peer.{PeerOrder}
use quorumkit.Configuration.{of_vector}
use quorumkit.LogStorage.{LogStorage}
use quorumkit.LogManager.{LogManager}
use quorumkit.LogManager
use quorumkit.FsmCaller.{
  Error, Notice, TaskType, leads, leads_no_more, follows, follows_no_more, configured, saves,
  shuts_down, error_snapshot, error_state_machine, SnapshotMeta, UserMachine, SnapshotUser,
  configuration_committed, run, snapshot_save, lease_start, leader_start, leader_stop,
  start_following, stop_following, fsm_shutdown, after_shutdown, idle, committing, saving, loading,
  stopping, following, unfollowing, failing, FsmCaller, call, set_error, pass_by_status,
}
use quorumkit.FsmCaller.Iterate.{do_committed}
use quorumkit.ClosureQueue.{ClosureQueue}

-- A reader of a snapshot: what `load_meta` answers, and what the user reads.
pub record SnapshotReader (P R : Type 0) : Type 0 where
  pub load_meta : Code × SnapshotMeta P
  pub content : R

-- `ApplyTask`, the members of its union with their tags.
pub data ApplyTask (P C R : Type 0) : Type 0 where
  committed : (committed_index : ℕ) → ApplyTask P C R
  save : C → (starts : Bool) → ApplyTask P C R
  load : C → Option (SnapshotReader P R) → ApplyTask P C R
  stop_leader : Code → ApplyTask P C R
  start_leader : (term : ℕ) (lease_epoch : ℕ) → ApplyTask P C R
  follow unfollow : P → (term : ℕ) → Code → ApplyTask P C R
  fail : Error → ApplyTask P C R

module _ {P S D W C M : Type 0} where
  -- `init`, the options being given.
  unfoldable pub init :
      LogManager P S D W
      → ClosureQueue C
      → Bool
      → LogId
      → FsmCaller P S D W C M
      → FsmCaller P S D W C M
  init lm queue has_node bootstrap_id c = record c {
    log_manager = lm;
    closure_queue = queue;
    has_node = has_node;
    last_applied_index = bootstrap_id.index;
    last_applied_term = bootstrap_id.term;
    queue_started = true;
  }

  abbrev pub applied_id : FsmCaller P S D W C M → LogId
  applied_id c = record { index = c.last_applied_index; term = c.last_applied_term }

  abbrev pub when_passed :
      FsmCaller P S D W C M × Bool
      → (FsmCaller P S D W C M → FsmCaller P S D W C M)
      → FsmCaller P S D W C M
  when_passed p f = if p.1 then f p.0 else p.0

module _ {P S D W C M : Type 0} ⦃u : UserMachine P M⦄ where
  unfoldable pub do_shutdown : FsmCaller P S D W C M → FsmCaller P S D W C M
  do_shutdown c = record c {
    machine = u.hear c.machine shuts_down;
    has_node = false;
    has_after_shutdown = false;
    calls = c.calls ++ (fsm_shutdown ∷ (if c.has_after_shutdown then after_shutdown ∷ [] else []));
  }

  unfoldable pub do_snapshot_save : C → Bool → FsmCaller P S D W C M → FsmCaller P S D W C M
  do_snapshot_save done starts c =
      let conf = LogManager.get_configuration c.log_manager c.last_applied_index in
      let meta : SnapshotMeta P = record {
        last_included_index = c.last_applied_index;
        last_included_term = c.last_applied_term;
        peers = conf.conf;
        old_peers = conf.old_conf;
      } in
      if starts
      then call (snapshot_save meta done ∷ [])
          (record c { machine = u.hear c.machine (saves meta) })
      else call (run done einval ∷ []) c

module _ {P : Type 0} where
  abbrev pub snapshot_id : SnapshotMeta P → LogId
  snapshot_id meta = record { index = meta.last_included_index; term = meta.last_included_term }

module _ {P S D W C M : Type 0} ⦃u : UserMachine P M⦄ where
  unfoldable pub meta_failed : C → Code → FsmCaller P S D W C M → FsmCaller P S D W C M
  unfolding set_error
  meta_failed done ret c = elim ret [
    | eio ↦ set_error (record { type = error_snapshot; status = eio }) (call (run done eio ∷ []) c)
    | other ↦ call (run done other ∷ []) c
  ]

module _ {P S D W C M : Type 0} ⦃o : PeerOrder P⦄ ⦃u : UserMachine P M⦄ where
  -- The state machine has loaded the snapshot.
  unfoldable pub install_meta : C → SnapshotMeta P → FsmCaller P S D W C M → FsmCaller P S D W C M
  install_meta done meta c = record c {
    last_applied_index = meta.last_included_index;
    last_applied_term = meta.last_included_term;
    machine =
        if null meta.old_peers
        then u.hear c.machine (configured (of_vector meta.peers) meta.last_included_index)
        else c.machine;
    calls =
        c.calls
        ++ ((if null meta.old_peers
              then configuration_committed (of_vector meta.peers) meta.last_included_index ∷ []
              else [])
            ++ (run done ok ∷ []));
  }

  unfoldable pub finish_load :
      C → SnapshotMeta P → Code → FsmCaller P S D W C M → FsmCaller P S D W C M
  unfolding install_meta set_error
  finish_load done meta ret c =
      if is_ok ret
      then install_meta done meta c
      else set_error (record { type = error_state_machine; status = ret })
          (call (run done ret ∷ []) c)

module _ {P S D W C M R : Type 0} ⦃o : PeerOrder P⦄ ⦃u : UserMachine P M⦄
    ⦃v : SnapshotUser R M⦄ where
  unfoldable pub load_content :
      C → SnapshotMeta P → R → FsmCaller P S D W C M → FsmCaller P S D W C M
  unfolding finish_load
  load_content done meta content c =
      if id_gt (applied_id c) (snapshot_id meta)
      then call (run done estale ∷ []) c
      else (let (m, ret) = v.on_snapshot_load c.machine content in
          finish_load done meta ret (record c { machine = m }))

  unfoldable pub do_snapshot_load :
      C → Option (SnapshotReader P R) → FsmCaller P S D W C M → FsmCaller P S D W C M
  unfolding load_content meta_failed
  do_snapshot_load done none c = call (run done einval ∷ []) c
  do_snapshot_load done (some reader) c =
      if is_ok reader.load_meta.0
      then load_content done reader.load_meta.1 reader.content c
      else meta_failed done reader.load_meta.0 c

module _ {P S D W C M : Type 0} ⦃u : UserMachine P M⦄ where
  -- The user's machine is told something, in a task of the type.
  abbrev pub told : Notice P → TaskType → FsmCaller P S D W C M → FsmCaller P S D W C M
  told notice task c = record c { machine = u.hear c.machine notice; cur_task = task }

module _ {P S D W C M R : Type 0} ⦃s : LogStorage P S⦄ ⦃o : PeerOrder P⦄ ⦃u : UserMachine P M⦄
    ⦃v : SnapshotUser R M⦄ where
  -- Any task but `committed`, which the loop batches.
  unfoldable pub do_task : ApplyTask P C R → FsmCaller P S D W C M → FsmCaller P S D W C M
  unfolding do_snapshot_save do_snapshot_load pass_by_status set_error do_committed
  do_task (committed i) c = do_committed i (record c { cur_task = committing })
  do_task (save done starts) c =
      when_passed (pass_by_status (some done) (record c { cur_task = saving }))
        (do_snapshot_save done starts)
  do_task (load done reader) c =
      when_passed (pass_by_status (some done) (record c { cur_task = loading }))
        (do_snapshot_load done reader)
  do_task (stop_leader status) c =
      call (leader_stop status ∷ []) (told (leads_no_more status) stopping c)
  do_task (start_leader term lease_epoch) c =
      call (lease_start lease_epoch ∷ leader_start term ∷ []) (told (leads term) c.cur_task c)
  do_task (follow leader term status) c =
      call (start_following leader term status ∷ []) (told (follows leader term status) following c)
  do_task (unfollow leader term status) c =
      call (stop_following leader term status ∷ [])
        (told (follows_no_more leader term status) unfollowing c)
  do_task (fail e) c = set_error e (record c { cur_task = failing })

module _ {P S D W C M : Type 0} ⦃s : LogStorage P S⦄ ⦃u : UserMachine P M⦄ where
  -- The batch of commits that waits.
  unfoldable pub commit_batch : Option ℕ → FsmCaller P S D W C M → FsmCaller P S D W C M
  unfolding do_committed
  commit_batch none c = c
  commit_batch (some i) c = do_committed i (record c { cur_task = committing })

module _ {P C R : Type 0} where
  abbrev pub commit_of : ApplyTask P C R → Option ℕ
  commit_of (committed i) = some i
  commit_of t = none

abbrev pub exceeds : ℕ → Option ℕ → Bool
exceeds i none = true
exceeds i (some m) = ltb m i

-- The counter after the batch that waits, if any, has been done.
abbrev pub counter_after : Option ℕ → ℕ → ℕ
counter_after none counter = counter
counter_after (some m) counter = 0

module _ {P S D W C M R : Type 0} ⦃s : LogStorage P S⦄ ⦃o : PeerOrder P⦄ ⦃u : UserMachine P M⦄
    ⦃v : SnapshotUser R M⦄ (batch_size : ℕ) where
  -- The loop of `run`: the greatest commit that waits, and how many raised it.
  unfoldable pub run_loop :
      Option ℕ → ℕ → List (ApplyTask P C R) → FsmCaller P S D W C M → FsmCaller P S D W C M
  unfolding commit_batch do_task
  run_loop pending counter [] c = record (commit_batch pending c) { cur_task = idle }
  run_loop pending counter (committed i ∷ ts) c =
      let raised = run_loop (some i) (counter + 1) ts c in
      let kept = run_loop pending counter ts c in
      let fresh =
        run_loop (some i) (counter_after pending counter + 1) ts (commit_batch pending c) in
      if ltb counter batch_size then (if exceeds i pending then raised else kept) else fresh
  run_loop pending counter (t ∷ ts) c =
      run_loop none (counter_after pending counter) ts (do_task t (commit_batch pending c))

  -- `FSMCaller::run`: the tasks at hand, or the end of the queue.
  unfoldable pub run_tasks :
      Bool → List (ApplyTask P C R) → FsmCaller P S D W C M → FsmCaller P S D W C M
  unfolding run_loop do_shutdown
  run_tasks queue_stopped tasks c = if queue_stopped then do_shutdown c else run_loop none 0 tasks c
