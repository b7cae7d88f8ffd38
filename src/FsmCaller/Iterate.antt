-- ===== src/FsmCaller/Iterate.antt =====
-- `IteratorImpl`, `Iterator` and the loop of `do_committed`.
use quorumkit.Prelude.{
  ℕ, zero, suc, ◌+◌, ◌-◌, max, Bool, true, false, not, ◌&&◌, List, [], ◌∷◌, ◌++◌, map, Option, none,
  some, ltb, leb, ◌==◌, if◌then◌else◌, get_elem?, drop,
}
use quorumkit.Errno.{Code, ok, is_ok, minus_one, estate_machine}
use quorumkit.LogEntry.{LogEntry, EntryType, user_data, configuration}
use quorumkit.LogStorage.{LogStorage}
use quorumkit.ClosureQueue
use quorumkit.ClosureQueue.{Popped}
use quorumkit.LogManager.{LogManager}
use quorumkit.LogManager
use quorumkit.FsmCaller.{
  Error, error_log, error_state_machine, is_none, no_error, Act, go_on, leave, give_up, UserMachine,
  Call, apply, configured, configuration_committed, run, log_event, FsmCaller, set_error, call,
}

-- `IteratorImpl`, with the user's machine that it works on and the calls made so far.
pub record Iterator (P S D W C M : Type 0) : Type 0 where
  pub log_manager : LogManager P S D W
  pub machine : M
  pub closures : List (Option C)
  pub first_closure_index : ℕ
  pub cur_index : ℕ
  pub committed_index : ℕ
  pub cur_entry : Option (LogEntry P)
  pub applying_index : ℕ
  pub error : Error
  pub calls : List (Call P D W C)

module _ {C : Type 0} where
  -- The closure at a position, NULL past the end.
  abbrev pub closure_of : Option (Option C) → Option C
  closure_of none = none
  closure_of (some c) = c

abbrev pub or_zero : Option ℕ → ℕ
or_zero none = 0
or_zero (some i) = i

module _ {P D W C : Type 0} where
  abbrev pub run_done : Option C → Code → List (Call P D W C)
  run_done none status = []
  run_done (some c) status = run c status ∷ []

  abbrev pub run_each : List (Option C) → Code → List (Call P D W C)
  run_each [] status = []
  run_each (c ∷ cs) status = run_done c status ++ run_each cs status

abbrev pub is_data_type : EntryType → Bool
is_data_type user_data = true
is_data_type t = false

module _ {P : Type 0} where
  abbrev pub is_data : Option (LogEntry P) → Bool
  is_data none = false
  is_data (some e) = is_data_type e.type

  abbrev pub peers_of : Option (List P) → List P
  peers_of none = []
  peers_of (some ps) = ps

  abbrev pub read_error : Option (LogEntry P) → Error → Error
  read_error none e = record { type = error_log; status = minus_one }
  read_error (some entry) e = e

module _ {P D W C : Type 0} where
  -- A configuration entry outside a joint stage is told to the user.
  abbrev pub committed_call : LogEntry P → EntryType → Option (List P) → List (Call P D W C)
  committed_call e configuration none = configuration_committed (peers_of e.peers) e.id.index ∷ []
  committed_call e t old_peers = []

  abbrev pub entry_call : Option (LogEntry P) → List (Call P D W C)
  entry_call none = []
  entry_call (some e) = committed_call e e.type e.old_peers

module _ {P S D W C M : Type 0} where
  abbrev pub has_error : Iterator P S D W C M → Bool
  has_error it = not (is_none it.error.type)

  unfoldable pub is_good : Iterator P S D W C M → Bool
  is_good it = leb it.cur_index it.committed_index && not (has_error it)

  -- `Iterator::valid`
  unfoldable pub valid : Iterator P S D W C M → Bool
  unfolding is_good
  valid it = is_good it && is_data it.cur_entry

  unfoldable pub done : Iterator P S D W C M → Option C
  done it =
      if ltb it.cur_index it.first_closure_index
      then none
      else closure_of (get_elem? it.closures (it.cur_index - it.first_closure_index))

  -- The user's `ntail` is at most the number of entries that it was shown, so that no index goes below 0.
  unfoldable pub set_error_and_rollback : ℕ → Iterator P S D W C M → Iterator P S D W C M
  set_error_and_rollback ntail it = if ntail == 0 then it else record it {
    cur_index = if is_data it.cur_entry then it.cur_index - (ntail - 1) else it.cur_index - ntail;
    cur_entry = none;
    error = record { type = error_state_machine; status = estate_machine };
  }

  -- From the current index, or the first that has a closure, up to the last committed one.
  unfoldable pub run_the_rest_closure_with_error : Iterator P S D W C M → List (Call P D W C)
  run_the_rest_closure_with_error it =
      run_each (drop (max it.cur_index it.first_closure_index - it.first_closure_index) it.closures)
        it.error.status

module _ {P S D W C M : Type 0} ⦃s : LogStorage P S⦄ where
  unfoldable pub read_entry : ℕ → Iterator P S D W C M → Iterator P S D W C M
  read_entry i it =
      let (lm, e, events) = LogManager.get_entry it.log_manager i in
      record it {
        log_manager = lm;
        cur_index = i;
        cur_entry = e;
        applying_index = i;
        error = read_error e it.error;
        calls = it.calls ++ map log_event events;
      }

  unfoldable pub next : Iterator P S D W C M → Iterator P S D W C M
  unfolding read_entry
  next it =
      if leb it.cur_index it.committed_index
      then (if leb (it.cur_index + 1) it.committed_index
          then read_entry (it.cur_index + 1) it
          else record it { cur_index = it.cur_index + 1; cur_entry = none })
      else record it { cur_entry = none }

  -- `Iterator::next`
  unfoldable pub iter_next : Iterator P S D W C M → Iterator P S D W C M
  unfolding next valid
  iter_next it = if valid it then next it else it

module _ {P M : Type 0} ⦃u : UserMachine P M⦄ where
  abbrev pub hear_committed : LogEntry P → EntryType → Option (List P) → M → M
  hear_committed e configuration none m = u.hear m (configured (peers_of e.peers) e.id.index)
  hear_committed e t old_peers m = m

  abbrev pub hear_entry : Option (LogEntry P) → M → M
  hear_entry none m = m
  hear_entry (some e) m = hear_committed e e.type e.old_peers m

module _ {P S D W C M : Type 0} ⦃s : LogStorage P S⦄ ⦃u : UserMachine P M⦄ where
  -- An entry that is not the user's: its closure runs, and the iterator moves on.
  unfoldable pub pass_entry : Iterator P S D W C M → Iterator P S D W C M
  unfolding next done
  pass_entry it = next (record it {
    machine = hear_entry it.cur_entry it.machine;
    calls = it.calls ++ (entry_call it.cur_entry ++ run_done (done it) ok);
  })

  -- The user's loop has seen an entry; the flag says whether the loop goes on.
  unfoldable pub act_on : Act → Iterator P S D W C M → Iterator P S D W C M × Bool
  unfolding iter_next done set_error_and_rollback
  act_on (go_on runs) it = (
    iter_next (record it { calls = it.calls ++ (if runs then run_done (done it) ok else []) }),
    true,
  )
  act_on (leave runs) it =
      (record it { calls = it.calls ++ (if runs then run_done (done it) ok else []) }, false)
  act_on (give_up ntail) it = (set_error_and_rollback ntail it, false)

  unfoldable pub show_entry :
      Option (LogEntry P) → Iterator P S D W C M → Iterator P S D W C M × Bool
  unfolding act_on
  show_entry none it = (it, false)
  show_entry (some e) it =
      let (m, act) = u.visit it.machine e in
      act_on act (record it { machine = m; calls = it.calls ++ (apply e ∷ []) })

  -- `_fsm->on_apply(iter)`: the user's loop, `while (iter.valid())`.
  unfoldable pub on_apply : ℕ → Iterator P S D W C M → Iterator P S D W C M
  unfolding show_entry valid
  on_apply zero it = it
  on_apply (suc n) it =
      let shown = show_entry it.cur_entry it in
      let rest = on_apply n shown.0 in if valid it then (if shown.1 then rest else shown.0) else it

  abbrev pub rounds_left : Iterator P S D W C M → ℕ
  rounds_left it = it.committed_index + 1 - it.cur_index

  -- The body of the loop.
  unfoldable pub one_round : Iterator P S D W C M → Iterator P S D W C M
  unfolding on_apply iter_next pass_entry
  one_round it =
      if is_data it.cur_entry then iter_next (on_apply (rounds_left it) it) else pass_entry it

  unfoldable pub apply_all : ℕ → Iterator P S D W C M → Iterator P S D W C M
  unfolding one_round is_good
  apply_all zero it = it
  apply_all (suc n) it = let rest = apply_all n (one_round it) in if is_good it then rest else it

  -- The closures up to the committed index leave the queue, and the iterator reads its first entry.
  unfoldable pub start_iterator : ℕ → FsmCaller P S D W C M → Iterator P S D W C M
  unfolding next
  start_iterator committed_index c =
      let popped = ClosureQueue.pop_closure_until c.closure_queue committed_index in
      next record {
        log_manager = c.log_manager;
        machine = c.machine;
        closures = popped.out;
        first_closure_index = or_zero popped.out_first_index;
        cur_index = c.last_applied_index;
        committed_index = committed_index;
        cur_entry = none;
        applying_index = c.applying_index;
        error = no_error;
        calls = c.calls;
      }

  -- The caller as the iterator has left it.
  abbrev pub leave_iterator :
      ℕ → Iterator P S D W C M → FsmCaller P S D W C M → FsmCaller P S D W C M
  leave_iterator committed_index it c = record c {
    log_manager = it.log_manager;
    machine = it.machine;
    closure_queue = (ClosureQueue.pop_closure_until c.closure_queue committed_index).rest;
    applying_index = it.applying_index;
    calls = it.calls;
  }

  unfoldable pub report : Iterator P S D W C M → FsmCaller P S D W C M → FsmCaller P S D W C M
  unfolding run_the_rest_closure_with_error set_error
  report it c =
      if has_error it then call (run_the_rest_closure_with_error it) (set_error it.error c) else c

  unfoldable pub set_applied : ℕ → ℕ → FsmCaller P S D W C M → FsmCaller P S D W C M
  set_applied committed_index last_index c =
      let term = LogManager.get_term c.log_manager last_index in
      record c {
        last_applied_index = committed_index;
        last_applied_term = term;
        log_manager =
            LogManager.set_applied_id c.log_manager (record { index = last_index; term = term });
      }

  unfoldable pub finish_apply :
      ℕ → Iterator P S D W C M → FsmCaller P S D W C M → FsmCaller P S D W C M
  unfolding report set_applied
  finish_apply committed_index it c =
      set_applied committed_index (it.cur_index - 1)
        (report it (leave_iterator committed_index it c))

  unfoldable pub do_committed : ℕ → FsmCaller P S D W C M → FsmCaller P S D W C M
  unfolding finish_apply apply_all start_iterator
  do_committed committed_index c =
      if not (is_ok c.error.status)
      then c
      else if leb committed_index c.last_applied_index
      then c
      else (let it = start_iterator committed_index c in
          finish_apply committed_index (apply_all (rounds_left it) it) c)
