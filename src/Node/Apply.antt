-- ===== src/Node/Apply.antt =====
-- `NodeImpl::apply`, `unsafe_apply_configuration` and `LeaderStableClosure::Run`: what a leader does
-- with the tasks of its users. `node_readonly` is `_node_readonly`. The ballot box takes one ballot
-- and one closure for each entry.
use quorumkit.Prelude.{
  ℕ, ◌+◌, ◌-◌, Bool, true, not, ◌||◌, List, [], ◌∷◌, ◌++◌, Option, none, some, ◌==◌, if◌then◌else◌,
  length,
}
use quorumkit.Errno.{Code, is_ok, eperm, ebusy, ereadonly}
use quorumkit.Peer.{PeerOrder}
use quorumkit.BallotBox
use quorumkit.BallotBox.{BallotBox}
use quorumkit.LogEntry.{LogEntry, user_data, configuration}
use quorumkit.ConfigurationManager.{ConfigurationEntry, stable}
use quorumkit.LogStorage.{LogStorage}
use quorumkit.LogManager.{LogManager, Event}
use quorumkit.LogManager
use quorumkit.LogManager.Write.{append_entries}
use quorumkit.Node.{Node, State, transferring, is_leader}
use quorumkit.Node.Append.{StableClosure, leader_stable}

-- `LogEntryAndClosure`, with the bytes of its entry; no expected term stands for -1.
pub record Task (C : Type 0) : Type 0 where
  pub content : List ℕ
  pub done : Option C
  pub expected_term : Option ℕ

-- The node, its log and the closures that run at once, with their status.
pub record Applied (P S C W A : Type 0) : Type 0 where
  pub node : Node P C
  pub log : LogManager P S (StableClosure A) W
  pub events : List (Event (StableClosure A) W)
  pub runs : List (C × Code)

module _ {C : Type 0} where
  abbrev pub run_done : Option C → Code → List (C × Code)
  run_done none code = []
  run_done (some c) code = (c, code) ∷ []

  unfoldable pub refuse_all : Code → List (Task C) → List (C × Code)
  refuse_all code [] = []
  refuse_all code (t ∷ ts) = run_done t.done code ++ refuse_all code ts

abbrev pub expects : Option ℕ → ℕ → Bool
expects none term = true
expects (some expected) term = expected == term

abbrev pub refusal : State → Bool → Code
refusal State.leader readonly = if readonly then ereadonly else eperm
refusal transferring readonly = ebusy
refusal s readonly = eperm

module _ {P : Type 0} where
  abbrev pub old_conf_of : ConfigurationEntry P → Option (List P)
  old_conf_of conf = if stable conf then none else some conf.old_conf

  -- The index is given by the log manager.
  abbrev pub user_entry : ℕ → List ℕ → LogEntry P
  user_entry term content = record {
    type = user_data;
    id = record { index = 0; term = term };
    peers = none;
    old_peers = none;
    content = content;
  }

module _ {P C : Type 0} ⦃o : PeerOrder P⦄ where
  -- The loop over the tasks of a leader: the entries, the ballot box, and the closures that run.
  unfoldable pub take_tasks :
      ConfigurationEntry P
      → ℕ
      → List (Task C)
      → BallotBox P C
      → List (LogEntry P) × BallotBox P C × List (C × Code)
  take_tasks conf term [] box = ([], box, [])
  take_tasks conf term (t ∷ ts) box =
      let refused = take_tasks conf term ts box in
      let taken =
        take_tasks conf term ts
          (BallotBox.append_pending_task box conf.conf (old_conf_of conf) t.done) in
      if expects t.expected_term term
      then (user_entry term t.content ∷ taken.0, taken.1, taken.2)
      else (refused.0, refused.1, run_done t.done eperm ++ refused.2)

module _ {P S C W A : Type 0} ⦃o : PeerOrder P⦄ ⦃s : LogStorage P S⦄ where
  unfoldable pub append_tasks :
      List (Task C) → Node P C → LogManager P S (StableClosure A) W → Applied P S C W A
  unfolding take_tasks
  append_tasks tasks n lm =
      let (entries, box, runs) = take_tasks n.conf n.current_term tasks n.ballot_box in
      let (written, events) = append_entries lm entries (leader_stable (length entries)) in
      record {
        node = record n {
          ballot_box = box;
          conf = (LogManager.check_and_set_configuration written n.conf).0;
        };
        log = written;
        events = events;
        runs = runs;
      }

  unfoldable pub apply :
      Bool → List (Task C) → Node P C → LogManager P S (StableClosure A) W → Applied P S C W A
  unfolding append_tasks refuse_all
  apply node_readonly tasks n lm =
      let readonly = node_readonly || n.majority_nodes_readonly in
      if not (is_leader n.state) || readonly
      then record {
        node = n;
        log = lm;
        events = [];
        runs = refuse_all (refusal n.state readonly) tasks;
      }
      else append_tasks tasks n lm

  -- The quorum of this very entry is that of the new configuration; `change_done` is the closure.
  unfoldable pub unsafe_apply_configuration :
      List P
      → Option (List P)
      → C
      → Node P C
      → LogManager P S (StableClosure A) W
      → Applied P S C W A
  unsafe_apply_configuration new_conf old_conf change_done n lm =
      let (written, events) =
        append_entries lm
          (record {
            type = configuration;
            id = record { index = 0; term = n.current_term };
            peers = some new_conf;
            old_peers = old_conf;
            content = [];
          }
            ∷ [])
          (leader_stable 1) in
      record {
        node = record n {
          ballot_box =
              BallotBox.append_pending_task n.ballot_box new_conf old_conf (some change_done);
          conf = (LogManager.check_and_set_configuration written n.conf).0;
        };
        log = written;
        events = events;
        runs = [];
      }

module _ {P C : Type 0} ⦃o : PeerOrder P⦄ where
  -- `LeaderStableClosure::Run`: the box after it, and the index that is committed now.
  unfoldable pub leader_stable_run :
      Code → (first_log_index nentries : ℕ) → P → BallotBox P C → BallotBox P C × Option ℕ
  leader_stable_run status first_log_index nentries server_id box =
      let r = BallotBox.commit_at box first_log_index (first_log_index + nentries - 1) server_id in
      if is_ok status then (r.box, r.on_committed) else (box, none)
