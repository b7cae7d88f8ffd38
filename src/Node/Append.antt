-- ===== src/Node/Append.antt =====
-- `handle_append_entries_request` and the closure that answers it when the entries are stable, on a
-- node and its log manager. `parse` is the parser of a peer's name, `saved` whether a write of the meta
-- storage succeeds, `now` the clock, `installing` whether a snapshot is being installed, and `cached`
-- whether the cache of out-of-order requests takes this one.
use quorumkit.Prelude.{
  map, ℕ, ◌+◌, min, Bool, true, false, not, ◌&&◌, List, [], ◌∷◌, Option, none, some, ltb, ◌==◌,
  if◌then◌else◌, length, null, take, drop,
}
use quorumkit.Errno.{Code, is_ok, einval, ebusy, erequest, eleader_conflict}
use quorumkit.Peer.{PeerOrder}
use quorumkit.LogEntry.{LogEntry, EntryType, unknown}
use quorumkit.LogStorage.{LogStorage}
use quorumkit.LogManager.{LogManager, Event}
use quorumkit.LogManager
use quorumkit.LogManager.Write.{append_entries}
use quorumkit.BallotBox
use quorumkit.BallotBox.{Committed}
use quorumkit.Lease.Follower
use quorumkit.Node.{Node, Effect, is_active_state, ◌▸◌}
use quorumkit.Node.StepDown.{step_down, check_step_down}

-- `EntryMeta` of raft.proto; its peers are names.
pub record EntryMeta (N : Type 0) : Type 0 where
  pub type : EntryType
  pub term : ℕ
  pub peers : List N
  pub old_peers : List N
  pub data_len : Option ℕ

pub record AppendEntriesRequest (N : Type 0) : Type 0 where
  pub server_id : N
  pub term : ℕ
  pub prev_log_index : ℕ
  pub prev_log_term : ℕ
  pub committed_index : ℕ
  pub entries : List (EntryMeta N)
  pub attachment : List ℕ

-- What the closures of the log manager carry: that of a follower's answer, and that of a leader.
pub data StableClosure (A : Type 0) : Type 0 where
  follower_stable : (committed_index : ℕ) (last_index : ℕ) (term : ℕ) → A → StableClosure A
  leader_stable : (nentries : ℕ) → StableClosure A

-- The answer: a failed RPC, a response, or none yet.
pub data Reply : Type 0 where
  fails : Code → Reply
  answers : (success : Bool) (term : ℕ) (last_log_index : Option ℕ) → Reply
  later caches : Reply

pub record Outcome (P S C W A : Type 0) : Type 0 where
  pub node : Node P C
  pub log : LogManager P S (StableClosure A) W
  pub effects : List (Effect P C)
  pub events : List (Event (StableClosure A) W)
  pub reply : Reply
  pub on_committed : Option ℕ

abbrev pub data_length : Option ℕ → ℕ
data_length none = 0
data_length (some n) = n

abbrev pub is_unknown : EntryType → Bool
is_unknown unknown = true
is_unknown t = false

module _ {P : Type 0} where
  abbrev pub listed : List P → Option (List P)
  listed [] = none
  listed (p ∷ ps) = some (p ∷ ps)

  -- The old peers are read only where there are peers.
  abbrev pub listed_old : List P → List P → Option (List P)
  listed_old [] old_peers = none
  listed_old (p ∷ ps) old_peers = listed old_peers

module _ {P : Type 0} ⦃o : PeerOrder P⦄ where
  abbrev pub or_empty : Option P → P
  or_empty none = o.empty_peer
  or_empty (some p) = p

module _ {P N : Type 0} ⦃o : PeerOrder P⦄ where
  -- `PeerId` made of a name; one that does not parse leaves the empty peer.
  unfoldable pub peer_of : (N → Option P) → N → P
  peer_of parse name = or_empty (parse name)

  unfoldable pub entry_of : (N → Option P) → ℕ → EntryMeta N → List ℕ → LogEntry P
  unfolding peer_of
  entry_of parse index e attachment = record {
    type = e.type;
    id = record { index = index; term = e.term };
    peers = listed (map (peer_of parse) e.peers);
    old_peers = listed_old (map (peer_of parse) e.peers) (map (peer_of parse) e.old_peers);
    content = take (data_length e.data_len) attachment;
  }

  -- The loop over the entries; one of unknown type takes an index and nothing else.
  unfoldable pub parse_entries :
      (N → Option P) → ℕ → List (EntryMeta N) → List ℕ → List (LogEntry P)
  unfolding entry_of
  parse_entries parse index [] attachment = []
  parse_entries parse index (e ∷ es) attachment =
      let skipped = parse_entries parse (index + 1) es attachment in
      let rest = parse_entries parse (index + 1) es (drop (data_length e.data_len) attachment) in
      if is_unknown e.type then skipped else entry_of parse (index + 1) e attachment ∷ rest

module _ {P S C W A : Type 0} where
  abbrev pub outcome :
      Node P C × List (Effect P C) → LogManager P S (StableClosure A) W → Reply → Outcome P S C W A
  outcome r lm reply = record {
    node = r.0;
    log = lm;
    effects = r.1;
    events = [];
    reply = reply;
    on_committed = none;
  }

module _ {P S C W A N : Type 0} ⦃o : PeerOrder P⦄ ⦃s : LogStorage P S⦄ where
  -- A heartbeat, or a probe that matches.
  unfoldable pub accept_empty :
      AppendEntriesRequest N
      → Node P C × List (Effect P C)
      → LogManager P S (StableClosure A) W
      → Outcome P S C W A
  accept_empty request r lm =
      let committed =
        BallotBox.set_last_committed_index r.0.ballot_box
          (min request.committed_index request.prev_log_index) in
      record {
        node = record r.0 { ballot_box = committed.box };
        log = lm;
        effects = r.1;
        events = [];
        reply = answers true r.0.current_term (some lm.last_log_index);
        on_committed = committed.on_committed;
      }

  -- Two leaders in one term: both are to step down.
  unfoldable pub conflict :
      Bool
      → AppendEntriesRequest N
      → Node P C × List (Effect P C)
      → LogManager P S (StableClosure A) W
      → Outcome P S C W A
  unfolding step_down
  conflict saved request r lm =
      outcome (r ▸ step_down saved (request.term + 1) false eleader_conflict) lm
        (answers false (request.term + 1) none)

module _ {P S C W A N : Type 0} ⦃o : PeerOrder P⦄ ⦃s : LogStorage P S⦄ (parse : N → Option P) where
  unfoldable pub accept_entries :
      A
      → AppendEntriesRequest N
      → Node P C × List (Effect P C)
      → LogManager P S (StableClosure A) W
      → Outcome P S C W A
  unfolding parse_entries
  accept_entries done request r lm =
      let closure =
        follower_stable request.committed_index (request.prev_log_index + length request.entries)
          r.0.current_term done in
      let (written, events) =
        append_entries lm
          (parse_entries parse request.prev_log_index request.entries request.attachment) closure in
      record {
        node = record r.0 { conf = (LogManager.check_and_set_configuration written r.0.conf).0 };
        log = written;
        effects = r.1;
        events = events;
        reply = later;
        on_committed = none;
      }

  -- The part that asks the log.
  unfoldable pub match_log :
      Bool
      → Bool
      → A
      → AppendEntriesRequest N
      → Node P C × List (Effect P C)
      → LogManager P S (StableClosure A) W
      → Outcome P S C W A
  unfolding accept_empty accept_entries
  match_log from_cache cached done request r lm =
      if not (LogManager.get_term lm request.prev_log_index == request.prev_log_term)
      then outcome r lm (
          if not from_cache && cached
          then caches
          else answers false r.0.current_term (some lm.last_log_index))
      else if null request.entries
      then accept_empty request r lm
      else accept_entries done request r lm

  -- The sender is the leader that the node follows.
  unfoldable pub from_leader :
      Bool
      → Bool
      → Bool
      → ℕ
      → A
      → AppendEntriesRequest N
      → Node P C × List (Effect P C)
      → LogManager P S (StableClosure A) W
      → Outcome P S C W A
  unfolding match_log
  from_leader installing from_cache cached now done request r lm =
      let n =
        if from_cache
        then r.0
        else record r.0 { follower_lease = Follower.renew r.0.follower_lease now r.0.leader_id } in
      if not (null request.entries) && installing
      then outcome (n, r.1) lm (fails ebusy)
      else match_log from_cache cached done request (n, r.1) lm

  unfoldable pub handle_parsed :
      Bool
      → Bool
      → Bool
      → Bool
      → ℕ
      → A
      → Option P
      → AppendEntriesRequest N
      → Node P C
      → LogManager P S (StableClosure A) W
      → Outcome P S C W A
  unfolding check_step_down conflict from_leader
  handle_parsed saved installing from_cache cached now done none request n lm =
      outcome (n, []) lm (fails erequest)
  handle_parsed saved installing from_cache cached now done (some server_id) request n lm =
      let r = check_step_down saved request.term server_id n in
      if ltb request.term n.current_term
      then outcome (n, []) lm (answers false n.current_term none)
      else if not (o.peer_eq server_id r.0.leader_id)
      then conflict saved request r lm
      else from_leader installing from_cache cached now done request r lm

  unfoldable pub handle_append_entries_request :
      Bool
      → Bool
      → Bool
      → Bool
      → ℕ
      → A
      → AppendEntriesRequest N
      → Node P C
      → LogManager P S (StableClosure A) W
      → Outcome P S C W A
  unfolding handle_parsed
  handle_append_entries_request saved installing from_cache cached now done request n lm =
      if not (is_active_state n.state)
      then outcome (n, []) lm (fails einval)
      else handle_parsed saved installing from_cache cached now done (parse request.server_id)
          request n lm

module _ {P C : Type 0} ⦃o : PeerOrder P⦄ where
  -- `FollowerStableClosure::run`: the node, the answer and the index that is committed now.
  unfoldable pub follower_stable_run :
      Code → (committed_index last_index term : ℕ) → Node P C → Node P C × Reply × Option ℕ
  follower_stable_run status committed_index last_index term n =
      let committed =
        BallotBox.set_last_committed_index n.ballot_box (min committed_index last_index) in
      if not (is_ok status)
      then (n, fails status, none)
      else if not (term == n.current_term)
      then (n, answers false n.current_term none, none)
      else (record n { ballot_box = committed.box }, answers true term none, committed.on_committed)
