-- ===== src/LogManager/Snapshot.antt =====
-- The log after a snapshot: `set_snapshot` and `clear_bufferred_logs`.
use quorumkit.Prelude.{ℕ, ◌+◌, not, List, ltb, leb, ◌==◌, if◌then◌else◌}
use quorumkit.Peer.{PeerOrder}
use quorumkit.Configuration.{of_vector}
use quorumkit.LogEntry.{LogId, id_gt}
use quorumkit.ConfigurationManager
use quorumkit.ConfigurationManager.{ConfigurationEntry}
use quorumkit.LogStorage.{LogStorage}
use quorumkit.LogManager.{LogManager, unsafe_get_term}
use quorumkit.LogManager.Write.{truncate_prefix, reset}

-- The `SnapshotMeta` message.
pub record SnapshotMeta (P : Type 0) : Type 0 where
  pub last_included_index : ℕ
  pub last_included_term : ℕ
  pub peers : List P
  pub old_peers : List P

module _ {P S D W : Type 0} where
  -- The snapshot becomes the last one; what is applied is at least that.
  unfoldable pub note_snapshot : LogManager P S D W → LogId → LogManager P S D W
  note_snapshot lm id = record lm {
    last_snapshot_id = id;
    applied_id = if id_gt id lm.applied_id then id else lm.applied_id;
  }

  -- The log starts over after `id`, whose term stays known.
  unfoldable pub drop_through : LogManager P S D W → LogId → LogManager P S D W
  unfolding truncate_prefix
  drop_through lm id = truncate_prefix (record lm { virtual_first_log_id = id }) (id.index + 1)

  -- The three ways to cut the log, by the term that it had for the index of the snapshot.
  unfoldable pub cut_log : LogManager P S D W → LogId → LogId → ℕ → LogManager P S D W
  unfolding drop_through reset
  cut_log lm last_but_one id term =
      if term == 0
      then drop_through lm id
      else if term == id.term
      then (if ltb 0 last_but_one.index then drop_through lm last_but_one else lm)
      else reset (record lm { virtual_first_log_id = id }) (id.index + 1)

  unfoldable pub clear_bufferred_logs : LogManager P S D W → LogManager P S D W
  unfolding drop_through
  clear_bufferred_logs lm =
      if not (lm.last_snapshot_id.index == 0) then drop_through lm lm.last_snapshot_id else lm

module _ {P S D W : Type 0} ⦃o : PeerOrder P⦄ ⦃s : LogStorage P S⦄ where
  unfoldable pub set_snapshot : LogManager P S D W → SnapshotMeta P → LogManager P S D W
  unfolding note_snapshot cut_log
  set_snapshot lm meta =
      let id : LogId = record {
        index = meta.last_included_index;
        term = meta.last_included_term;
      } in
      let entry : ConfigurationEntry P = record {
        id = id;
        conf = of_vector meta.peers;
        old_conf = of_vector meta.old_peers;
      } in
      let configured = record lm {
        config_manager = ConfigurationManager.set_snapshot lm.config_manager entry;
      } in
      if leb id.index lm.last_snapshot_id.index
      then lm
      else cut_log (note_snapshot configured id) lm.last_snapshot_id id
          (unsafe_get_term configured id.index)
