-- ===== src/LogManager/Consistency.antt =====
-- A new snapshot leaves a log that joins it, whichever way the log is cut.
use quorumkit.Prelude.{
  ℕ, ◌+◌, ◌≤◌, ◌<◌, ◌≡◌, ◌⊎◌, refl, inl, inr, false, ltb, leb, ◌==◌, arith, Bool-cases,
}
use quorumkit.Errno.{ok}
use quorumkit.Peer.{PeerOrder}
use quorumkit.LogEntry.{LogId, id_eq, id_gt}
use quorumkit.LogStorage.{LogStorage}
use quorumkit.LogManager.{LogManager, check_consistency, unsafe_get_term}
use quorumkit.LogManager.Write.{truncate_prefix, reset}
use quorumkit.LogManager.Snapshot.{SnapshotMeta, set_snapshot, note_snapshot, drop_through, cut_log}

module _ {P : Type 0} where
  abbrev pub id_of : SnapshotMeta P → LogId
  id_of meta = record { index = meta.last_included_index; term = meta.last_included_term }

module _ {P S D W : Type 0} where
  applied-note_snapshot :
      (lm : LogManager P S D W) (id : LogId) → id_gt id (note_snapshot lm id).applied_id ≡ false
  unfolding note_snapshot id_gt
  applied-note_snapshot lm id = ground arith

module _ {P S D W : Type 0} ⦃s : LogStorage P S⦄ where
  -- The log joins its last snapshot, which is that of `meta`.
  pub record Joins (lm : LogManager P S D W) (meta : SnapshotMeta P) : Type 0 where
    pub consistent : check_consistency lm ≡ ok
    pub index_is : lm.last_snapshot_id.index ≡ meta.last_included_index
    pub virtual_le : lm.virtual_first_log_id.index ≤ lm.last_snapshot_id.index
    pub applied_ge : id_gt lm.last_snapshot_id lm.applied_id ≡ false
    pub answers : unsafe_get_term lm meta.last_included_index ≡ meta.last_included_term

  joins :
      (lm : LogManager P S D W) (meta : SnapshotMeta P)
      → lm.last_snapshot_id ≡ id_of meta
      → 0 < meta.last_included_index
      → id_gt (id_of meta) lm.applied_id ≡ false
      → (lm.virtual_first_log_id ≡ id_of meta)
        ⊎ (lm.virtual_first_log_id.index < meta.last_included_index)
      → lm.first_log_index ≤ meta.last_included_index + 1
      → meta.last_included_index ≤ lm.last_log_index
      → Joins lm meta
  unfolding check_consistency id_eq unsafe_get_term
  joins lm meta e pos a v lo hi = record {
    consistent = ground arith;
    index_is = ground arith;
    virtual_le = ground arith;
    applied_ge = ground arith;
    answers = ground arith;
  }

  -- An index after the snapshots with a term is one of the log.
  in_log :
      (lm : LogManager P S D W) (i : ℕ)
      → lm.virtual_first_log_id.index < i
      → lm.last_snapshot_id.index < i
      → (unsafe_get_term lm i == 0 ≡ false)
      → (lm.first_log_index ≤ i) × (i ≤ lm.last_log_index)
  unfolding unsafe_get_term
  in_log lm i v h n = ground arith

  first_le :
      (lm : LogManager P S D W)
      → check_consistency lm ≡ ok
      → lm.first_log_index ≤ lm.last_snapshot_id.index + 1
  unfolding check_consistency id_eq
  first_le lm h = ground arith

  cut_log-Joins :
      (lm : LogManager P S D W) (last_but_one : LogId) (meta : SnapshotMeta P) (term : ℕ)
      → lm.last_snapshot_id ≡ id_of meta
      → id_gt (id_of meta) lm.applied_id ≡ false
      → lm.virtual_first_log_id.index < meta.last_included_index
      → last_but_one.index < meta.last_included_index
      → (term == 0 ≡ false
          → (lm.first_log_index ≤ meta.last_included_index)
            × (meta.last_included_index ≤ lm.last_log_index))
      → Joins (cut_log lm last_but_one (id_of meta) term) meta
  unfolding cut_log drop_through truncate_prefix reset
  cut_log-Joins lm last_but_one meta term e a v b within = elim (Bool-cases (term == 0)) [
    | inl z ↦
        rw (cut_log, z) (joins _ meta e (omega arith) a (inl refl) (omega arith) (ground arith))
    | inr z ↦ elim (Bool-cases (term == meta.last_included_term)) [
      | inl y ↦ elim (Bool-cases (ltb 0 last_but_one.index)) [
        | inl x ↦
            rw (cut_log, z, y, x)
              (joins _ meta e (omega arith) a (inr b) (omega arith) (ground (arith, within z)))
        | inr x ↦
            rw (cut_log, z, y, x)
              (joins lm meta e (omega arith) a (inr v) (omega (arith, within z)) (within z).1)
      ]
      | inr y ↦
          rw (cut_log, z, y) (joins _ meta e (omega arith) a (inl refl) (omega arith) (omega arith))
    ]
  ]

module _ {P S D W : Type 0} ⦃o : PeerOrder P⦄ ⦃s : LogStorage P S⦄ where
  -- If a manager passes `check_consistency` and its virtual first id is not after the last snapshot,
  -- then for a newer snapshot the first index is at most one after the last snapshot and at most one
  -- after the new one, so that no truncation goes back; and the new snapshot leaves a manager that
  -- passes `check_consistency` again, whose virtual first id is not after the new last snapshot,
  -- which has applied at least the snapshot's identifier, and which answers its index with its term.
  pub set_snapshot-check_consistency :
      (lm : LogManager P S D W) (meta : SnapshotMeta P)
      → check_consistency lm ≡ ok
      → lm.virtual_first_log_id.index ≤ lm.last_snapshot_id.index
      → lm.last_snapshot_id.index < meta.last_included_index
      → (lm.first_log_index ≤ lm.last_snapshot_id.index + 1)
        × (lm.first_log_index ≤ meta.last_included_index + 1)
        × Joins (set_snapshot lm meta) meta
  unfolding set_snapshot note_snapshot unsafe_get_term
  set_snapshot-check_consistency lm meta ok_before v h =
      let n : leb meta.last_included_index lm.last_snapshot_id.index ≡ false = ground arith in
      let first = first_le lm ok_before in
      (
        first,
        omega (arith, first),
        rw n (
            cut_log-Joins _ lm.last_snapshot_id meta _ refl (applied-note_snapshot lm (id_of meta))
              (omega arith) h (in_log lm meta.last_included_index (omega arith) h)),
      )
