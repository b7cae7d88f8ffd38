-- ===== src/LogManager/Follower.antt =====
-- `append_entries` on a follower, on each way through `check_and_resolve_conflict`.
use quorumkit.Prelude.{
  ℕ, ◌+◌, ◌-◌, ◌≤◌, ◌<◌, ◌≡◌, ◌⊎◌, subst, refl, sym, inl, inr, false, List, [], ◌∷◌, ltb, leb, ◌==◌,
  length, last_or, arith, Bool-cases,
}
use quorumkit.Peer.{PeerOrder}
use quorumkit.LogEntry.{LogEntry}
use quorumkit.LogStorage.{LogStorage}
use quorumkit.LogManager.{LogManager, unsafe_get_term}
use quorumkit.LogManager.Waiters.{wakeup_all_waiter}
use quorumkit.LogManager.Write.{
  cut_memory, unsafe_truncate_suffix, truncate_conflict, check_and_resolve_conflict,
  append_resolved, after_check, resolve_and_append, append_entries,
}
use quorumkit.LogManager.Terms.{last_or-Runs, trim_term}
use quorumkit.LogManager.Conflict.{
  Settled, IsValid, Split, split, Appended, keeps, Appended-IsValid, reads, Takes, cut_at,
  cut_at-IsValid, Takes-rest,
}
use quorumkit.MemoryLog.Valid.{Runs}

module _ {P S D W : Type 0} ⦃o : PeerOrder P⦄ ⦃s : LogStorage P S⦄ where
  -- The entries follow the last one.
  Takes-next :
      (lm : LogManager P S D W) (e : LogEntry P) (es : List (LogEntry P)) (done : D)
      → IsValid lm
      → Runs e.id.index (e ∷ es)
      → e.id.index ≡ lm.last_log_index + 1
      → Takes lm
          (append_resolved (record lm { last_log_index = (last_or e es).id.index }) (e ∷ es) done).0
          e.id.index
          (e ∷ es)
  unfolding append_resolved wakeup_all_waiter
  Takes-next lm e es done v r h =
      let a : Appended lm
          (append_resolved (record lm { last_log_index = (last_or e es).id.index }) (e ∷ es) done).0
          (e ∷ es) =
        record {
          storage_eq = refl;
          virtual_eq = refl;
          snapshot_eq = refl;
          applied_eq = refl;
          first_eq = refl;
          memory_eq = refl;
          last_eq = omega (arith, last_or-Runs e.id.index e es r);
        } in
      let q : Runs (lm.last_log_index + 1) (e ∷ es) = (h, rw h at r.1) in
      record {
        takes = reads lm _ (e ∷ es) a v q;
        before = λ i l. keeps lm _ (e ∷ es) i a v q (omega arith);
        valid = Appended-IsValid lm _ (e ∷ es) a v q;
      }

  truncated-IsValid :
      (lm : LogManager P S D W) (k : ℕ)
      → IsValid lm
      → lm.applied_id.index ≤ k
      → k ≤ lm.last_log_index
      → IsValid (unsafe_truncate_suffix lm k)
        × ((unsafe_truncate_suffix lm k).last_log_index ≡ k)
        × ((i : ℕ) → i ≤ k → unsafe_get_term (unsafe_truncate_suffix lm k) i ≡ unsafe_get_term lm i)
  unfolding unsafe_truncate_suffix cut_memory unsafe_get_term
  truncated-IsValid lm k v a l =
      let u : ltb k lm.applied_id.index ≡ false = ground arith in
      let w : IsValid (cut_at lm k) = cut_at-IsValid lm k v a l in
      rw u (
        record {
          memory = w.memory;
          virtual_le = w.virtual_le;
          snapshot_le = w.snapshot_le;
          first_le = w.first_le;
          applied_le = w.applied_le;
        },
        refl,
        λ i h. trim_term lm k i v.memory h l,
      )

  -- The entries from the conflict on, appended to what is left of the log.
  Takes-cut :
      (lm cut : LogManager P S D W) (b back : ℕ) (es rest : List (LogEntry P)) (done : D)
      → (sp : Split lm b es rest) → IsValid cut
      → ((i : ℕ) → i ≤ cut.last_log_index → unsafe_get_term cut i ≡ unsafe_get_term lm i)
      → cut.last_log_index + 1 ≡ sp.at
      → back + 1 ≡ b + length es
      → Takes lm (append_resolved (record cut { last_log_index = back }) rest done).0 b es
  unfolding append_resolved wakeup_all_waiter
  Takes-cut lm cut b back es rest done sp v same at ends =
      Takes-rest lm cut _ b es rest sp v same at (record {
        storage_eq = refl;
        virtual_eq = refl;
        snapshot_eq = refl;
        applied_eq = refl;
        first_eq = refl;
        memory_eq = refl;
        last_eq = omega (arith, sp.total);
      })

  -- The entries overlap the log; `rest` are those from the conflict on.
  Takes-overlap :
      (lm : LogManager P S D W) (b back : ℕ) (es rest : List (LogEntry P)) (done : D)
      → IsValid lm
      → 0 < b
      → back + 1 ≡ b + length es
      → Split lm b es rest
      → Takes lm (append_resolved (truncate_conflict lm back rest) rest done).0 b es
  unfolding append_resolved wakeup_all_waiter truncate_conflict
  Takes-overlap lm b back es [] done v pos ends sp =
      let a : Appended lm (append_resolved lm [] done).0 [] = record {
        storage_eq = refl;
        virtual_eq = refl;
        snapshot_eq = refl;
        applied_eq = refl;
        first_eq = refl;
        memory_eq = refl;
        last_eq = omega arith;
      } in
      let kept : (i : ℕ)
          → i < sp.at
          → unsafe_get_term (append_resolved lm [] done).0 i ≡ unsafe_get_term lm i =
        λ i h. keeps lm _ [] i a v tt (omega (arith, sp.at_le)) in
      record {
        takes = sp.joins _ kept tt;
        before = λ i h. kept i (omega (arith, sp.at_ge));
        valid = Appended-IsValid lm _ [] a v tt;
      }
  Takes-overlap lm b back es (c ∷ cs) done v pos ends sp =
      let lo : lm.applied_id.index < sp.at = after_applied sp.open_after in
      let c_at : c.id.index ≡ sp.at = sp.runs.0 in
      elim (Bool-cases (leb c.id.index lm.last_log_index)) [
        | inl y ↦
            let (valid, last, same) =
              truncated-IsValid lm (c.id.index - 1) v (omega arith) (ground arith) in
            rw y (
              Takes-cut lm (unsafe_truncate_suffix lm (c.id.index - 1)) b back es (c ∷ cs) done sp
                valid (λ i h. same i (omega arith)) (omega (arith, sp.at_ge)) ends)
        | inr n ↦ rw n (
            Takes-cut lm lm b back es (c ∷ cs) done sp v (λ i h. refl) (ground (arith, sp.at_le))
              ends)
      ]
    where
      after_applied :
          {at : ℕ} → ((c ∷ cs ≡ []) ⊎ (lm.applied_id.index < at)) → lm.applied_id.index < at
      after_applied (inl e) = absurd (ground arith)
      after_applied (inr l) = l

  pub unguarded :
      (lm : LogManager P S D W) (es : List (LogEntry P)) (done : D)
      → lm.has_error ≡ false
      → append_entries lm es done ≡ resolve_and_append lm es done
  unfolding append_entries
  unguarded lm es done ok = simp ok

  resolved :
      (lm : LogManager P S D W) (e : LogEntry P) (es : List (LogEntry P)) (done : D)
      → IsValid lm
      → Runs e.id.index (e ∷ es)
      → Settled lm (e ∷ es)
      → 0 < e.id.index
      → e.id.index ≤ lm.last_log_index + 1
      → lm.applied_id.index < (last_or e es).id.index
      → Takes lm (resolve_and_append lm (e ∷ es) done).0 e.id.index (e ∷ es)
  unfolding resolve_and_append after_check check_and_resolve_conflict
  resolved lm e es done v r h pos gap fresh =
      let z : e.id.index == 0 ≡ false = ground arith in
      let g : ltb (lm.last_log_index + 1) e.id.index ≡ false = ground arith in
      let l : leb (last_or e es).id.index lm.applied_id.index ≡ false = ground arith in
      elim (Bool-cases (e.id.index == lm.last_log_index + 1)) [
        | inl n ↦ rw (z, g, l, n) (Takes-next lm e es done v r (ground arith))
        | inr n ↦
            rw (z, g, l, n)
              (Takes-overlap lm e.id.index (last_or e es).id.index (e ∷ es) _ done v pos
                (omega (arith, last_or-Runs e.id.index e es r))
                (split lm e.id.index (e ∷ es) v r h gap))
      ]

  -- If the memory is in order, the batch is consecutive, starts at a positive index with no gap and
  -- ends after the applied index, every entry has a term, and no applied entry conflicts, then
  -- `append_entries` on a manager without error answers each entry of the batch with its term, leaves
  -- the terms before the batch, and keeps the manager in order.
  pub append_entries-Takes :
      (lm : LogManager P S D W) (e : LogEntry P) (es : List (LogEntry P)) (done : D)
      → lm.has_error ≡ false
      → IsValid lm
      → Runs e.id.index (e ∷ es)
      → Settled lm (e ∷ es)
      → 0 < e.id.index
      → e.id.index ≤ lm.last_log_index + 1
      → lm.applied_id.index < (last_or e es).id.index
      → Takes lm (append_entries lm (e ∷ es) done).0 e.id.index (e ∷ es)
  append_entries-Takes lm e es done ok v r h pos gap fresh =
      subst (λ x. Takes lm x.0 e.id.index (e ∷ es)) (sym (unguarded lm (e ∷ es) done ok))
        (resolved lm e es done v r h pos gap fresh)
