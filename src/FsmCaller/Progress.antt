-- ===== src/FsmCaller/Progress.antt =====
-- How far commits take the caller.
use mathlib.Core.Bool.{true≢false}
use quorumkit.Prelude.{
  ℕ, ◌+◌, ◌-◌, ◌≤◌, ◌<◌, ◌≡◌, max, inl, inr, refl, sym, ap, ◌∙◌, true, false, List, [], ◌∷◌, map,
  Option, none, some, leb, ltb, arith, Bool-cases,
}
use quorumkit.Errno.{is_ok}
use quorumkit.Peer.{PeerOrder}
use quorumkit.LogEntry.{LogEntry}
use quorumkit.LogStorage.{LogStorage}
use quorumkit.LogManager.{LogManager}
use quorumkit.LogManager
use quorumkit.FsmCaller.{UserMachine, SnapshotUser, FsmCaller, committing}
use quorumkit.FsmCaller.Iterate.{
  Iterator, has_error, rounds_left, apply_all, start_iterator, report, set_applied, finish_apply,
  do_committed, next, read_entry,
}
use quorumkit.FsmCaller.Tasks.{committed, commit_batch, run_loop, exceeds, counter_after}
use quorumkit.FsmCaller.Replay.{replay, gives_up, Before, apply_all_replays}

module _ {P S D W C M : Type 0} ⦃s : LogStorage P S⦄ ⦃u : UserMachine P M⦄ where
  start-Before :
      (log : ℕ → LogEntry P) (committed_index : ℕ) (c : FsmCaller P S D W C M)
      → c.last_applied_index < committed_index
      → LogManager.get_entry {D = D} {W = W} c.log_manager (c.last_applied_index + 1)
        ≡ (c.log_manager, some (log (c.last_applied_index + 1)), [])
      → Before log c.log_manager
          (c.last_applied_index + 1)
          committed_index
          c.machine
          (start_iterator committed_index c)
  unfolding start_iterator next read_entry
  start-Before log committed_index c h g =
      let a : leb c.last_applied_index committed_index ≡ true = ground arith in
      let b : leb (c.last_applied_index + 1) committed_index ≡ true = ground arith in
      let z : c.last_applied_index + 1 - (c.last_applied_index + 1) ≡ 0 = omega arith in
      rw (a, b, g, z) ((refl, refl, refl, rw b refl, omega arith, omega arith), refl)

  do_committed_runs :
      (committed_index : ℕ) (c : FsmCaller P S D W C M)
      → is_ok c.error.status ≡ true
      → c.last_applied_index < committed_index
      → do_committed committed_index c
        ≡ finish_apply committed_index
            (apply_all
              (rounds_left (start_iterator committed_index c))
              (start_iterator committed_index c))
            c
  unfolding do_committed
  do_committed_runs committed_index c h k =
      let a : leb committed_index c.last_applied_index ≡ false = ground arith in rw (h, a) refl

  finish_clean :
      (committed_index : ℕ) (it : Iterator P S D W C M) (c : FsmCaller P S D W C M)
      → has_error it ≡ false
      → let r = finish_apply committed_index it c in
        (r.machine ≡ it.machine)
        × (r.last_applied_index ≡ committed_index)
        × (r.last_applied_term ≡ LogManager.get_term it.log_manager (it.cur_index - 1))
        × (r.error ≡ c.error)
  unfolding finish_apply report set_applied
  finish_clean committed_index it c h = rw h (refl, refl, refl, refl)

  -- If the log holds the entries from the last applied one to the committed one, and the user reports
  -- no error, a commit takes the user's machine through each of those entries once, in the order of
  -- their indexes, also where the user's loop returns before the end, which is no error; the caller then stands at the committed
  -- index and the term that the log has there, without an error.
  pub do_committed-replay :
      (log : ℕ → LogEntry P) (committed_index : ℕ) (c : FsmCaller P S D W C M)
      → is_ok c.error.status ≡ true
      → c.last_applied_index < committed_index
      → ((i : ℕ)
          → c.last_applied_index + 1 ≤ i
          → i ≤ committed_index
          → LogManager.get_entry {D = D} {W = W} c.log_manager i
            ≡ (c.log_manager, some (log i), []))
      → ((m : M) (e : LogEntry P) → gives_up (u.visit m e).1 ≡ false)
      → let r = do_committed committed_index c in
        (r.machine
          ≡ replay log
              (c.last_applied_index + 1)
              (committed_index - c.last_applied_index)
              c.machine)
        × (r.last_applied_index ≡ committed_index)
        × (r.last_applied_term ≡ LogManager.get_term c.log_manager committed_index)
        × (is_ok r.error.status ≡ true)
  do_committed-replay log committed_index c h k holds goes =
      let it = start_iterator committed_index c in
      let r = apply_all (rounds_left it) it in
      let (a, b, i, l) =
        apply_all_replays log c.log_manager (c.last_applied_index + 1) committed_index c.machine
          holds goes it
          (start-Before log committed_index c k
            (holds (c.last_applied_index + 1) (omega arith) (omega arith))) in
      let (x, y, z, e) = finish_clean committed_index r c b in
      let n : committed_index + 1 - (c.last_applied_index + 1)
          ≡ committed_index - c.last_applied_index =
        omega arith in
      let j : r.cur_index - 1 ≡ committed_index = omega (arith, i) in
      rw (do_committed_runs committed_index c h k) (
        x ∙ a ∙ ap (λ n. replay log (c.last_applied_index + 1) n c.machine) n,
        y,
        z
            ∙ ap (λ m. LogManager.get_term m (r.cur_index - 1)) l
            ∙ ap (λ i. LogManager.get_term c.log_manager i) j,
        ap (λ e. is_ok e.status) e ∙ h,
      )

abbrev pub greatest : List ℕ → ℕ → ℕ
greatest [] m = m
greatest (i ∷ is) m = greatest is (max m i)

abbrev or_applied : Option ℕ → ℕ → ℕ
or_applied none m = m
or_applied (some i) m = max m i

module _ {P S D W C M : Type 0} ⦃s : LogStorage P S⦄ ⦃u : UserMachine P M⦄ where
  -- No error now means none before, and the greatest index was applied.
  abbrev Reached : ℕ → FsmCaller P S D W C M → FsmCaller P S D W C M → Type 0
  Reached i c r =
      is_ok r.error.status ≡ true → (is_ok c.error.status ≡ true) × (r.last_applied_index ≡ i)

  finish_applied :
      (i : ℕ) (it : Iterator P S D W C M) (c : FsmCaller P S D W C M)
      → (finish_apply i it c).last_applied_index ≡ i
  unfolding finish_apply set_applied
  finish_applied i it c = refl

  failed_same :
      (i : ℕ) (c : FsmCaller P S D W C M) → is_ok c.error.status ≡ false → do_committed i c ≡ c
  unfolding do_committed
  failed_same i c h = rw h refl

  late_same :
      (i : ℕ) (c : FsmCaller P S D W C M)
      → is_ok c.error.status ≡ true
      → leb i c.last_applied_index ≡ true
      → do_committed i c ≡ c
  unfolding do_committed
  late_same i c h k = rw (h, k) refl

  do_committed-Reached :
      (i : ℕ) (c : FsmCaller P S D W C M)
      → Reached (max c.last_applied_index i) c (do_committed i c)
  do_committed-Reached i c = elim (Bool-cases (is_ok c.error.status)) [
    | inr h ↦
        λ e. absurd (true≢false (sym e ∙ ap (λ x. is_ok x.error.status) (failed_same i c h) ∙ h))
    | inl h ↦ elim (Bool-cases (leb i c.last_applied_index)) [
      | inl k ↦ λ e. (h, ap (λ x. x.last_applied_index) (late_same i c h k) ∙ ground arith)
      | inr k ↦
          let it = start_iterator i c in
          let m : max c.last_applied_index i ≡ i = ground arith in
          λ e. (
            h,
            ap (λ x. x.last_applied_index) (do_committed_runs i c h (ground arith))
                ∙ finish_applied i (apply_all (rounds_left it) it) c
                ∙ sym m,
          )
    ]
  ]

  commit_batch-Reached :
      (pending : Option ℕ) (c : FsmCaller P S D W C M)
      → Reached (or_applied pending c.last_applied_index) c (commit_batch pending c)
  unfolding commit_batch
  commit_batch-Reached none c = λ e. (e, refl)
  commit_batch-Reached (some i) c = do_committed-Reached i (record c { cur_task = committing })

exceeds_applied :
    (i : ℕ) (pending : Option ℕ) (m : ℕ)
    → exceeds i pending ≡ true
    → max m i ≡ max (or_applied pending m) i
exceeds_applied i none m h = refl
exceeds_applied i (some p) m h = ground arith

covered_applied :
    (i : ℕ) (pending : Option ℕ) (m : ℕ)
    → exceeds i pending ≡ false
    → or_applied pending m ≡ max (or_applied pending m) i
covered_applied i none m h = absurd (ground arith)
covered_applied i (some p) m h = ground arith

module _ {P S D W C M : Type 0} (R : Type 0) ⦃s : LogStorage P S⦄ ⦃o : PeerOrder P⦄
    ⦃u : UserMachine P M⦄ ⦃v : SnapshotUser R M⦄ where
  run_commits :
      (batch_size : ℕ) (pending : Option ℕ) (counter : ℕ) (is : List ℕ) (c : FsmCaller P S D W C M)
      → Reached
          (greatest is (or_applied pending c.last_applied_index))
          c
          (run_loop {R = R} batch_size pending counter (map committed is) c)
  unfolding run_loop
  run_commits batch_size pending counter [] c = commit_batch-Reached pending c
  run_commits batch_size pending counter (i ∷ is) c = elim (Bool-cases (ltb counter batch_size)) [
    | inl x ↦ elim (Bool-cases (exceeds i pending)) [
      | inl y ↦
          rw (x, y)
            (λ e.
              let (h, k) = run_commits batch_size (some i) (counter + 1) is c e in
              (h, k ∙ ap (greatest is) (exceeds_applied i pending c.last_applied_index y)))
      | inr y ↦
          rw (x, y)
            (λ e.
              let (h, k) = run_commits batch_size pending counter is c e in
              (h, k ∙ ap (greatest is) (covered_applied i pending c.last_applied_index y)))
    ]
    | inr x ↦
        let b = commit_batch pending c in
        rw x (λ e.
          let (h, k) = run_commits batch_size (some i) (counter_after pending counter + 1) is b e in
          let (h', k') = commit_batch-Reached pending c h in
          (h', k ∙ ap (λ m. greatest is (max m i)) k'))
  ]

  -- Whatever the batch size, a run over committed indexes, in any order, that ends without an error
  -- began without one and has applied up to the greatest of them: batching loses no commit, and a
  -- lower index never moves the caller back.
  pub run_loop-commits :
      (batch_size : ℕ) (is : List ℕ) (c : FsmCaller P S D W C M)
      → let r = run_loop {R = R} batch_size none 0 (map committed is) c in
        is_ok r.error.status ≡ true
        → (is_ok c.error.status ≡ true) × (r.last_applied_index ≡ greatest is c.last_applied_index)
  run_loop-commits batch_size is c = run_commits batch_size none 0 is c
