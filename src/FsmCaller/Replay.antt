-- ===== src/FsmCaller/Replay.antt =====
-- What a commit does to the user's machine: every entry once, in the order of the indexes.
use quorumkit.Prelude.{
  ℕ, zero, suc, ◌+◌, ◌-◌, ◌≤◌, ◌<◌, ◌≡◌, ◌⊎◌, inl, inr, refl, sym, ap, subst, ◌∙◌, Bool, true,
  false, List, [], ◌∷◌, ◌++◌, Option, none, some, leb, le→leb, if◌then◌else◌, arith, Bool-cases,
}
use quorumkit.Errno.{ok}
use quorumkit.LogEntry.{LogEntry}
use quorumkit.LogStorage.{LogStorage}
use quorumkit.LogManager.{LogManager}
use quorumkit.LogManager
use quorumkit.FsmCaller.{Act, go_on, leave, give_up, UserMachine, Call, apply}
use quorumkit.FsmCaller.Loop.{is_good-leb, apply_all_ends}
use quorumkit.FsmCaller.Iterate.{
  Iterator, entry_call, run_done, done, is_data_type, is_data, has_error, is_good, valid,
  read_entry, next, iter_next, hear_entry, hear_committed, pass_entry, act_on, show_entry, on_apply,
  rounds_left, one_round, apply_all,
}

abbrev pub gives_up : Act → Bool
gives_up (give_up ntail) = true
gives_up act = false

module _ {P M : Type 0} ⦃u : UserMachine P M⦄ where
  -- What the entry of an index does: an entry of the user's is shown to the machine, and of the
  -- others it hears of a configuration outside a joint stage.
  abbrev pub replay_one : LogEntry P → M → M
  replay_one e m =
      if is_data_type e.type then (u.visit m e).0 else hear_committed e e.type e.old_peers m

  -- The entries of `n` indexes from `first`.
  abbrev pub replay : (ℕ → LogEntry P) → ℕ → ℕ → M → M
  replay log first zero m = m
  replay log first (suc n) m = replay_one (log (first + n)) (replay log first n m)

replay-snoc :
    {P M : Type 0} ⦃u : UserMachine P M⦄ (log : ℕ → LogEntry P) (first i : ℕ) (m : M)
    → first ≤ i
    → replay log first (i + 1 - first) m ≡ replay_one (log i) (replay log first (i - first) m)
replay-snoc log first i m h =
    let e : i + 1 - first ≡ suc (i - first) = omega arith in
    let f : first + (i - first) ≡ i = omega arith in
    rw e (ap (λ j. replay_one (log j) (replay log first (i - first) m)) f)

module _ {P : Type 0} where
  abbrev pub current : (ℕ → LogEntry P) → ℕ → ℕ → Option (LogEntry P)
  current log last i = if leb i last then some (log i) else none

module _ {P S D W C M : Type 0} ⦃s : LogStorage P S⦄ ⦃u : UserMachine P M⦄ (log : ℕ → LogEntry P)
    (lm : LogManager P S D W) (first last : ℕ) (m : M) where
  -- The machine has seen the entries before the current one, and there was no error.
  abbrev pub Stands : Iterator P S D W C M → Type 0
  Stands it =
      (it.log_manager ≡ lm)
      × (it.committed_index ≡ last)
      × (has_error it ≡ false)
      × (it.cur_entry ≡ current log last it.cur_index)
      × (first ≤ it.cur_index)
      × (it.cur_index ≤ last + 1)

  abbrev pub Before : Iterator P S D W C M → Type 0
  Before it = Stands it × (it.machine ≡ replay log first (it.cur_index - first) m)

  -- It has seen the current one too.
  abbrev After : Iterator P S D W C M → Type 0
  After it =
      Stands it
      × (it.cur_index ≤ last)
      × (is_data_type (log it.cur_index).type ≡ true)
      × (it.machine ≡ replay log first (it.cur_index + 1 - first) m)

  module _
      (holds : (i : ℕ)
        → first ≤ i
        → i ≤ last
        → LogManager.get_entry {D = D} {W = W} lm i ≡ (lm, some (log i), []))
      (goes : (x : M) (e : LogEntry P) → gives_up (u.visit x e).1 ≡ false) where
    next-Stands :
        (it : Iterator P S D W C M)
        → Stands it
        → it.cur_index ≤ last
        → Stands (next it)
          × ((next it).cur_index ≡ it.cur_index + 1)
          × ((next it).machine ≡ it.machine)
    unfolding next read_entry
    next-Stands it (a, b, c, d, e, f) h =
        elim (Bool-cases (leb (it.cur_index + 1) it.committed_index)) [
          | inl k ↦
              let g =
                subst
                  (λ x.
                    LogManager.get_entry {D = D} {W = W} x (it.cur_index + 1)
                    ≡ (lm, some (log (it.cur_index + 1)), []))
                  (sym a) (holds (it.cur_index + 1) (omega arith) (ground (arith, b))) in
              let j : leb it.cur_index it.committed_index ≡ true = ground arith in
              let l : leb (it.cur_index + 1) last ≡ true = ground (arith, b) in
              rw (j, k, g) ((refl, b, c, rw l refl, omega (arith, e), ground arith), refl, refl)
          | inr k ↦
              let j : leb it.cur_index it.committed_index ≡ true = ground arith in
              let l : leb (it.cur_index + 1) last ≡ false = ground (arith, b) in
              rw (j, k) ((a, b, c, rw l refl, omega (arith, e), omega (arith, h)), refl, refl)
        ]

    After-next : (it : Iterator P S D W C M) → After it → Before (next it)
    After-next it (st, le, d, mach) =
        let (st', c, m') = next-Stands it st le in
        (st', m' ∙ mach ∙ ap (λ i. replay log first (i - first) m) (sym c))

    -- What the entry of a standing iterator is.
    Stands-entry :
        (it : Iterator P S D W C M)
        → Stands it
        → it.cur_index ≤ last
        → it.cur_entry ≡ some (log it.cur_index)
    Stands-entry it (a, b, c, d, e, f) h = d ∙ rw (le→leb it.cur_index last h) refl

    Stands-valid :
        (it : Iterator P S D W C M)
        → Stands it
        → it.cur_index ≤ last
        → valid it ≡ is_data_type (log it.cur_index).type
    unfolding valid is_good
    Stands-valid it st h =
        let (a, b, c, d, e, f) = st in
        let j : leb it.cur_index it.committed_index ≡ true = ground (arith, b) in
        rw (j, Stands-entry it st h) (ground arith)

    Stands-invalid :
        (it : Iterator P S D W C M) → Stands it → last < it.cur_index → valid it ≡ false
    unfolding valid is_good
    Stands-invalid it (a, b, c, d, e, f) h =
        let j : leb it.cur_index it.committed_index ≡ false = ground (arith, b) in rw j refl

    seen :
        (it : Iterator P S D W C M) (calls : List (Call P D W C))
        → Before it
        → it.cur_index ≤ last
        → is_data_type (log it.cur_index).type ≡ true
        → After (record it { machine = (u.visit it.machine (log it.cur_index)).0; calls = calls })
    seen it calls ((a, b, c, d, e, f), mach) h t =
        ((a, b, c, d, e, f), h, t, rw (mach, replay-snoc log first it.cur_index m e, t) refl)

    -- The loop of the user has seen the current entry: it has moved on, or it stops here.
    abbrev Shown : ℕ → Iterator P S D W C M × Bool → Type 0
    Shown i r = ((r.1 ≡ true) × Before r.0 × (r.0.cur_index ≡ i + 1)) ⊎ ((r.1 ≡ false) × After r.0)

    After-iter_next :
        (it : Iterator P S D W C M)
        → After it
        → valid it ≡ true
        → Before (iter_next it) × ((iter_next it).cur_index ≡ it.cur_index + 1)
    unfolding iter_next
    After-iter_next it (st, le, d, mach) v =
        rw v (After-next it (st, le, d, mach), (next-Stands it st le).1)

    act-Shown :
        (act : Act) (it : Iterator P S D W C M)
        → gives_up act ≡ false
        → After it
        → Shown it.cur_index (act_on act it)
    unfolding act_on
    act-Shown (go_on runs) it g (st, le, d, mach) =
        let it' : Iterator P S D W C M = record it {
          calls = it.calls ++ (if runs then run_done (done it) ok else []);
        } in
        let (w, x) = After-iter_next it' (st, le, d, mach) (Stands-valid it' st le ∙ d) in
        inl (refl, w, x)
    act-Shown (leave runs) it g (st, le, d, mach) = inr (refl, (st, le, d, mach))
    act-Shown (give_up ntail) it g h = absurd (ground arith)

    show-Shown :
        (it : Iterator P S D W C M)
        → Before it
        → it.cur_index ≤ last
        → is_data_type (log it.cur_index).type ≡ true
        → Shown it.cur_index (show_entry (some (log it.cur_index)) it)
    unfolding show_entry
    show-Shown it b le t =
        act-Shown (u.visit it.machine (log it.cur_index)).1
          (record it {
            machine = (u.visit it.machine (log it.cur_index)).0;
            calls = it.calls ++ (apply (log it.cur_index) ∷ []);
          })
          (goes it.machine (log it.cur_index))
          (seen it (it.calls ++ (apply (log it.cur_index) ∷ [])) b le t)

    -- After the user's loop: the iterator stands at an entry that the user has not seen and that is
    -- not valid, or at one that the user has seen.
    abbrev Left : Iterator P S D W C M → Type 0
    Left r = ((valid r ≡ false) × Before r) ⊎ ((valid r ≡ true) × After r)

    on_apply-Left :
        (n : ℕ) (it : Iterator P S D W C M) → Before it → rounds_left it ≤ n → Left (on_apply n it)
    unfolding on_apply
    on_apply-Left zero it (st, mach) k =
        let (a, b, c, d, e, f) = st in inl (Stands-invalid it st (omega (arith, b)), (st, mach))
    on_apply-Left (suc n) it (st, mach) k = elim (Bool-cases (valid it)) [
      | inr v ↦ rw v (inl (v, (st, mach)))
      | inl v ↦
          let le : it.cur_index ≤ last = ground (arith, Stands-invalid it st) in
          let t = sym (Stands-valid it st le) ∙ v in
          let (a, b, c, d, e, f) = st in
          rw v (
            left_by (show_entry it.cur_entry it)
              (subst (λ x. Shown it.cur_index (show_entry x it)) (sym (Stands-entry it st le))
                (show-Shown it (st, mach) le t))
              (λ w x. on_apply-Left n _ w (omega (arith, x, k, w.0.1, b))))
    ]
      where
        left_by :
            (r : Iterator P S D W C M × Bool)
            → Shown it.cur_index r
            → (Before r.0 → r.0.cur_index ≡ it.cur_index + 1 → Left (on_apply n r.0))
            → Left (if r.1 then on_apply n r.0 else r.0)
        left_by r (inl (e, w, x)) f = rw e (f w x)
        left_by r (inr (e, (st, le, d, mach))) f =
            rw e (inr (Stands-valid r.0 st le ∙ d, (st, le, d, mach)))

    iter_next-Before : (it : Iterator P S D W C M) → Left it → Before (iter_next it)
    unfolding iter_next
    iter_next-Before it (inl (v, b)) = rw v b
    iter_next-Before it (inr (v, a)) = rw v (After-next it a)

    pass-Before :
        (it : Iterator P S D W C M)
        → Before it
        → it.cur_index ≤ last
        → is_data it.cur_entry ≡ false
        → Before (pass_entry it)
    unfolding pass_entry
    pass-Before it (st, mach) le t =
        let it' : Iterator P S D W C M = record it {
          machine = hear_entry it.cur_entry it.machine;
          calls = it.calls ++ (entry_call it.cur_entry ++ run_done (done it) ok);
        } in
        let (st', c, m') = next-Stands it' st le in
        let (x, b, y, d, e, f) = st in
        let t' : is_data_type (log it.cur_index).type ≡ false =
          sym (ap is_data (Stands-entry it st le)) ∙ t in
        (
          st',
          m'
              ∙ ap (λ x. hear_entry x it.machine) (Stands-entry it st le)
              ∙ ap
                  (hear_committed (log it.cur_index) (log it.cur_index).type
                    (log it.cur_index).old_peers)
                  mach
              ∙ (sym (rw (replay-snoc log first it.cur_index m e, t') refl))
              ∙ ap (λ i. replay log first (i - first) m) (sym c),
        )

    is_good_le : (it : Iterator P S D W C M) → Stands it → is_good it ≡ true → it.cur_index ≤ last
    is_good_le it (a, b, c, d, e, f) h = let g = is_good-leb it h in ground (arith, b)

    round-Before :
        (it : Iterator P S D W C M) → Before it → is_good it ≡ true → Before (one_round it)
    unfolding one_round
    round-Before it (st, mach) h = elim (Bool-cases (is_data it.cur_entry)) [
      | inl d ↦ rw d (
          iter_next-Before (on_apply (rounds_left it) it)
            (on_apply-Left (rounds_left it) it (st, mach) (omega arith)))
      | inr d ↦ rw d (pass-Before it (st, mach) (is_good_le it st h) d)
    ]

    apply_all-Before : (n : ℕ) (it : Iterator P S D W C M) → Before it → Before (apply_all n it)
    unfolding apply_all
    apply_all-Before zero it b = b
    apply_all-Before (suc n) it b = elim (Bool-cases (is_good it)) [
      | inl h ↦ rw h (apply_all-Before n (one_round it) (round-Before it b h))
      | inr h ↦ rw h b
    ]

    -- The whole loop from a standing iterator.
    pub apply_all_replays :
        (it : Iterator P S D W C M)
        → Before it
        → let r = apply_all (rounds_left it) it in
          (r.machine ≡ replay log first (last + 1 - first) m)
          × (has_error r ≡ false)
          × (r.cur_index ≡ last + 1)
          × (r.log_manager ≡ lm)
    apply_all_replays it (st, mach) =
        let (a, b, c, d, e, f) = st in
        let ((a', b', c', d', e', f'), mach') = apply_all-Before (rounds_left it) it (st, mach) in
        let ends = apply_all_ends (rounds_left it) it (omega arith) (omega (arith, b)) in
        let i : (apply_all (rounds_left it) it).cur_index ≡ last + 1 =
          ground (arith, ends, b, c') in
        (mach' ∙ ap (λ i. replay log first (i - first) m) i, c', i, a')
