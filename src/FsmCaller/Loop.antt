-- ===== src/FsmCaller/Loop.antt =====
-- The loop of `do_committed` ends within its rounds.
use quorumkit.Prelude.{
  ℕ, zero, suc, ◌+◌, ◌≤◌, ◌<◌, ◌≡◌, ◌⊎◌, inl, inr, refl, sym, ◌∙◌, true, false, [], ◌∷◌, ◌++◌,
  Option, none, some, leb, ◌==◌, arith, Bool-cases,
}
use quorumkit.Errno.{ok}
use quorumkit.LogEntry.{LogEntry}
use quorumkit.LogStorage.{LogStorage}
use quorumkit.FsmCaller.{Act, go_on, leave, give_up, UserMachine, apply}
use quorumkit.FsmCaller.Iterate.{
  Iterator, entry_call, run_done, done, is_data, has_error, is_good, valid, set_error_and_rollback,
  read_entry, next, iter_next, hear_entry, pass_entry, act_on, show_entry, on_apply, rounds_left,
  one_round, apply_all,
}

module _ {P S D W C M : Type 0} where
  abbrev pub Bounded : Iterator P S D W C M → Type 0
  Bounded it = it.cur_index ≤ it.committed_index + 1

  -- From the first iterator to the second, the index went up, or the entry is the same, or there is an
  -- error; and the index stays within its bound.
  abbrev Moves : Iterator P S D W C M → Iterator P S D W C M → Type 0
  Moves it it' =
      (it'.committed_index ≡ it.committed_index)
      × (Bounded it → Bounded it')
      × ((has_error it' ≡ true)
          ⊎ ((it.cur_index < it'.cur_index)
              ⊎ ((it'.cur_index ≡ it.cur_index) × (it'.cur_entry ≡ it.cur_entry))))

  rollback-Moves :
      (ntail : ℕ) (it : Iterator P S D W C M) → Moves it (set_error_and_rollback ntail it)
  unfolding set_error_and_rollback
  rollback-Moves ntail it = elim (Bool-cases (ntail == 0)) [
    | inl z ↦ rw z (refl, (λ h. h), inr (inr (refl, refl)))
    | inr z ↦ rw z (refl, (λ h. ground arith), inl refl)
  ]

  error-valid : (it : Iterator P S D W C M) → has_error it ≡ true → valid it ≡ false
  unfolding valid is_good
  error-valid it h = ground arith

module _ {P S D W C M : Type 0} ⦃s : LogStorage P S⦄ where
  next_lem :
      (it : Iterator P S D W C M)
      → leb it.cur_index it.committed_index ≡ true
      → ((next it).cur_index ≡ it.cur_index + 1) × ((next it).committed_index ≡ it.committed_index)
  unfolding next read_entry
  next_lem it h = elim (Bool-cases (leb (it.cur_index + 1) it.committed_index)) [
    | inl a ↦ rw (h, a) (refl, refl)
    | inr a ↦ rw (h, a) (refl, refl)
  ]

  valid-leb :
      (it : Iterator P S D W C M) → valid it ≡ true → leb it.cur_index it.committed_index ≡ true
  unfolding valid is_good
  valid-leb it h = ground arith

  iter_next-Moves : (it : Iterator P S D W C M) → Moves it (iter_next it)
  unfolding iter_next
  iter_next-Moves it = elim (Bool-cases (valid it)) [
    | inl a ↦
        let l = next_lem it (valid-leb it a) in
        rw a (l.1, (λ h. ground (arith, l)), inr (inl (omega (arith, l.0))))
    | inr a ↦ rw a (refl, (λ h. h), inr (inr (refl, refl)))
  ]

module _ {P S D W C M : Type 0} ⦃s : LogStorage P S⦄ ⦃u : UserMachine P M⦄ where
  act-Moves : (act : Act) (it : Iterator P S D W C M) → Moves it (act_on act it).0
  unfolding act_on
  act-Moves (go_on runs) it = iter_next-Moves _
  act-Moves (leave runs) it = (refl, (λ h. h), inr (inr (refl, refl)))
  act-Moves (give_up ntail) it = rollback-Moves ntail it

  show-Moves : (e : Option (LogEntry P)) (it : Iterator P S D W C M) → Moves it (show_entry e it).0
  unfolding show_entry
  show-Moves none it = (refl, (λ h. h), inr (inr (refl, refl)))
  show-Moves (some e) it =
      act-Moves (u.visit it.machine e).1
        (record it { machine = (u.visit it.machine e).0; calls = it.calls ++ (apply e ∷ []) })

  -- An iterator that has moved, and moves on unless it has an error.
  chain-Moves :
      (a b c : Iterator P S D W C M)
      → Moves a b
      → Moves b c
      → (has_error b ≡ true → has_error c ≡ true)
      → Moves a c
  chain-Moves a b c (k, w, h) (l, v, i) e = (l ∙ k, (λ x. v (w x)), chained h i)
    where
      chained :
          ((has_error b ≡ true)
            ⊎ ((a.cur_index < b.cur_index)
                ⊎ ((b.cur_index ≡ a.cur_index) × (b.cur_entry ≡ a.cur_entry))))
          → ((has_error c ≡ true)
              ⊎ ((b.cur_index < c.cur_index)
                  ⊎ ((c.cur_index ≡ b.cur_index) × (c.cur_entry ≡ b.cur_entry))))
          → ((has_error c ≡ true)
              ⊎ ((a.cur_index < c.cur_index)
                  ⊎ ((c.cur_index ≡ a.cur_index) × (c.cur_entry ≡ a.cur_entry))))
      chained (inl f) j = inl (e f)
      chained (inr f) (inl g) = inl g
      chained (inr (inl f)) (inr (inl g)) = inr (inl (omega arith))
      chained (inr (inl f)) (inr (inr (g, x))) = inr (inl (omega arith))
      chained (inr (inr (f, y))) (inr (inl g)) = inr (inl (omega arith))
      chained (inr (inr (f, y))) (inr (inr (g, x))) = inr (inr (g ∙ f, x ∙ y))

  on_apply-error : (n : ℕ) (it : Iterator P S D W C M) → has_error it ≡ true → on_apply n it ≡ it
  unfolding on_apply
  on_apply-error zero it h = refl
  on_apply-error (suc n) it h = rw (error-valid it h) refl

  on_apply-Moves : (n : ℕ) (it : Iterator P S D W C M) → Moves it (on_apply n it)
  unfolding on_apply
  on_apply-Moves zero it = (refl, (λ h. h), inr (inr (refl, refl)))
  on_apply-Moves (suc n) it = elim (Bool-cases (valid it)) [
    | inr a ↦ rw a (refl, (λ h. h), inr (inr (refl, refl)))
    | inl a ↦
        let one = show-Moves it.cur_entry it in
        elim (Bool-cases (show_entry it.cur_entry it).1) [
          | inr b ↦ rw (a, b) one
          | inl b ↦
              rw (a, b)
                (chain-Moves it (show_entry it.cur_entry it).0
                  (on_apply n (show_entry it.cur_entry it).0) one
                  (on_apply-Moves n (show_entry it.cur_entry it).0)
                  (λ h. rw (on_apply-error n (show_entry it.cur_entry it).0 h) h))
        ]
  ]

  iter_next-error : (it : Iterator P S D W C M) → has_error it ≡ true → iter_next it ≡ it
  unfolding iter_next
  iter_next-error it h = rw (error-valid it h) refl

  good_data-valid :
      (it : Iterator P S D W C M)
      → leb it.cur_index it.committed_index ≡ true
      → is_data it.cur_entry ≡ true
      → (has_error it ≡ true) ⊎ (valid it ≡ true)
  unfolding valid is_good
  good_data-valid it h d = ground arith

  -- What a round of the loop achieves.
  abbrev pub Advances : Iterator P S D W C M → Iterator P S D W C M → Type 0
  Advances it it' =
      (it'.committed_index ≡ it.committed_index)
      × (Bounded it → Bounded it')
      × ((has_error it' ≡ true) ⊎ (it.cur_index < it'.cur_index))

  -- After the user's loop, `iter.next()` moves on if it stands where it stood.
  leave_round :
      (it r : Iterator P S D W C M)
      → leb it.cur_index it.committed_index ≡ true
      → is_data it.cur_entry ≡ true
      → Moves it r
      → Advances it (iter_next r)
  unfolding iter_next
  leave_round it r g d (k, w, m) = elim (Bool-cases (has_error r)) [
    | inl h ↦ rw (error-valid r h) (k, w, inl h)
    | inr h ↦ elim (Bool-cases (valid r)) [
      | inl a ↦
          let l = next_lem r (valid-leb r a) in
          rw a (
            l.1 ∙ k,
            (λ x. let y = valid-leb r a in ground (arith, l, w x)),
            inr (ground (arith, l, m)),
          )
      | inr a ↦ rw a (k, w, inr (not_valid a h m))
    ]
  ]
    where
      not_valid :
          valid r ≡ false
          → has_error r ≡ false
          → ((has_error r ≡ true)
              ⊎ ((it.cur_index < r.cur_index)
                  ⊎ ((r.cur_index ≡ it.cur_index) × (r.cur_entry ≡ it.cur_entry))))
          → it.cur_index < r.cur_index
      not_valid a h (inl e) = absurd (ground arith)
      not_valid a h (inr (inl e)) = e
      not_valid a h (inr (inr (e, f))) =
          absurd (ground (arith, good_data-valid r (rw (e, k) g) (rw f d)))

  pass-Advances :
      (it : Iterator P S D W C M)
      → leb it.cur_index it.committed_index ≡ true
      → Advances it (pass_entry it)
  unfolding pass_entry
  pass-Advances it g =
      let l =
        next_lem
          (record it {
            machine = hear_entry it.cur_entry it.machine;
            calls = it.calls ++ (entry_call it.cur_entry ++ run_done (done it) ok);
          })
          g in
      (l.1, (λ x. ground (arith, l)), inr (omega (arith, l.0)))

  pub is_good-leb :
      (it : Iterator P S D W C M) → is_good it ≡ true → leb it.cur_index it.committed_index ≡ true
  unfolding is_good
  is_good-leb it h = ground arith

  pub round-Advances : (it : Iterator P S D W C M) → is_good it ≡ true → Advances it (one_round it)
  unfolding one_round
  round-Advances it h = elim (Bool-cases (is_data it.cur_entry)) [
    | inl d ↦ rw d (
        leave_round it (on_apply (rounds_left it) it) (is_good-leb it h) d
          (on_apply-Moves (rounds_left it) it))
    | inr d ↦ rw d (pass-Advances it (is_good-leb it h))
  ]

  error-is_good : (it : Iterator P S D W C M) → has_error it ≡ true → is_good it ≡ false
  unfolding is_good
  error-is_good it h = ground arith

  apply_all-error : (n : ℕ) (it : Iterator P S D W C M) → has_error it ≡ true → apply_all n it ≡ it
  unfolding apply_all
  apply_all-error zero it h = refl
  apply_all-error (suc n) it h = rw (error-is_good it h) refl

  stopped-ends :
      (it : Iterator P S D W C M)
      → Bounded it
      → is_good it ≡ false
      → (has_error it ≡ true) ⊎ (it.cur_index ≡ it.committed_index + 1)
  unfolding is_good
  stopped-ends it b h = ground arith

  abbrev Ended : ℕ → Iterator P S D W C M → Type 0
  Ended committed_index it =
      (it.committed_index ≡ committed_index)
      × ((has_error it ≡ true) ⊎ (it.cur_index ≡ committed_index + 1))

  Ended-from :
      (n : ℕ) (it r : Iterator P S D W C M)
      → rounds_left it ≤ suc n
      → leb it.cur_index it.committed_index ≡ true
      → Bounded it
      → Advances it r
      → (rounds_left r ≤ n → Bounded r → Ended r.committed_index (apply_all n r))
      → (has_error r ≡ true → apply_all n r ≡ r)
      → Ended it.committed_index (apply_all n r)
  Ended-from n it r le g b (k, w, inl e) rec same = rw (same e) (k, inl e)
  Ended-from n it r le g b (k, w, inr e) rec same = rw (sym k) (rec (ground arith) (w b))

  -- As many rounds as there are indexes left are enough for the loop of `do_committed`: it ends past
  -- the last committed index, or with an error.
  pub apply_all_ends :
      (n : ℕ) (it : Iterator P S D W C M)
      → rounds_left it ≤ n
      → it.cur_index ≤ it.committed_index + 1
      → ((apply_all n it).committed_index ≡ it.committed_index)
        × ((has_error (apply_all n it) ≡ true)
            ⊎ ((apply_all n it).cur_index ≡ it.committed_index + 1))
  unfolding apply_all
  apply_all_ends zero it le b = (refl, inr (omega arith))
  apply_all_ends (suc n) it le b = elim (Bool-cases (is_good it)) [
    | inr h ↦ rw h (refl, stopped-ends it b h)
    | inl h ↦ rw h (
        Ended-from n it (one_round it) le (is_good-leb it h) b (round-Advances it h)
          (λ x y. apply_all_ends n (one_round it) x y) (λ e. apply_all-error n (one_round it) e))
  ]
