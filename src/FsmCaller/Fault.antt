-- ===== src/FsmCaller/Fault.antt =====
-- After an error the caller applies nothing more.
use mathlib.Core.List.{append-nil, append_assoc}
use quorumkit.Prelude.{
  subst, sym, ◌++◌, ℕ, ◌+◌, ◌≡◌, inl, inr, refl, ap, ◌∙◌, false, List, [], ◌∷◌, Option, none, some,
  ltb, Bool-cases,
}
use quorumkit.Errno.{is_ok}
use quorumkit.Peer.{PeerOrder}
use quorumkit.LogStorage.{LogStorage}
use quorumkit.FsmCaller.{
  Error, leads, leads_no_more, follows, follows_no_more, Call, apply, snapshot_save, leader_stop,
  leader_start, lease_start, start_following, stop_following, refuse, UserMachine, SnapshotUser,
  FsmCaller, committing, saving, loading, failing, set_error, is_none, pass_by_status,
}
use quorumkit.FsmCaller.Iterate.{do_committed}
use quorumkit.FsmCaller.Tasks.{
  ApplyTask, committed, save, load, stop_leader, start_leader, follow, unfollow, fail, do_task,
  commit_batch, run_loop, exceeds, counter_after,
}

module _ {P D W C : Type 0} where
  -- The entries and the snapshots that the user's machine was given.
  abbrev pub given_by : Call P D W C → List (Call P D W C)
  given_by (apply e) = apply e ∷ []
  given_by (snapshot_save meta c) = snapshot_save meta c ∷ []
  given_by x = []

  abbrev pub given : List (Call P D W C) → List (Call P D W C)
  given [] = []
  given (x ∷ xs) = given_by x ++ given xs

  given-append : (xs ys : List (Call P D W C)) → given (xs ++ ys) ≡ given xs ++ given ys
  given-append [] ys = refl
  given-append (x ∷ xs) ys =
      ap (λ z. given_by x ++ z) (given-append xs ys)
      ∙ sym (append_assoc (given_by x) (given xs) (given ys))

  given-none : (xs ys : List (Call P D W C)) → given ys ≡ [] → given (xs ++ ys) ≡ given xs
  given-none xs ys e = given-append xs ys ∙ ap (λ z. given xs ++ z) e ∙ append-nil (given xs)

  given-refuse : (callback : Option C) → given (refuse {P = P} {D = D} {W = W} callback) ≡ []
  given-refuse none = refl
  given-refuse (some c) = refl

module _ {P S D W C M : Type 0} where
  abbrev pub Failed : FsmCaller P S D W C M → Type 0
  Failed c = (is_ok c.error.status ≡ false) × (is_none c.error.type ≡ false)

  -- What an error freezes, with the machine that is left.
  abbrev pub Frozen : M → FsmCaller P S D W C M → FsmCaller P S D W C M → Type 0
  Frozen m c r =
      (r.machine ≡ m)
      × (r.error ≡ c.error)
      × (r.last_applied_index ≡ c.last_applied_index)
      × (r.last_applied_term ≡ c.last_applied_term)
      × (r.log_manager ≡ c.log_manager)
      × (r.closure_queue ≡ c.closure_queue)
      × (given r.calls ≡ given c.calls)

  Frozen-refl : (c : FsmCaller P S D W C M) → Frozen c.machine c c
  Frozen-refl c = (refl, refl, refl, refl, refl, refl, refl)

  Frozen-trans :
      (m k : M) (a b c : FsmCaller P S D W C M) → Frozen m a b → Frozen k b c → Frozen k a c
  Frozen-trans m k a b c (p, q, r, s, t, u, x) (p', q', r', s', t', u', x') =
      (p', q' ∙ q, r' ∙ r, s' ∙ s, t' ∙ t, u' ∙ u, x' ∙ x)

  Frozen-Failed : (m : M) (a b : FsmCaller P S D W C M) → Failed a → Frozen m a b → Failed b
  Frozen-Failed m a b (f, g) (p, q, r, s, t, u, x) =
      (ap (λ e. is_ok e.status) q ∙ f, ap (λ e. is_none e.type) q ∙ g)

  refused-Frozen :
      (callback : Option C) (c : FsmCaller P S D W C M)
      → Failed c
      → Frozen c.machine c (pass_by_status callback c).0 × ((pass_by_status callback c).1 ≡ false)
  unfolding pass_by_status
  refused-Frozen callback c (f, g) = rw f (
    (
      refl,
      refl,
      refl,
      refl,
      refl,
      refl,
      given-none c.calls (refuse callback) (given-refuse callback),
    ),
    refl,
  )

module _ {P C R M : Type 0} ⦃u : UserMachine P M⦄ where
  -- What a task tells the user's machine after an error, and what a run of tasks does.
  abbrev pub tell : ApplyTask P C R → M → M
  tell (stop_leader status) m = u.hear m (leads_no_more status)
  tell (start_leader term lease_epoch) m = u.hear m (leads term)
  tell (follow leader term status) m = u.hear m (follows leader term status)
  tell (unfollow leader term status) m = u.hear m (follows_no_more leader term status)
  tell t m = m

  abbrev pub tell_all : List (ApplyTask P C R) → M → M
  tell_all [] m = m
  tell_all (t ∷ ts) m = tell_all ts (tell t m)

module _ {P S D W C M : Type 0} ⦃u : UserMachine P M⦄ where
  set_error-Frozen :
      (e : Error) (c : FsmCaller P S D W C M) → Failed c → Frozen c.machine c (set_error e c)
  unfolding set_error
  set_error-Frozen e c (f, g) = rw g (Frozen-refl c)

module _ {P S D W C M : Type 0} ⦃s : LogStorage P S⦄ ⦃u : UserMachine P M⦄ where
  do_committed-Frozen :
      (i : ℕ) (c : FsmCaller P S D W C M) → Failed c → Frozen c.machine c (do_committed i c)
  unfolding do_committed
  do_committed-Frozen i c (f, g) = rw f (Frozen-refl c)

  commit_batch-Frozen :
      (pending : Option ℕ) (c : FsmCaller P S D W C M)
      → Failed c
      → Frozen c.machine c (commit_batch pending c)
  unfolding commit_batch
  commit_batch-Frozen none c f = Frozen-refl c
  commit_batch-Frozen (some i) c f = do_committed-Frozen i (record c { cur_task = committing }) f

module _ {P S D W C M R : Type 0} ⦃s : LogStorage P S⦄ ⦃o : PeerOrder P⦄ ⦃u : UserMachine P M⦄
    ⦃v : SnapshotUser R M⦄ where
  do_task-Frozen :
      (t : ApplyTask P C R) (c : FsmCaller P S D W C M)
      → Failed c
      → Frozen (tell t c.machine) c (do_task t c)
  unfolding do_task
  do_task-Frozen (committed i) c f = do_committed-Frozen i (record c { cur_task = committing }) f
  do_task-Frozen (save done starts) c f =
      let r = refused-Frozen (some done) (record c { cur_task = saving }) f in rw r.1 r.0
  do_task-Frozen (load done reader) c f =
      let r = refused-Frozen (some done) (record c { cur_task = loading }) f in rw r.1 r.0
  do_task-Frozen (fail e) c f = set_error-Frozen e (record c { cur_task = failing }) f
  do_task-Frozen (stop_leader status) c f =
      (refl, refl, refl, refl, refl, refl, given-none c.calls (leader_stop status ∷ []) refl)
  do_task-Frozen (start_leader term lease_epoch) c f = (
    refl,
    refl,
    refl,
    refl,
    refl,
    refl,
    given-none c.calls (lease_start lease_epoch ∷ leader_start term ∷ []) refl,
  )
  do_task-Frozen (follow leader term status) c f = (
    refl,
    refl,
    refl,
    refl,
    refl,
    refl,
    given-none c.calls (start_following leader term status ∷ []) refl,
  )
  do_task-Frozen (unfollow leader term status) c f = (
    refl,
    refl,
    refl,
    refl,
    refl,
    refl,
    given-none c.calls (stop_following leader term status ∷ []) refl,
  )

  next-Frozen :
      (pending : Option ℕ) (t : ApplyTask P C R) (ts : List (ApplyTask P C R))
      (c : FsmCaller P S D W C M) (go : FsmCaller P S D W C M → FsmCaller P S D W C M)
      → Failed c
      → ((d : FsmCaller P S D W C M) → Failed d → Frozen (tell_all ts d.machine) d (go d))
      → Frozen (tell_all ts (tell t c.machine)) c (go (do_task t (commit_batch pending c)))
  next-Frozen pending t ts c go f rest =
      let b = commit_batch pending c in
      let d = do_task t b in
      let x = commit_batch-Frozen pending c f in
      let y = do_task-Frozen t b (Frozen-Failed c.machine c b f x) in
      let z = Frozen-trans c.machine (tell t b.machine) c b d x y in
      let e : d.machine ≡ tell t c.machine = y.0 ∙ ap (tell t) x.0 in
      subst (λ m. Frozen (tell_all ts m) c (go d)) e
        (Frozen-trans (tell t b.machine) (tell_all ts d.machine) c d (go d) z
          (rest d (Frozen-Failed (tell t b.machine) c d f z)))

  -- After an error, no run of tasks gives the user's machine an entry or a snapshot, or changes the
  -- applied index or term, the log, the closures that wait or the error itself. The machine changes
  -- by what it is told of leaders only: that it leads, leads no more, follows or follows no more.
  pub run_loop-Frozen :
      (batch_size : ℕ) (pending : Option ℕ) (counter : ℕ) (ts : List (ApplyTask P C R))
      (c : FsmCaller P S D W C M)
      → is_ok c.error.status ≡ false
      → is_none c.error.type ≡ false
      → Frozen (tell_all ts c.machine) c (run_loop batch_size pending counter ts c)
  unfolding run_loop
  run_loop-Frozen batch_size pending counter [] c f g = commit_batch-Frozen pending c (f, g)
  run_loop-Frozen batch_size pending counter (committed i ∷ ts) c f g =
      let b = commit_batch-Frozen pending c (f, g) in
      elim (Bool-cases (ltb counter batch_size)) [
        | inl x ↦ elim (Bool-cases (exceeds i pending)) [
          | inl y ↦ rw (x, y) (run_loop-Frozen batch_size (some i) (counter + 1) ts c f g)
          | inr y ↦ rw (x, y) (run_loop-Frozen batch_size pending counter ts c f g)
        ]
        | inr x ↦
            let e = Frozen-Failed c.machine c (commit_batch pending c) (f, g) b in
            let d = commit_batch pending c in
            let r = run_loop batch_size (some i) (counter_after pending counter + 1) ts d in
            rw x (
              subst (λ m. Frozen (tell_all ts m) c r) b.0
                (Frozen-trans c.machine (tell_all ts d.machine) c d r b (
                  run_loop-Frozen batch_size (some i) (counter_after pending counter + 1) ts d e.0
                    e.1)))
      ]
  run_loop-Frozen batch_size pending counter (save done starts ∷ ts) c f g =
      next-Frozen pending (save done starts) ts c
        (run_loop batch_size none (counter_after pending counter) ts) (f, g)
        (λ d e. run_loop-Frozen batch_size none (counter_after pending counter) ts d e.0 e.1)
  run_loop-Frozen batch_size pending counter (load done reader ∷ ts) c f g =
      next-Frozen pending (load done reader) ts c
        (run_loop batch_size none (counter_after pending counter) ts) (f, g)
        (λ d e. run_loop-Frozen batch_size none (counter_after pending counter) ts d e.0 e.1)
  run_loop-Frozen batch_size pending counter (stop_leader status ∷ ts) c f g =
      next-Frozen pending (stop_leader status) ts c
        (run_loop batch_size none (counter_after pending counter) ts) (f, g)
        (λ d e. run_loop-Frozen batch_size none (counter_after pending counter) ts d e.0 e.1)
  run_loop-Frozen batch_size pending counter (start_leader term epoch ∷ ts) c f g =
      next-Frozen pending (start_leader term epoch) ts c
        (run_loop batch_size none (counter_after pending counter) ts) (f, g)
        (λ d e. run_loop-Frozen batch_size none (counter_after pending counter) ts d e.0 e.1)
  run_loop-Frozen batch_size pending counter (follow leader term status ∷ ts) c f g =
      next-Frozen pending (follow leader term status) ts c
        (run_loop batch_size none (counter_after pending counter) ts) (f, g)
        (λ d e. run_loop-Frozen batch_size none (counter_after pending counter) ts d e.0 e.1)
  run_loop-Frozen batch_size pending counter (unfollow leader term status ∷ ts) c f g =
      next-Frozen pending (unfollow leader term status) ts c
        (run_loop batch_size none (counter_after pending counter) ts) (f, g)
        (λ d e. run_loop-Frozen batch_size none (counter_after pending counter) ts d e.0 e.1)
  run_loop-Frozen batch_size pending counter (fail e ∷ ts) c f g =
      next-Frozen pending (fail e) ts c
        (run_loop batch_size none (counter_after pending counter) ts) (f, g)
        (λ d e. run_loop-Frozen batch_size none (counter_after pending counter) ts d e.0 e.1)
