-- ===== src/Replicator/Acknowledged.antt =====
-- What an answer does to the window of a replicator.
use quorumkit.Prelude.{
  ℕ, subst, ◌+◌, ◌-◌, ◌≤◌, ◌<◌, ◌≡◌, refl, inl, inr, sym, ap, ◌∙◌, Bool, true, false, not, List, [],
  ◌∷◌, ◌++◌, none, some, ltb, leb, ◌==◌, if◌then◌else◌, arith, Bool-cases,
}
use quorumkit.Errno.{eperm}
use quorumkit.Replicator.{
  Flying, Replicator, Options, cancel_append_entries_rpcs, Outside, Effect, ◌▸◌, change,
  update_last_rpc_send_timestamp, reset_next_index, notify_on_caught_up, timeout_now_if_reached,
}
use quorumkit.Replicator.Send.{send_entries}
use quorumkit.Replicator.Returned.{
  Response, Sent, is_in_fly, pop_until, pop_window, step_back, quit, on_rpc_failed, on_mismatch,
  commits, on_success, on_rpc_returned,
}
use quorumkit.Replicator.Window.{
  Window, Window-le, Window-start, IsValid, Keeps, Keeps-same, bind-Keeps, reset_next_index-Keeps,
  block-Keeps, notify_on_caught_up-Keeps, timeout_now_if_reached-Keeps, send_empty_entries-Keeps,
  send_entries-Keeps,
}

-- The window that is left where a prefix of it is popped.
pop_until-Window :
    (i : ℕ) (fs : List Flying) (size next : ℕ)
    → 1 ≤ next - size
    → Window (next - size) fs next
    → (1 ≤ next - (pop_until i fs size).1)
      × Window (next - (pop_until i fs size).1) (pop_until i fs size).0 next
unfolding pop_until
pop_until-Window i [] size next h w = (h, w)
pop_until-Window i (f ∷ fs) size next h w = elim (Bool-cases (leb f.log_index i)) [
  | inr k ↦ rw k (h, w)
  | inl k ↦
      let n = Window-le (next - size + f.entries_size) fs next w.1 in
      let e : next - size + f.entries_size ≡ next - (size - f.entries_size) = omega (arith, n, h) in
      rw k (
        pop_until-Window i fs (size - f.entries_size) next (omega (arith, h, e)) (
          Window-start (next - size + f.entries_size) (next - (size - f.entries_size)) fs next e
            w.1))
]

-- The place of a request in a window.
pub placed :
    (a : ℕ) (front back : List Flying) (f : Flying) (b : ℕ)
    → Window a (front ++ (f ∷ back)) b
    → (a ≤ f.log_index)
      × (f.log_index + f.entries_size ≤ b)
      × Window (f.log_index + f.entries_size) back b
placed a [] back f b w =
    let v =
      Window-start (a + f.entries_size) (f.log_index + f.entries_size) back b (omega (arith, w.0))
        w.1 in
    (omega (arith, w.0), Window-le (f.log_index + f.entries_size) back b v, v)
placed a (g ∷ front) back f b w =
    let (p, q, v) = placed (a + g.entries_size) front back f b w.1 in (omega (arith, p), q, v)

pub found :
    (a : ℕ) (front back : List Flying) (f : Flying) (b : ℕ)
    → Window a (front ++ (f ∷ back)) b
    → is_in_fly f.call_id f.log_index (front ++ (f ∷ back)) ≡ true
unfolding is_in_fly
found a [] back f b w = ground arith
found a (g ∷ front) back f b w =
    let (p, q, v) = placed (a + g.entries_size) front back f b w.1 in
    ground (arith, found (a + g.entries_size) front back f b w.1, p, w.0)

pop_one :
    (i : ℕ) (f : Flying) (fs : List Flying) (size : ℕ)
    → f.log_index ≤ i
    → pop_until i (f ∷ fs) size ≡ pop_until i fs (size - f.entries_size)
unfolding pop_until
pop_one i f fs size h = let k : leb f.log_index i ≡ true = ground arith in rw k refl

pop_none :
    (i c : ℕ) (fs : List Flying) (b size : ℕ)
    → i < c
    → Window c fs b
    → pop_until i fs size ≡ (fs, size)
unfolding pop_until
pop_none i c [] b size h w = refl
pop_none i c (f ∷ fs) b size h w =
    let k : leb f.log_index i ≡ false = ground (arith, w.0) in rw k refl

-- All requests up to an answered one leave, and no other.
pub pop_until-at :
    (a : ℕ) (front back : List Flying) (f : Flying) (b size : ℕ)
    → Window a (front ++ (f ∷ back)) b
    → 1 ≤ f.entries_size
    → pop_until f.log_index (front ++ (f ∷ back)) size
      ≡ (back, size - (f.log_index + f.entries_size - a))
pop_until-at a [] back f b size w h =
    let (p, q, v) = placed a [] back f b w in
    let e : size - f.entries_size ≡ size - (f.log_index + f.entries_size - a) =
      omega (arith, w.0) in
    pop_one f.log_index f back size (omega arith)
    ∙ pop_none f.log_index (f.log_index + f.entries_size) back b (size - f.entries_size)
        (omega arith) v
    ∙ ap (λ n. (back, n)) e
pop_until-at a (g ∷ front) back f b size w h =
    let (p, q, v) = placed (a + g.entries_size) front back f b w.1 in
    let e : size - g.entries_size - (f.log_index + f.entries_size - (a + g.entries_size))
        ≡ size - (f.log_index + f.entries_size - a) =
      omega (arith, p) in
    pop_one f.log_index g (front ++ (f ∷ back)) size (omega (arith, p, w.0))
    ∙ pop_until-at (a + g.entries_size) front back f b (size - g.entries_size) w.1 h
    ∙ ap (λ n. (back, n)) e

-- The request in flight that an RPC was sent for.
abbrev pub flying : Sent → Flying
flying sent = record {
  log_index = sent.prev_log_index + 1;
  entries_size = sent.entries_size;
  call_id = sent.call_id;
}

module _ {C A : Type 0} where
  record Sound (x : Replicator C × A) : Type 0 where
    valid : IsValid x.0

  if-Sound : (b : Bool) {x y : Replicator C × A} → Sound x → Sound y → Sound (if b then x else y)
  if-Sound true k l = k
  if-Sound false k l = l

module _ {C : Type 0} where
  pub update-Keeps :
      (time : ℕ) (r : Replicator C) → Keeps r (update_last_rpc_send_timestamp time r, tt)
  unfolding update_last_rpc_send_timestamp
  update-Keeps time r = elim (Bool-cases (ltb r.last_rpc_send_timestamp time)) [
    | inl h ↦ record { kept = λ v. ground (arith, v) }
    | inr h ↦ record { kept = λ v. ground (arith, v) }
  ]

  jump-IsValid :
      (n : ℕ) (r : Replicator C)
      → 1 ≤ n
      → r.append_entries_in_fly ≡ []
      → r.flying_append_entries_size ≡ 0
      → IsValid (record r { next_index = n })
  jump-IsValid n r h e z = (
    omega (arith, z),
    subst (λ fs. Window (n - r.flying_append_entries_size) fs n) (sym e) (omega (arith, z)),
  )

  step_back-IsValid :
      (last : ℕ) (r : Replicator C)
      → IsValid r
      → r.append_entries_in_fly ≡ []
      → r.flying_append_entries_size ≡ 0
      → Sound (step_back last r, tt)
  unfolding step_back
  step_back-IsValid last r v e z = elim (Bool-cases (ltb (last + 1) r.next_index)) [
    | inl h ↦ rw h (record { valid = jump-IsValid (last + 1) r (omega arith) e z })
    | inr h ↦ elim (Bool-cases (ltb 1 r.next_index)) [
      | inl k ↦ rw (h, k) (record { valid = jump-IsValid (r.next_index - 1) r (ground arith) e z })
      | inr k ↦ rw (h, k) (record { valid = v })
    ]
  ]

  pop_window-IsValid : (i : ℕ) (r : Replicator C) → IsValid r → IsValid (pop_window i r)
  unfolding pop_window
  pop_window-IsValid i r v =
      pop_until-Window i r.append_entries_in_fly r.flying_append_entries_size r.next_index v.0 v.1

module _ (P N : Type 0) {C : Type 0} where
  on_rpc_failed-Sound : (r : Replicator C) → IsValid r → Sound (on_rpc_failed {P = P} {N = N} r)
  unfolding on_rpc_failed
  on_rpc_failed-Sound r v = record {
    valid =
        let m = record r { consecutive_error_times = r.consecutive_error_times + 1 } in
        let x = reset_next_index-Keeps P N m in ((bind-Keeps P N x (block-Keeps P N)).kept v).0;
  }

  on_mismatch-Sound :
      (opts : Options P N) (out : Outside P) (sent : Sent) (response : Response) (r : Replicator C)
      → IsValid r
      → Sound (on_mismatch opts out sent response r)
  unfolding on_mismatch quit reset_next_index cancel_append_entries_rpcs
  on_mismatch-Sound opts out sent response r v =
      let time = sent.send_time in
      let m = update_last_rpc_send_timestamp time r in
      let u = ((update-Keeps time r).kept v).0 in
      let last = response.last_log_index in
      let w = ((reset_next_index-Keeps P N m).kept u).0 in
      let back =
        (step_back-IsValid last (reset_next_index {P = P} {N = N} m).0 w refl refl).valid in
      if-Sound (ltb opts.term response.term)
        (record {
          valid =
              ((bind-Keeps P N (reset_next_index-Keeps P N r)
                  (notify_on_caught_up-Keeps P N out (some eperm) true)).kept
                v).0;
        })
        (record {
          valid =
              ((send_empty_entries-Keeps P N opts out false
                  (step_back last (reset_next_index {P = P} {N = N} m).0)).kept
                back).0;
        })

  -- What follows the pop.
  pub after_pop-Keeps :
      (opts : Options P N) (out : Outside P) (x : Replicator C × List (Effect P N C))
      → Keeps x.0
          (x ▸ notify_on_caught_up out none false ▸ timeout_now_if_reached ▸ send_entries opts out)
  after_pop-Keeps opts out x =
      bind-Keeps P N
        (bind-Keeps P N
          (bind-Keeps P N (Keeps-same x.0 x.1) (notify_on_caught_up-Keeps P N out none false))
          (timeout_now_if_reached-Keeps P N))
        (send_entries-Keeps P N opts out)

  -- The window without the requests up to the answered one.
  abbrev pub popped : Sent → Replicator C → Replicator C × List (Effect P N C)
  popped sent r =
      commits sent (update_last_rpc_send_timestamp sent.send_time r)
      ▸ change (pop_window (sent.prev_log_index + 1))
      ▸ change (λ r. record r { has_succeeded = true })

  pub popped-IsValid : (sent : Sent) (r : Replicator C) → IsValid r → IsValid (popped sent r).0
  popped-IsValid sent r v =
      pop_window-IsValid (sent.prev_log_index + 1) (update_last_rpc_send_timestamp sent.send_time r)
        ((update-Keeps sent.send_time r).kept v).0

  on_success-Sound :
      (opts : Options P N) (out : Outside P) (sent : Sent) (response : Response) (r : Replicator C)
      → IsValid r
      → Sound (on_success opts out sent response r)
  unfolding on_success
  on_success-Sound opts out sent response r v =
      if-Sound (not (response.term == opts.term))
        (record { valid = ((reset_next_index-Keeps P N r).kept v).0 })
        (record {
          valid = ((after_pop-Keeps opts out (popped sent r)).kept (popped-IsValid sent r v)).0;
        })

  -- An answer leaves the requests in flight one after another up to the next index, whatever it
  -- says and whichever request it answers.
  pub on_rpc_returned-IsValid :
      (opts : Options P N) (out : Outside P) (failed : Bool) (sent : Sent) (response : Response)
      (r : Replicator C)
      → IsValid r
      → IsValid (on_rpc_returned opts out failed sent response r).0
  unfolding on_rpc_returned
  on_rpc_returned-IsValid opts out failed sent response r v =
      let m = record r { consecutive_error_times = 0 } in
      (if-Sound (not (is_in_fly sent.call_id (sent.prev_log_index + 1) r.append_entries_in_fly))
        (record { valid = v })
        (if-Sound failed (on_rpc_failed-Sound r v) (
          if-Sound (not response.success) (on_mismatch-Sound opts out sent response m v)
            (on_success-Sound opts out sent response m v)))).valid
