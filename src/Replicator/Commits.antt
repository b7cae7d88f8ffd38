-- ===== src/Replicator/Commits.antt =====
-- What a successful answer commits.
use quorumkit.Prelude.{
  ℕ, subst, ◌+◌, ◌-◌, ◌≤◌, ◌<◌, ◌≡◌, refl, inl, inr, ap, ◌∙◌, true, false, List, none, [], ◌∷◌,
  ◌++◌, ltb, ◌==◌, arith, Bool-cases,
}
use quorumkit.Replicator.{
  Flying, Replicator, Options, Outside, Effect, commit_at, ◌▸◌, min_flying_index,
  update_last_rpc_send_timestamp, notify_on_caught_up, timeout_now_if_reached,
}
use quorumkit.Replicator.Send.{send_entries}
use quorumkit.Replicator.Returned.{
  Response, Sent, is_in_fly, pop_until, pop_window, commits, on_success, on_rpc_returned,
}
use quorumkit.Replicator.Window.{Window, lowest, IsValid}
use quorumkit.Replicator.Acknowledged.{
  flying, placed, found, pop_until-at, popped, popped-IsValid, after_pop-Keeps, update-Keeps,
}

-- The first of the effects.
record Starts {A : Type 0} (c : A) (es : List A) : Type 0 where
  rest : List A
  starts : es ≡ c ∷ rest

append-Starts : {A : Type 0} {c : A} {es : List A} (ys : List A) → Starts c es → Starts c (es ++ ys)
append-Starts ys s = record { rest = s.rest ++ ys; starts = ap (λ x. x ++ ys) s.starts }

module _ {C : Type 0} where
  -- The timestamp is apart from the window.
  update_fields :
      (time : ℕ) (r : Replicator C)
      → let m = update_last_rpc_send_timestamp time r in
        (m.append_entries_in_fly ≡ r.append_entries_in_fly)
        × (m.next_index ≡ r.next_index)
        × (m.flying_append_entries_size ≡ r.flying_append_entries_size)
  unfolding update_last_rpc_send_timestamp
  update_fields time r = elim (Bool-cases (ltb r.last_rpc_send_timestamp time)) [
    | inl h ↦ (ground (arith, h), ground (arith, h), ground (arith, h))
    | inr h ↦ (ground (arith, h), ground (arith, h), ground (arith, h))
  ]

  pop_window-lowest :
      (front back : List Flying) (sent : Sent) (r : Replicator C)
      → IsValid r
      → r.append_entries_in_fly ≡ front ++ (flying sent ∷ back)
      → 1 ≤ sent.entries_size
      → lowest (pop_window (sent.prev_log_index + 1) r)
        ≡ sent.prev_log_index + 1 + sent.entries_size
  unfolding pop_window
  pop_window-lowest front back sent r v e h =
      let w = subst (λ fs. Window (lowest r) fs r.next_index) e v.1 in
      let (p, q, u) = placed (lowest r) front back (flying sent) r.next_index w in
      let size = r.flying_append_entries_size in
      let at = pop_until-at (lowest r) front back (flying sent) r.next_index size w h in
      let eq = ap (λ fs. pop_until (sent.prev_log_index + 1) fs size) e ∙ at in
      ap (λ x. r.next_index - x.1) eq ∙ omega (arith, p, q, v.0)

module _ (P N : Type 0) {C : Type 0} where
  popped-lowest :
      (front back : List Flying) (sent : Sent) (r : Replicator C)
      → IsValid r
      → r.append_entries_in_fly ≡ front ++ (flying sent ∷ back)
      → 1 ≤ sent.entries_size
      → lowest (popped P N sent r).0 ≡ sent.prev_log_index + 1 + sent.entries_size
  popped-lowest front back sent r v e h =
      let m = update_last_rpc_send_timestamp sent.send_time r in
      pop_window-lowest front back sent m ((update-Keeps sent.send_time r).kept v).0
        ((update_fields sent.send_time r).0 ∙ e) h

  commits-Starts :
      (sent : Sent) (r : Replicator C)
      → IsValid r
      → 1 ≤ sent.entries_size
      → Starts
          (commit_at (lowest r) (sent.prev_log_index + sent.entries_size))
          (commits {P = P} {N = N} sent (update_last_rpc_send_timestamp sent.send_time r)).1
  unfolding min_flying_index
  commits-Starts sent r v h =
      let k : ltb 0 sent.entries_size ≡ true = ground arith in
      let low = ((update-Keeps sent.send_time r).kept v).1 in
      rw k (record {
        rest = [];
        starts = ap (λ i. commit_at i (sent.prev_log_index + sent.entries_size) ∷ []) low;
      })

  abbrev acknowledged :
      Options P N → Outside P → Sent → Replicator C → Replicator C × List (Effect P N C)
  acknowledged opts out sent r =
      popped P N sent r
      ▸ notify_on_caught_up out none false
      ▸ timeout_now_if_reached
      ▸ send_entries opts out

  returned-acknowledged :
      (opts : Options P N) (out : Outside P) (front back : List Flying) (sent : Sent)
      (response : Response) (r : Replicator C)
      → IsValid r
      → r.append_entries_in_fly ≡ front ++ (flying sent ∷ back)
      → response.success ≡ true
      → response.term ≡ opts.term
      → on_rpc_returned opts out false sent response r
        ≡ acknowledged opts out sent (record r { consecutive_error_times = 0 })
  unfolding on_rpc_returned on_success
  returned-acknowledged opts out front back sent response r v e s t =
      let w = subst (λ fs. Window (lowest r) fs r.next_index) e v.1 in
      let q : is_in_fly sent.call_id (sent.prev_log_index + 1) r.append_entries_in_fly ≡ true =
        ap (is_in_fly sent.call_id (sent.prev_log_index + 1)) e
        ∙ found (lowest r) front back (flying sent) r.next_index w in
      let k : response.term == opts.term ≡ true = ground (arith, t) in rw (q, s, k) refl

  -- A success, in the leader's term, for a request of some entries that is in flight commits from the
  -- lowest index in flight to the last entry of the request, which has been sent. The lowest index
  -- in flight is then the one after that entry, also where the replicator goes on to send more, waits
  -- for entries or installs a snapshot.
  pub on_rpc_returned_lem :
      (opts : Options P N) (out : Outside P) (front back : List Flying) (sent : Sent)
      (response : Response) (r : Replicator C)
      → IsValid r
      → r.append_entries_in_fly ≡ front ++ (flying sent ∷ back)
      → 1 ≤ sent.entries_size
      → response.success ≡ true
      → response.term ≡ opts.term
      → let x = on_rpc_returned opts out false sent response r in
        (lowest x.0 ≡ sent.prev_log_index + 1 + sent.entries_size)
        × (lowest r ≤ sent.prev_log_index + 1)
        × (sent.prev_log_index + sent.entries_size < r.next_index)
        × ((rest : List (Effect P N C)) × (x.1
              ≡ commit_at (lowest r) (sent.prev_log_index + sent.entries_size) ∷ rest))
  on_rpc_returned_lem opts out front back sent response r v e h s t =
      let m = record r { consecutive_error_times = 0 } in
      let same = returned-acknowledged opts out front back sent response r v e s t in
      let at =
        placed (lowest r) front back (flying sent) r.next_index
          (subst (λ fs. Window (lowest r) fs r.next_index) e v.1) in
      let first = append-Starts _ (
        append-Starts _
          (append-Starts _ (append-Starts [] (append-Starts [] (commits-Starts sent m v h))))) in
      let kept =
        (after_pop-Keeps P N opts out (popped P N sent m)).kept (popped-IsValid P N sent m v) in
      (
        ap (λ x. lowest x.0) same ∙ kept.1 ∙ popped-lowest front back sent m v e h,
        at.0,
        omega (arith, at.1),
        (first.rest, ap (λ x. x.1) same ∙ first.starts),
      )
