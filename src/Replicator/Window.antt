-- ===== src/Replicator/Window.antt =====
-- The window of requests in flight: each begins where the one before it ends, and the last ends at
-- the next index.
use quorumkit.Prelude.{
  ℕ, subst, ◌+◌, ◌-◌, ◌≤◌, ◌≡◌, refl, inl, inr, sym, ap, ◌∙◌, Bool, true, false, not, ◌&&◌, ◌||◌,
  List, [], ◌∷◌, ◌++◌, Option, none, some, ltb, leb, ◌==◌, if◌then◌else◌, length, null, arith,
  Bool-cases,
}
use quorumkit.Errno.{Code}
use quorumkit.Replicator.{
  Flying, Catchup, Opening, throttled, not_opened, no_uri, no_meta, opened, Replicator, Options,
  Outside, Effect, St, is_blocking, ◌▸◌, change, emit, is_given_up, min_flying_index,
  update_last_rpc_send_timestamp, cancel_append_entries_rpcs, reset_next_index, block, is_catchup,
  finish_catchup, notify_closure, notify_on_caught_up, send_timeout_now, timeout_now_if_reached,
}
use quorumkit.Replicator
use quorumkit.Replicator.Send.{
  Prepared, request_of, prepare_entries, fill_common_fields, with_opening, start_install,
  wait_more_entries, send_probe, beat, send_empty_entries, send_prepared, is_readonly, send_none,
  send_from, send_entries,
}

abbrev pub Window : ℕ → List Flying → ℕ → Type 0
Window a [] b = a ≡ b
Window a (f ∷ fs) b = (f.log_index ≡ a) × Window (a + f.entries_size) fs b

module _ {C : Type 0} where
  abbrev pub lowest : Replicator C → ℕ
  lowest r = r.next_index - r.flying_append_entries_size

  abbrev pub IsValid : Replicator C → Type 0
  IsValid r = (1 ≤ lowest r) × Window (lowest r) r.append_entries_in_fly r.next_index

module _ {C A : Type 0} where
  -- What all but an answer does to the window: it may grow or be given up.
  pub record Keeps (r : Replicator C) (x : Replicator C × A) : Type 0 where
    pub kept : IsValid r → IsValid x.0 × (lowest x.0 ≡ lowest r)

  pub Keeps-same : (r : Replicator C) (a : A) → Keeps r (r, a)
  Keeps-same r a = record { kept = λ v. (v, refl) }

  pub if-Keeps :
      {r : Replicator C} (b : Bool) {x y : Replicator C × A}
      → Keeps r x
      → Keeps r y
      → Keeps r (if b then x else y)
  if-Keeps true k l = k
  if-Keeps false k l = l

Window-push :
    (a : ℕ) (fs : List Flying) (b : ℕ) (f : Flying)
    → Window a fs b
    → f.log_index ≡ b
    → Window a (fs ++ (f ∷ [])) (b + f.entries_size)
Window-push a [] b f w e = (e ∙ sym w, ap (λ x. x + f.entries_size) w)
Window-push a (g ∷ fs) b f w e = (w.0, Window-push (a + g.entries_size) fs b f w.1 e)

pub Window-start : (a c : ℕ) (fs : List Flying) (b : ℕ) → a ≡ c → Window a fs b → Window c fs b
Window-start a c fs b e w = subst (λ x. Window x fs b) e w

Window-stop : (a : ℕ) (fs : List Flying) (b c : ℕ) → b ≡ c → Window a fs b → Window a fs c
Window-stop a fs b c e w = subst (λ x. Window a fs x) e w

pub Window-le : (a : ℕ) (fs : List Flying) (b : ℕ) → Window a fs b → a ≤ b
Window-le a [] b w = omega (arith, w)
Window-le a (f ∷ fs) b w = omega (arith, Window-le (a + f.entries_size) fs b w.1)

module _ (P N : Type 0) {C : Type 0} where
  pub bind-Keeps :
      {r : Replicator C} {x : Replicator C × List (Effect P N C)}
      {f : Replicator C → Replicator C × List (Effect P N C)}
      → Keeps r x
      → ((m : Replicator C) → Keeps m (f m))
      → Keeps r (x ▸ f)
  bind-Keeps k next = record {
    kept = λ v. let (w, e) = k.kept v in let (u, d) = (next _).kept w in (u, d ∙ e);
  }

  pub reset_next_index-Keeps : (r : Replicator C) → Keeps r (reset_next_index {P = P} {N = N} r)
  unfolding reset_next_index cancel_append_entries_rpcs min_flying_index
  reset_next_index-Keeps r = record { kept = λ v. ((omega (arith, v.0), omega arith), omega arith) }

  pub block-Keeps : (r : Replicator C) → Keeps r (block {P = P} {N = N} r)
  unfolding block
  block-Keeps r = if-Keeps (is_blocking r.st) (Keeps-same r _) (record { kept = λ v. (v, refl) })

  finish_catchup-Keeps :
      (out : Outside P) (error : Option Code) (before : Bool) (c : Catchup C) (r : Replicator C)
      → Keeps r (finish_catchup {N = N} out error before c r)
  unfolding finish_catchup
  finish_catchup-Keeps out error before c r =
      if-Keeps (not (is_catchup out c.max_margin r) || c.error_was_set) (Keeps-same r _) (
        if-Keeps (c.has_timer && not before && out.timer_runs) (record { kept = λ v. (v, refl) })
          (record { kept = λ v. (v, refl) }))

  notify_closure-Keeps :
      (out : Outside P) (error : Option Code) (before : Bool) (o : Option (Catchup C))
      (r : Replicator C)
      → Keeps r (notify_closure {N = N} out error before o r)
  unfolding notify_closure
  notify_closure-Keeps out error before none r = Keeps-same r _
  notify_closure-Keeps out error before (some c) r =
      if-Keeps (is_given_up error) (record { kept = λ v. (v, refl) })
        (finish_catchup-Keeps out error before c r)

  pub notify_on_caught_up-Keeps :
      (out : Outside P) (error : Option Code) (before : Bool) (r : Replicator C)
      → Keeps r (notify_on_caught_up {N = N} out error before r)
  unfolding notify_on_caught_up
  notify_on_caught_up-Keeps out error before r = notify_closure-Keeps out error before r.catchup r

  pub timeout_now_if_reached-Keeps :
      (r : Replicator C) → Keeps r (timeout_now_if_reached {P = P} {N = N} r)
  unfolding timeout_now_if_reached send_timeout_now
  timeout_now_if_reached-Keeps r =
      if-Keeps (ltb 0 r.timeout_now_index && ltb r.timeout_now_index (min_flying_index r))
        (record { kept = λ v. (v, refl) }) (Keeps-same r _)

  with_opening-Keeps : (o : Opening) (r : Replicator C) → Keeps r (with_opening {P = P} {N = N} o r)
  with_opening-Keeps throttled r = block-Keeps r
  with_opening-Keeps not_opened r = record { kept = λ v. (v, refl) }
  with_opening-Keeps no_uri r = record {
    kept = λ v. (block-Keeps (record r { st = St.installing_snapshot; has_reader = false })).kept v;
  }
  with_opening-Keeps no_meta r = record { kept = λ v. (v, refl) }
  with_opening-Keeps (opened i) r = record { kept = λ v. (v, refl) }

  start_install-Keeps :
      (opts : Options P N) (out : Outside P) (r : Replicator C) → Keeps r (start_install opts out r)
  unfolding start_install
  start_install-Keeps opts out r =
      if-Keeps opts.node_is_witness (block-Keeps r)
        (if-Keeps r.has_reader (Keeps-same r _) (with_opening-Keeps out.opening r))

  idle-Keeps :
      (es : List (Effect P N C)) (r : Replicator C)
      → Keeps r ((if r.flying_append_entries_size == 0 then record r { st = St.idle } else r), es)
  idle-Keeps es r = elim (Bool-cases (r.flying_append_entries_size == 0)) [
    | inl h ↦ record { kept = λ v. ground (arith, v) }
    | inr h ↦ record { kept = λ v. ground (arith, v) }
  ]

  pub wait_more_entries-Keeps :
      (opts : Options P N) (out : Outside P) (r : Replicator C)
      → Keeps r (wait_more_entries opts out r)
  unfolding wait_more_entries
  wait_more_entries-Keeps opts out r =
      bind-Keeps
        (if-Keeps
          (r.wait_id == 0
            && ltb r.flying_append_entries_size opts.max_entries_size
            && ltb (length r.append_entries_in_fly) opts.max_parallel_append_entries_rpc_num)
          (record { kept = λ v. (v, refl) }) (Keeps-same r _))
        (idle-Keeps [])

  -- A new request of `n` entries at the next index.
  push-Keeps :
      (n id : ℕ) (es : List (Effect P N C)) (r : Replicator C)
      → Keeps r (
        (record r {
          append_entries_in_fly =
              r.append_entries_in_fly
              ++ (record { log_index = r.next_index; entries_size = n; call_id = id } ∷ []);
          next_index = r.next_index + n;
          flying_append_entries_size = r.flying_append_entries_size + n;
          st = St.appending_entries;
        }),
        es,
      )
  push-Keeps n id es r = record {
    kept = λ v.
        let same : lowest r ≡ (r.next_index + n) - (r.flying_append_entries_size + n) =
          omega arith in
        (
          (
            omega (arith, v.0),
            Window-start (lowest r) _ _ _ same (
                Window-push (lowest r) r.append_entries_in_fly r.next_index
                  (record { log_index = r.next_index; entries_size = n; call_id = id }) v.1 refl),
          ),
          sym same,
        );
  }

  send_probe-Keeps :
      (opts : Options P N) (out : Outside P) (prev : Option (ℕ × ℕ)) (r : Replicator C)
      → Keeps r (send_probe opts out prev r)
  unfolding send_probe
  send_probe-Keeps opts out none r = start_install-Keeps opts out r
  send_probe-Keeps opts out (some prev) r = record {
    kept = λ v.
        let f : Flying = record {
          log_index = r.next_index;
          entries_size = 0;
          call_id = out.call_id;
        } in
        (
          (
            v.0,
            Window-stop (lowest r) (r.append_entries_in_fly ++ (f ∷ [])) (r.next_index + 0)
                r.next_index (omega arith)
                (Window-push (lowest r) r.append_entries_in_fly r.next_index f v.1 refl),
          ),
          refl,
        );
  }

  beat-Keeps :
      (opts : Options P N) (out : Outside P) (prev : Option (ℕ × ℕ)) (r : Replicator C)
      → Keeps r (beat opts out prev r)
  beat-Keeps opts out none r = Keeps-same r _
  beat-Keeps opts out (some prev) r = Keeps-same r _

  pub send_empty_entries-Keeps :
      (opts : Options P N) (out : Outside P) (beats : Bool) (r : Replicator C)
      → Keeps r (send_empty_entries opts out beats r)
  unfolding send_empty_entries
  send_empty_entries-Keeps opts out beats r =
      let prev = fill_common_fields out (r.next_index - 1) beats in
      if-Keeps beats (beat-Keeps opts out prev r) (send_probe-Keeps opts out prev r)

  send_prepared-Keeps :
      (opts : Options P N) (out : Outside P) (prev : ℕ × ℕ) (p : Prepared N) (r : Replicator C)
      → Keeps r (send_prepared opts out prev p r)
  unfolding send_prepared
  send_prepared-Keeps opts out prev p r =
      bind-Keeps
        (push-Keeps (length p.entries) out.call_id
          (Replicator.append_entries out.call_id (request_of opts out prev p.entries p.attachment)
            ∷ [])
          r)
        (wait_more_entries-Keeps opts out)

  send_none-Keeps :
      (opts : Options P N) (out : Outside P) (code : Code) (r : Replicator C)
      → Keeps r (send_none opts out code r)
  unfolding send_none
  send_none-Keeps opts out code r =
      if-Keeps (ltb r.next_index out.first_log_index)
        (bind-Keeps (reset_next_index-Keeps r) (start_install-Keeps opts out))
        (if-Keeps (is_readonly code) (idle-Keeps [] r) (wait_more_entries-Keeps opts out r))

  send_from-Keeps :
      (opts : Options P N) (out : Outside P) (prev : Option (ℕ × ℕ)) (r : Replicator C)
      → Keeps r (send_from opts out prev r)
  unfolding send_from
  send_from-Keeps opts out none r =
      bind-Keeps (reset_next_index-Keeps r) (start_install-Keeps opts out)
  send_from-Keeps opts out (some prev) r =
      let p =
        prepare_entries opts out (opts.max_entries_size - r.flying_append_entries_size) r.next_index
          [] r.readonly_index in
      let m = record r { readonly_index = p.readonly_index } in
      record {
        kept = λ v.
            (if-Keeps (null p.entries) (send_none-Keeps opts out p.code m)
                (send_prepared-Keeps opts out prev p m)).kept
              v;
      }

  pub send_entries-Keeps :
      (opts : Options P N) (out : Outside P) (r : Replicator C) → Keeps r (send_entries opts out r)
  unfolding send_entries
  send_entries-Keeps opts out r =
      if-Keeps
        (leb opts.max_entries_size r.flying_append_entries_size
          || leb opts.max_parallel_append_entries_rpc_num (length r.append_entries_in_fly)
          || is_blocking r.st)
        (Keeps-same r _)
        (send_from-Keeps opts out (fill_common_fields out (r.next_index - 1) false) r)
