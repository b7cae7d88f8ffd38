-- ===== src/Node/Stages.antt =====
-- The stages of a configuration change: what a context holds in each, and how a change reaches its
-- last one.
use quorumkit.Prelude.{
  ℕ, ◌+◌, ◌≡◌, inl, inr, refl, ap, ◌∙◌, Bool, false, List, [], ◌∷◌, Option, none, some, ltb, ◌==◌,
  length, null, arith, Bool-cases,
}
use quorumkit.Errno.{Code, ok, ecatchup}
use quorumkit.Peer.{PeerOrder}
use quorumkit.Configuration.{diffs, equals}
use quorumkit.Configuration.Set
use quorumkit.Configuration.Set.{IsSorted, erase-IsSorted}
use quorumkit.Node.{State, is_leader}
use quorumkit.Node.ConfigurationCtx.{
  Stage, stage_none, catching_up, joint, stable, ConfigurationCtx, clear, clear_from, reset,
  to_joint, to_stable, finish, stage_after, next_stage, caught_up, on_caughtup, start_catchup,
  start, flush, is_busy, register_conf_change,
}

module _ {P : Type 0} ⦃o : PeerOrder P⦄ where
  -- The number of peers that are in one of the two configurations only.
  abbrev pub distance : List P → List P → ℕ
  distance new_peers old_peers =
      length (diffs new_peers old_peers).0 + length (diffs new_peers old_peers).1

  erase_nil : (p : P) → Set.erase p [] ≡ []
  unfolding Set.erase
  erase_nil p = refl

module _ {P D : Type 0} ⦃o : PeerOrder P⦄ where
  pub record IsValid (ctx : ConfigurationCtx P D) : Type 0 where
    -- A context that is not busy holds nothing.
    pub idle :
        ctx.stage ≡ stage_none
        → (ctx.new_peers ≡ []) × (ctx.old_peers ≡ []) × (ctx.adding_peers ≡ []) × (ctx.done ≡ none)
    pub counted : ctx.stage ≡ catching_up → ctx.nchanges ≡ distance ctx.new_peers ctx.old_peers

  clear-IsValid : (st : Option Code) (ctx : ConfigurationCtx P D) → IsValid (clear st ctx).0
  unfolding clear
  clear-IsValid st ctx = record {
    idle = λ e. (refl, refl, refl, refl);
    counted = λ e. absurd (ground (arith, e));
  }

  pub reset-IsValid :
      (st : Option Code) (ctx : ConfigurationCtx P D) → IsValid ctx → IsValid (reset st ctx).0
  unfolding reset
  reset-IsValid st ctx v = from ctx.stage
    where
      from : (s : Stage) → IsValid (clear_from s st ctx).0
      from stage_none = v
      from catching_up = clear-IsValid st ctx
      from joint = clear-IsValid st ctx
      from stable = clear-IsValid st ctx

  to_joint-IsValid : (ctx : ConfigurationCtx P D) → IsValid (to_joint ctx).0
  to_joint-IsValid ctx = record {
    idle = λ e. absurd (ground (arith, e));
    counted = λ e. absurd (ground (arith, e));
  }

  to_stable-IsValid : (ctx : ConfigurationCtx P D) → IsValid (to_stable ctx).0
  to_stable-IsValid ctx = record {
    idle = λ e. absurd (ground (arith, e));
    counted = λ e. absurd (ground (arith, e));
  }

  finish-IsValid : (server_id : P) (ctx : ConfigurationCtx P D) → IsValid (finish server_id ctx).0
  unfolding finish
  finish-IsValid server_id ctx =
      let v = clear-IsValid (some ok) ctx in record { idle = v.idle; counted = v.counted }

  pub next_stage-IsValid :
      (server_id : P) (ctx : ConfigurationCtx P D)
      → IsValid ctx
      → IsValid (next_stage server_id ctx).0
  unfolding next_stage stage_after
  next_stage-IsValid server_id ctx v = from ctx.stage
    where
      from : (s : Stage) → IsValid (stage_after s server_id ctx).0
      from stage_none = v
      from catching_up = elim (Bool-cases (ltb 1 ctx.nchanges)) [
        | inl h ↦ rw h (to_joint-IsValid ctx)
        | inr h ↦ rw h (to_stable-IsValid ctx)
      ]
      from joint = to_stable-IsValid ctx
      from stable = finish-IsValid server_id ctx

  pub erased-IsValid :
      (p : P) (ctx : ConfigurationCtx P D)
      → IsValid ctx
      → IsValid (record ctx { adding_peers = Set.erase p ctx.adding_peers })
  erased-IsValid p ctx v = record {
    idle = λ e. let (a, b, c, d) = v.idle e in (a, b, ap (Set.erase p) c ∙ erase_nil p, d);
    counted = v.counted;
  }

  caught_up-IsValid :
      (server_id p : P) (ctx : ConfigurationCtx P D)
      → IsValid ctx
      → IsValid (caught_up server_id p ctx).0
  unfolding caught_up
  caught_up-IsValid server_id p ctx v =
      let m : ConfigurationCtx P D = record ctx { adding_peers = Set.erase p ctx.adding_peers } in
      let w = erased-IsValid p ctx v in
      elim (Bool-cases (null (Set.erase p ctx.adding_peers))) [
        | inl h ↦ rw (caught_up, h) (next_stage-IsValid server_id m w)
        | inr h ↦ rw (caught_up, h) w
      ]

  pub on_caughtup-IsValid :
      (server_id : P) (version : ℕ) (p : P) (succ : Bool) (ctx : ConfigurationCtx P D)
      → IsValid ctx
      → IsValid (on_caughtup server_id version p succ ctx).0
  unfolding on_caughtup
  on_caughtup-IsValid server_id version p succ ctx v = elim (Bool-cases (version == ctx.version)) [
    | inr h ↦ rw (on_caughtup, h) v
    | inl h ↦ elim (Bool-cases succ) [
      | inl k ↦ rw (on_caughtup, h, k) (caught_up-IsValid server_id p ctx v)
      | inr k ↦ rw (on_caughtup, h, k) (reset-IsValid (some ecatchup) ctx v)
    ]
  ]

  start_catchup-IsValid :
      (server_id : P) (adds waits : P → Bool) (ps : List P) (ctx : ConfigurationCtx P D)
      → IsValid ctx
      → IsValid (start_catchup server_id adds waits ps ctx).0
  unfolding start_catchup
  start_catchup-IsValid server_id adds waits [] ctx v = v
  start_catchup-IsValid server_id adds waits (p ∷ ps) ctx v =
      let failed = on_caughtup-IsValid server_id ctx.version p false ctx v in
      elim (Bool-cases (adds p)) [
        | inr h ↦ rw h failed
        | inl h ↦ elim (Bool-cases (waits p)) [
          | inr k ↦ rw (h, k) failed
          | inl k ↦ rw (h, k) (start_catchup-IsValid server_id adds waits ps ctx v)
        ]
      ]

  start-IsValid :
      (server_id : P) (adds waits : P → Bool) (old_conf new_conf : List P) (done : Option D)
      (ctx : ConfigurationCtx P D)
      → IsValid (start server_id adds waits old_conf new_conf done ctx).0
  unfolding start
  start-IsValid server_id adds waits old_conf new_conf done ctx =
      let adding = (diffs new_conf old_conf).0 in
      let m : ConfigurationCtx P D = record ctx {
        done = done;
        stage = catching_up;
        old_peers = old_conf;
        new_peers = new_conf;
        nchanges = distance new_conf old_conf;
      } in
      elim (Bool-cases (null adding)) [
        | inl h ↦
            rw (start, h)
              (next_stage-IsValid server_id m
                (record { idle = λ e. absurd (ground (arith, e)); counted = λ e. refl }))
        | inr h ↦
            rw (start, h)
              (start_catchup-IsValid server_id adds waits adding
                (record m { adding_peers = adding })
                (record { idle = λ e. absurd (ground (arith, e)); counted = λ e. refl }))
      ]

  pub register-IsValid :
      (server_id : P) (adds waits : P → Bool) (state : State) (conf old_conf new_conf : List P)
      (done : Option D) (ctx : ConfigurationCtx P D)
      → IsValid ctx
      → IsValid (register_conf_change server_id adds waits state conf old_conf new_conf done ctx).0
  unfolding register_conf_change
  register-IsValid server_id adds waits state conf old_conf new_conf done ctx v =
      elim (Bool-cases (is_leader state)) [
        | inr h ↦ rw (register_conf_change, h) v
        | inl h ↦ elim (Bool-cases (is_busy ctx)) [
          | inl k ↦ rw (register_conf_change, h, k) v
          | inr k ↦ elim (Bool-cases (equals conf new_conf)) [
            | inl l ↦ rw (register_conf_change, h, k, l) v
            | inr l ↦
                rw (register_conf_change, h, k, l)
                  (start-IsValid server_id adds waits old_conf new_conf done ctx)
          ]
        ]
      ]

  pub flush-IsValid :
      (conf old_conf : List P) (ctx : ConfigurationCtx P D) → IsValid (flush conf old_conf ctx).0
  unfolding flush
  flush-IsValid conf old_conf ctx = elim (Bool-cases (null old_conf)) [
    | inl h ↦
        rw (flush, h)
          (record {
            idle = λ e. absurd (ground (arith, e));
            counted = λ e. absurd (ground (arith, e));
          })
    | inr h ↦
        rw (flush, h)
          (record {
            idle = λ e. absurd (ground (arith, e));
            counted = λ e. absurd (ground (arith, e));
          })
  ]
