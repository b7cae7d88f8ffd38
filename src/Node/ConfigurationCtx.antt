-- ===== src/Node/ConfigurationCtx.antt =====
-- `NodeImpl::ConfigurationCtx`: the stages of a change of the configuration. What the node does for a
-- stage is its list of effects. `add_replicator` and `wait_caughtup` of the replicator group are
-- arguments: whether each succeeds for a peer.
use quorumkit.Prelude.{
  ℕ, ◌+◌, Bool, true, false, not, List, [], ◌∷◌, ◌++◌, Option, none, some, ltb, ◌==◌, if◌then◌else◌,
  length, null,
}
use quorumkit.Errno.{Code, ok, is_ok, eperm, ecatchup, eleader_removed, ebusy}
use quorumkit.Peer.{PeerOrder}
use quorumkit.Configuration.{diffs, equals}
use quorumkit.Configuration.Set
use quorumkit.Node.{State, is_leader, transferring}

pub data Stage : Type 0 where
  stage_none catching_up joint stable : Stage

pub record ConfigurationCtx (P D : Type 0) : Type 0 where
  pub stage : Stage
  pub nchanges : ℕ
  pub version : ℕ
  pub new_peers : List P
  pub old_peers : List P
  pub adding_peers : List P
  pub done : Option D

-- `apply_configuration` is `unsafe_apply_configuration`: the new configuration, the old one in a joint
-- stage, and whether a leader starts. `stop_replicator` stops those of the second list only.
pub data Change (P D : Type 0) : Type 0 where
  start_replicator : P → Change P D
  wait_caughtup : P → (version : ℕ) → Change P D
  apply_configuration : List P → Option (List P) → (leader_start : Bool) → Change P D
  stop_replicator : (keep : List P) → (drop : List P) → Change P D
  check_majority_nodes_readonly : Change P D
  run : D → Code → Change P D
  step_down : Code → Change P D

abbrev pub is_none_stage : Stage → Bool
is_none_stage stage_none = true
is_none_stage s = false

abbrev pub refusal : State → Code
refusal transferring = ebusy
refusal s = eperm

-- `none` is the NULL status of a leader that steps down.
abbrev pub status_of : Option Code → Code
status_of none = eperm
status_of (some code) = code

abbrev pub succeeded : Option Code → Bool
succeeded none = false
succeeded (some code) = is_ok code

module _ {P D : Type 0} where
  abbrev pub run_done : Option D → Code → List (Change P D)
  run_done none code = []
  run_done (some done) code = run done code ∷ []

  -- What `reset` does to a context that is busy.
  unfoldable pub clear :
      Option Code → ConfigurationCtx P D → ConfigurationCtx P D × List (Change P D)
  clear st ctx = (
    record ctx {
      stage = stage_none;
      nchanges = 0;
      version = ctx.version + 1;
      new_peers = [];
      old_peers = [];
      adding_peers = [];
      done = none;
    },
    (if succeeded st
          then stop_replicator ctx.new_peers ctx.old_peers
          else stop_replicator ctx.old_peers ctx.new_peers)
        ∷ check_majority_nodes_readonly
        ∷ run_done ctx.done (status_of st),
  )

  abbrev pub clear_from :
      Stage → Option Code → ConfigurationCtx P D → ConfigurationCtx P D × List (Change P D)
  clear_from stage_none st ctx = (ctx, [])
  clear_from s st ctx = clear st ctx

  unfoldable pub reset :
      Option Code → ConfigurationCtx P D → ConfigurationCtx P D × List (Change P D)
  unfolding clear
  reset st ctx = clear_from ctx.stage st ctx

  abbrev pub to_joint : ConfigurationCtx P D → ConfigurationCtx P D × List (Change P D)
  to_joint ctx = (
    record ctx { stage = joint },
    apply_configuration ctx.new_peers (some ctx.old_peers) false ∷ [],
  )

  abbrev pub to_stable : ConfigurationCtx P D → ConfigurationCtx P D × List (Change P D)
  to_stable ctx = (record ctx { stage = stable }, apply_configuration ctx.new_peers none false ∷ [])

module _ {P D : Type 0} ⦃o : PeerOrder P⦄ where
  -- The last stage is over: a leader that is not in the new configuration steps down.
  unfoldable pub finish : P → ConfigurationCtx P D → ConfigurationCtx P D × List (Change P D)
  unfolding clear
  finish server_id ctx =
      let (cleared, effects) = clear (some ok) ctx in
      (
        cleared,
        effects
            ++ (if Set.find server_id ctx.new_peers then [] else step_down eleader_removed ∷ []),
      )

  unfoldable pub stage_after :
      Stage → P → ConfigurationCtx P D → ConfigurationCtx P D × List (Change P D)
  unfolding finish
  stage_after catching_up server_id ctx = if ltb 1 ctx.nchanges then to_joint ctx else to_stable ctx
  stage_after joint server_id ctx = to_stable ctx
  stage_after stable server_id ctx = finish server_id ctx
  stage_after stage_none server_id ctx = (ctx, [])

  unfoldable pub next_stage : P → ConfigurationCtx P D → ConfigurationCtx P D × List (Change P D)
  unfolding stage_after
  next_stage server_id ctx = stage_after ctx.stage server_id ctx

  -- The peer is one of those that the change adds; another is no member of `_adding_peers`.
  unfoldable pub caught_up : P → P → ConfigurationCtx P D → ConfigurationCtx P D × List (Change P D)
  unfolding next_stage
  caught_up server_id peer_id ctx =
      let rest = Set.erase peer_id ctx.adding_peers in
      let m = record ctx { adding_peers = rest } in
      if null rest then next_stage server_id m else (m, [])

  unfoldable pub on_caughtup :
      P → ℕ → P → Bool → ConfigurationCtx P D → ConfigurationCtx P D × List (Change P D)
  unfolding caught_up reset
  on_caughtup server_id version peer_id succ ctx =
      if not (version == ctx.version)
      then (ctx, [])
      else if succ
      then caught_up server_id peer_id ctx
      else reset (some ecatchup) ctx

  -- The loop of `start`, which ends at the first peer that cannot be added.
  unfoldable pub start_catchup :
      P
      → (P → Bool)
      → (P → Bool)
      → List P
      → ConfigurationCtx P D
      → ConfigurationCtx P D × List (Change P D)
  unfolding on_caughtup
  start_catchup server_id adds waits [] ctx = (ctx, [])
  start_catchup server_id adds waits (p ∷ ps) ctx =
      let rest = start_catchup server_id adds waits ps ctx in
      let failed = on_caughtup server_id ctx.version p false ctx in
      if not (adds p)
      then failed
      else if not (waits p)
      then (failed.0, start_replicator p ∷ failed.1)
      else (rest.0, start_replicator p ∷ wait_caughtup p ctx.version ∷ rest.1)

  unfoldable pub start :
      P
      → (P → Bool)
      → (P → Bool)
      → List P
      → List P
      → Option D
      → ConfigurationCtx P D
      → ConfigurationCtx P D × List (Change P D)
  unfolding next_stage start_catchup
  start server_id adds waits old_conf new_conf done ctx =
      let (adding, removing) = diffs new_conf old_conf in
      let m = record ctx {
        done = done;
        stage = catching_up;
        old_peers = old_conf;
        new_peers = new_conf;
        nchanges = length adding + length removing;
      } in
      if null adding
      then next_stage server_id m
      else start_catchup server_id adds waits adding (record m { adding_peers = adding })

module _ {P D : Type 0} where
  -- A new leader writes its configuration first.
  unfoldable pub flush :
      List P → List P → ConfigurationCtx P D → ConfigurationCtx P D × List (Change P D)
  flush conf old_conf ctx =
      if null old_conf
      then (
        record ctx { new_peers = conf; stage = stable; old_peers = conf },
        apply_configuration conf none true ∷ [],
      )
      else (
        record ctx { new_peers = conf; stage = joint; old_peers = old_conf },
        apply_configuration conf (some old_conf) true ∷ [],
      )

module _ {P D : Type 0} ⦃o : PeerOrder P⦄ where
  unfoldable pub is_busy : ConfigurationCtx P D → Bool
  is_busy ctx = not (is_none_stage ctx.stage)

  -- `unsafe_register_conf_change`, for a node in the state; `conf` is the node's configuration.
  unfoldable pub register_conf_change :
      P
      → (P → Bool)
      → (P → Bool)
      → State
      → List P
      → List P
      → List P
      → Option D
      → ConfigurationCtx P D
      → ConfigurationCtx P D × List (Change P D)
  unfolding is_busy start
  register_conf_change server_id adds waits state conf old_conf new_conf done ctx =
      if not (is_leader state)
      then (ctx, run_done done (refusal state))
      else if is_busy ctx
      then (ctx, run_done done ebusy)
      else if equals conf new_conf
      then (ctx, run_done done ok)
      else start server_id adds waits old_conf new_conf done ctx
