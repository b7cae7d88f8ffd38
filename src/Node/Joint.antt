-- ===== src/Node/Joint.antt =====
-- How a configuration change reaches its last stage.
use quorumkit.Prelude.{ℕ, ◌≤◌, ◌≡◌, ◌⊎◌, Bool, List, [], Option, none}
use quorumkit.Errno.{Code}
use quorumkit.Peer.{PeerOrder}
use quorumkit.Configuration.Set
use quorumkit.Node.{State}
use quorumkit.Node.ConfigurationCtx.{
  stage_none, joint, stable, ConfigurationCtx, Change, reset, next_stage, on_caughtup, flush,
  register_conf_change,
}
use quorumkit.Node.Stages.{distance}

module _ {P D : Type 0} where
  -- The constructor's context.
  abbrev pub no_change : ConfigurationCtx P D
  no_change = record {
    stage = stage_none;
    nchanges = 0;
    version = 0;
    new_peers = [];
    old_peers = [];
    adding_peers = [];
    done = none;
  }

-- The steps of a context.
pub data Step {P D : Type 0} ⦃o : PeerOrder P⦄
    : ConfigurationCtx P D → ConfigurationCtx P D → Type 0 where
  registers :
      (server_id : P) (adds waits : P → Bool) (state : State) (conf old_conf new_conf : List P)
      → (done : Option D) (ctx : ConfigurationCtx P D)
      → Step ctx (register_conf_change server_id adds waits state conf old_conf new_conf done ctx).0
  flushes :
      (conf old_conf : List P) (ctx : ConfigurationCtx P D) → Step ctx (flush conf old_conf ctx).0
  catches_up :
      (server_id : P) (version : ℕ) (p : P) (succ : Bool) (ctx : ConfigurationCtx P D)
      → Step ctx (on_caughtup server_id version p succ ctx).0
  goes_on : (server_id : P) (ctx : ConfigurationCtx P D) → Step ctx (next_stage server_id ctx).0
  resets : (st : Option Code) (ctx : ConfigurationCtx P D) → Step ctx (reset st ctx).0

pub data Reached {P D : Type 0} ⦃o : PeerOrder P⦄ : ConfigurationCtx P D → Type 0 where
  new_ctx : Reached no_change
  after : {a b : ConfigurationCtx P D} → Reached a → Step a b → Reached b

module _ {P D : Type 0} ⦃o : PeerOrder P⦄ where
  -- Where a step may leave a context in the last stage: it was there or in the joint stage before,
  -- nothing changes, or at most one peer does.
  record Allowed (a : ConfigurationCtx P D) (x : ConfigurationCtx P D × List (Change P D))
      : Type 0 where
    allowed :
        x.0.stage ≡ stable
        → (a.stage ≡ stable)
          ⊎ (a.stage ≡ joint)
          ⊎ (x.0.new_peers ≡ x.0.old_peers)
          ⊎ (distance x.0.new_peers x.0.old_peers ≤ 1)
