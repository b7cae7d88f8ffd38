-- ===== src/ConfigurationManager.antt =====
-- src/braft/configuration_manager.h and configuration_manager.cpp: the configurations that the log
-- holds, oldest first, and the one of the last snapshot. A CHECK that fails logs, and what stands
-- after it runs.
pub mod Latest
pub mod Truncate
use quorumkit.Prelude.{
  ℕ, Bool, ◌||◌, List, [], ◌∷◌, ◌++◌, Option, none, some, ltb, leb, if◌then◌else◌, drop_while,
  drop_while_end, last_or, null,
}
use quorumkit.Errno.{Code, ok, minus_one}
use quorumkit.Peer.{PeerOrder}
use quorumkit.Configuration
use quorumkit.Configuration.{of_vector}
use quorumkit.LogEntry.{LogId, LogEntry, no_id}

pub record ConfigurationEntry (P : Type 0) : Type 0 where
  pub id : LogId
  pub conf : List P
  pub old_conf : List P

pub record ConfigurationManager (P : Type 0) : Type 0 where
  pub configurations : List (ConfigurationEntry P)
  pub snapshot : ConfigurationEntry P

module _ {P : Type 0} where
  abbrev pub no_entry : ConfigurationEntry P
  no_entry = record { id = no_id; conf = []; old_conf = [] }

  abbrev pub new_manager : ConfigurationManager P
  new_manager = record { configurations = []; snapshot = no_entry }

  -- No old configuration: no joint consensus is under way.
  unfoldable pub stable : ConfigurationEntry P → Bool
  stable e = null e.old_conf

  unfoldable pub empty : ConfigurationEntry P → Bool
  empty e = null e.conf

  abbrev pub index : ConfigurationEntry P → ℕ
  index e = e.id.index

  add_to : List (ConfigurationEntry P) → ConfigurationEntry P → Code × List (ConfigurationEntry P)
  add_to [] entry = (ok, entry ∷ [])
  add_to (c ∷ cs) entry =
      if leb (index entry) (index (last_or c cs))
      then (minus_one, c ∷ cs)
      else (ok, (c ∷ cs) ++ (entry ∷ []))

  unfoldable pub add : ConfigurationManager P → ConfigurationEntry P → Code × ConfigurationManager P
  unfolding add_to
  add m entry =
      let (code, cs) = add_to m.configurations entry in (code, record m { configurations = cs })

  unfoldable pub truncate_prefix : ConfigurationManager P → ℕ → ConfigurationManager P
  truncate_prefix m first_index_kept = record m {
    configurations = drop_while (λ c. ltb (index c) first_index_kept) m.configurations;
  }

  unfoldable pub truncate_suffix : ConfigurationManager P → ℕ → ConfigurationManager P
  truncate_suffix m last_index_kept = record m {
    configurations = drop_while_end (λ c. ltb last_index_kept (index c)) m.configurations;
  }

  unfoldable pub set_snapshot :
      ConfigurationManager P → ConfigurationEntry P → ConfigurationManager P
  set_snapshot m entry = record m { snapshot = entry }

  -- The loop of `get`: the entry before the iterator, from `before` on.
  pub get_from : ℕ → ConfigurationEntry P → List (ConfigurationEntry P) → ConfigurationEntry P
  get_from last_included_index before [] = before
  get_from last_included_index before (c ∷ cs) =
      let rest = get_from last_included_index c cs in
      if ltb last_included_index (index c) then before else rest

  unfoldable pub get : ConfigurationManager P → ℕ → ConfigurationEntry P
  unfolding get_from
  get m last_included_index = get_from last_included_index m.snapshot m.configurations

  unfoldable pub last_configuration : ConfigurationManager P → ConfigurationEntry P
  last_configuration m = last_or m.snapshot m.configurations

module _ {P : Type 0} ⦃o : PeerOrder P⦄ where
  abbrev set_of : Option (List P) → List P
  set_of none = []
  set_of (some peers) = of_vector peers

  -- `ConfigurationEntry(const LogEntry&)`; `entry.peers` is not NULL there.
  unfoldable pub of_log_entry : LogEntry P → ConfigurationEntry P
  of_log_entry e = record { id = e.id; conf = set_of e.peers; old_conf = set_of e.old_peers }

  unfoldable pub contains : ConfigurationEntry P → P → Bool
  contains e peer = Configuration.contains e.conf peer || Configuration.contains e.old_conf peer

  unfoldable pub list_peers : ConfigurationEntry P → List P
  list_peers e = Configuration.append_peers (Configuration.append_peers [] e.conf) e.old_conf
