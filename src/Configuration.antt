-- ===== src/Configuration.antt =====
-- src/braft/configuration.h and configuration.cpp: a `Configuration` is a `std::set<PeerId>`. The
-- set is the list of its elements in the order of `operator<`, and its `insert`, `erase` and `find`
-- compare by that operator alone, as `std::set` does.
pub mod Set
pub mod Laws
pub mod Equals
use quorumkit.Prelude.{ℕ, Bool, true, false, not, ◌&&◌, List, [], ◌∷◌, ◌==◌, if◌then◌else◌, length}
use quorumkit.Peer.{PeerOrder}
use Set.{find, insert, erase}

module _ {P : Type 0} ⦃o : PeerOrder P⦄ where
  -- `Configuration(const std::vector<PeerId>&)` and `operator=`: insert in the order of the vector.
  pub insert_all : List P → List P → List P
  insert_all peers [] = peers
  insert_all peers (p ∷ ps) = insert_all (insert p peers) ps

  unfoldable pub of_vector : List P → List P
  unfolding insert_all
  of_vector ps = insert_all [] ps

  -- The set after the call, and whether the peer is newly added.
  unfoldable pub add_peer : List P → P → List P × Bool
  add_peer peers p = (insert p peers, not (find p peers))

  -- The set after the call, and whether the peer is removed.
  unfoldable pub remove_peer : List P → P → List P × Bool
  remove_peer peers p = (erase p peers, find p peers)

  unfoldable pub contains : List P → P → Bool
  contains peers p = find p peers

  -- `contains(const std::vector<PeerId>&)`, and the loop of `equals`.
  unfoldable pub contains_all : List P → List P → Bool
  contains_all peers [] = true
  contains_all peers (p ∷ ps) = find p peers && contains_all peers ps

  -- `equals(const std::vector<PeerId>&)`
  unfoldable pub equals_vector : List P → List P → Bool
  unfolding contains_all of_vector
  equals_vector peers ps = contains_all peers ps && length (of_vector ps) == length peers

  -- `equals(const Configuration&)`
  unfoldable pub equals : List P → List P → Bool
  unfolding contains_all
  equals peers rhs = if length peers == length rhs then contains_all rhs peers else false

  pub erase_all : List P → List P → List P
  erase_all peers [] = peers
  erase_all peers (p ∷ ps) = erase_all (erase p peers) ps

  -- `included` and `excluded`
  unfoldable pub diffs : List P → List P → List P × List P
  unfolding erase_all
  diffs peers rhs = (erase_all peers rhs, erase_all rhs peers)

  -- `append_peers` inserts the range in order.
  unfoldable pub append_peers : List P → List P → List P
  unfolding insert_all
  append_peers into peers = insert_all into peers
