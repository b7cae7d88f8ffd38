-- ===== src/Tests.antt =====
-- Concrete peers, and the theorems at concrete inputs.
mod Votes
mod Queues
mod Logs
mod Machines
mod Changes
mod Replicas
mod Sets
mod Nodes
use quorumkit.Prelude.{
  ℕ, ◌≡◌, refl, ◌⊎◌, Bool, true, false, not, ◌&&◌, ltb, ◌==◌, List, [], ◌∷◌, arith,
}
use quorumkit.Peer.{PeerOrder}

pub number_eq_lt : (a b : ℕ) → a == b ≡ (not (ltb a b) && not (ltb b a))
number_eq_lt a b = ground arith

pub number_lt_irrefl : (a : ℕ) → ltb a a ≡ false
number_lt_irrefl a = ground arith

pub number_lt_trans : (a b c : ℕ) → ltb a b ≡ true → ltb b c ≡ true → ltb a c ≡ true
number_lt_trans a b c h k = ground arith

pub number_lt_split : (a b c : ℕ) → ltb a b ≡ true → (ltb a c ≡ true) ⊎ (ltb c b ≡ true)
number_lt_split a b c h = ground arith

-- A peer is a number, and 0 is the peer without an address.
instance abbrev pub number_peer : PeerOrder ℕ
number_peer = record {
  peer_eq = λ a b. a == b;
  peer_lt = λ a b. ltb a b;
  empty_peer = 0;
  is_empty = λ a. a == 0;
  eq_lt = number_eq_lt;
  lt_irrefl = number_lt_irrefl;
  lt_trans = number_lt_trans;
  lt_split = number_lt_split;
  is_empty_eq = λ a. refl;
}

abbrev pub three : List ℕ
three = 1 ∷ 2 ∷ 3 ∷ []
