-- ===== src/Peer.antt =====
-- Peers (src/braft/configuration.h): `PeerId`, its comparisons, and what the other components use
-- of them. `PeerOrder` is that interface. `butil::EndPoint` is a library's: its type and its
-- comparisons are the instance `EndPoint`, with the documented laws of a total order.
pub mod Order
use quorumkit.Prelude.{
  ℕ, ◌≡◌, ◌↔◌, ◌⊎◌, Bool, true, false, not, ◌&&◌, ◌||◌, ltb, ◌==◌, if◌then◌else◌, arith,
}

-- What the components use of `PeerId`: `operator==`, `operator<`, `PeerId()` and `is_empty()`.
pub record PeerOrder (P : Type 0) : Type 0 where
  pub peer_eq : P → P → Bool
  pub peer_lt : P → P → Bool
  pub empty_peer : P
  pub is_empty : P → Bool
  pub eq_lt : (a b : P) → peer_eq a b ≡ (not (peer_lt a b) && not (peer_lt b a))
  pub lt_irrefl : (a : P) → peer_lt a a ≡ false
  pub lt_trans : (a b c : P) → peer_lt a b ≡ true → peer_lt b c ≡ true → peer_lt a c ≡ true
  pub lt_split : (a b c : P) → peer_lt a b ≡ true → (peer_lt a c ≡ true) ⊎ (peer_lt c b ≡ true)
  pub is_empty_eq : (a : P) → is_empty a ≡ peer_eq a empty_peer

-- `butil::EndPoint`: an ip and a port, compared by both.
pub record EndPoint (A : Type 0) : Type 0 where
  pub addr_eq : A → A → Bool
  pub addr_lt : A → A → Bool
  pub any_addr : A
  pub addr_eq_iff : (a b : A) → (addr_eq a b ≡ true) ↔ (a ≡ b)
  pub addr_irrefl : (a : A) → addr_lt a a ≡ false
  pub addr_trans : (a b c : A) → addr_lt a b ≡ true → addr_lt b c ≡ true → addr_lt a c ≡ true
  pub addr_total : (a b : A) → (addr_lt a b ≡ true) ⊎ ((addr_eq a b ≡ true) ⊎ (addr_lt b a ≡ true))

pub data Role : Type 0 where
  replica witness : Role

pub record PeerId (A : Type 0) : Type 0 where
  pub addr : A
  pub idx : ℕ
  pub role : Role

pub is_witness : {A : Type 0} → PeerId A → Bool
is_witness p = elim p.role [ witness ↦ true | replica ↦ false ]

module _ {A : Type 0} ⦃e : EndPoint A⦄ where
  -- `PeerId()` and `reset()`
  pub reset : PeerId A
  reset = record { addr = e.any_addr; idx = 0; role = replica }

  pub id_is_empty : PeerId A → Bool
  id_is_empty p = e.addr_eq p.addr e.any_addr && p.idx == 0

  pub id_lt : PeerId A → PeerId A → Bool
  id_lt p q = if e.addr_lt p.addr q.addr then true else (e.addr_eq p.addr q.addr && ltb p.idx q.idx)

  pub id_eq : PeerId A → PeerId A → Bool
  id_eq p q = e.addr_eq p.addr q.addr && p.idx == q.idx
