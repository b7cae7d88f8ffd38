-- ===== src/Peer/Order.antt =====
-- `operator<` of `PeerId` is a strict weak order and `operator==` is its equivalence: the instance
-- of `PeerOrder` for `PeerId`, and the laws that the components use of any instance.
use quorumkit.Prelude.{◌≡◌, ◌⊎◌, true, false, not, ◌&&◌, arith}
use quorumkit.Peer.{PeerOrder, EndPoint, PeerId, reset, id_is_empty, id_lt, id_eq}

module _ {A : Type 0} ⦃e : EndPoint A⦄ where
  pub id_eq_lt : (p q : PeerId A) → id_eq p q ≡ (not (id_lt p q) && not (id_lt q p))
  unfolding id_eq id_lt
  id_eq_lt p q = ground (
    arith,
    e.addr_total p.addr q.addr,
    e.addr_eq_iff p.addr q.addr,
    e.addr_eq_iff q.addr p.addr,
    e.addr_irrefl p.addr,
    e.addr_trans p.addr q.addr p.addr,
  )

  pub id_lt_irrefl : (p : PeerId A) → id_lt p p ≡ false
  unfolding id_lt
  id_lt_irrefl p = ground (arith, e.addr_irrefl p.addr)

  pub id_lt_trans : (p q r : PeerId A) → id_lt p q ≡ true → id_lt q r ≡ true → id_lt p r ≡ true
  unfolding id_lt
  id_lt_trans p q r h k = ground (
    arith,
    e.addr_trans p.addr q.addr r.addr,
    e.addr_eq_iff p.addr q.addr,
    e.addr_eq_iff q.addr r.addr,
    e.addr_eq_iff p.addr r.addr,
  )

  pub id_lt_split : (p q r : PeerId A) → id_lt p q ≡ true → (id_lt p r ≡ true) ⊎ (id_lt r q ≡ true)
  unfolding id_lt
  id_lt_split p q r h = ground (
    arith,
    e.addr_trans p.addr q.addr r.addr,
    e.addr_trans r.addr p.addr q.addr,
    e.addr_total p.addr r.addr,
    e.addr_total r.addr q.addr,
    e.addr_eq_iff p.addr q.addr,
    e.addr_eq_iff p.addr r.addr,
    e.addr_eq_iff r.addr q.addr,
  )

  pub id_is_empty_eq : (p : PeerId A) → id_is_empty p ≡ id_eq p reset
  unfolding id_is_empty id_eq reset
  id_is_empty_eq p = ground arith

  instance abbrev pub peer_id_order : PeerOrder (PeerId A)
  peer_id_order = record {
    peer_eq = id_eq;
    peer_lt = id_lt;
    empty_peer = reset;
    is_empty = id_is_empty;
    eq_lt = id_eq_lt;
    lt_irrefl = id_lt_irrefl;
    lt_trans = id_lt_trans;
    lt_split = id_lt_split;
    is_empty_eq = id_is_empty_eq;
  }

module _ {P : Type 0} ⦃o : PeerOrder P⦄ where
  pub peer_eq_refl : (a : P) → o.peer_eq a a ≡ true
  peer_eq_refl a = ground (arith, o.eq_lt a a, o.lt_irrefl a)

  pub peer_eq_sym : (a b : P) → o.peer_eq a b ≡ o.peer_eq b a
  peer_eq_sym a b = ground (arith, o.eq_lt a b, o.eq_lt b a)

  -- Equal peers are told apart by no comparison.
  pub lt_of_eq_left : (a b c : P) → o.peer_eq a b ≡ true → o.peer_lt a c ≡ o.peer_lt b c
  lt_of_eq_left a b c h = ground (arith, o.eq_lt a b, o.lt_split a c b, o.lt_split b c a)

  pub lt_of_eq_right : (a b c : P) → o.peer_eq a b ≡ true → o.peer_lt c a ≡ o.peer_lt c b
  lt_of_eq_right a b c h = ground (arith, o.eq_lt a b, o.lt_split c a b, o.lt_split c b a)

  pub eq_of_eq_left : (a b c : P) → o.peer_eq a b ≡ true → o.peer_eq a c ≡ o.peer_eq b c
  eq_of_eq_left a b c h =
      ground (arith, o.eq_lt a c, o.eq_lt b c, lt_of_eq_left a b c h, lt_of_eq_right a b c h)

  pub peer_lt_asymm : (a b : P) → o.peer_lt a b ≡ true → o.peer_lt b a ≡ false
  peer_lt_asymm a b h = ground (arith, o.lt_trans a b a, o.lt_irrefl a)
