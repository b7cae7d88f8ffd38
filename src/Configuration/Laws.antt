-- ===== src/Configuration/Laws.antt =====
-- What the operations of `Configuration` do to its members, its size and its order.
use quorumkit.Prelude.{suc, ◌≡◌, refl, not, ◌&&◌, ◌||◌, List, [], ◌∷◌, if◌then◌else◌, length, arith}
use quorumkit.Peer.{PeerOrder}
use quorumkit.Configuration.{
  insert_all, of_vector, add_peer, remove_peer, contains, erase_all, diffs,
}
use quorumkit.Configuration.Set.{
  find, insert, erase, member, IsSorted, find-member, insert-IsSorted, erase-IsSorted,
  member-insert, member-erase,
}

module _ {P : Type 0} ⦃o : PeerOrder P⦄ where
  find-insert :
      (q p : P) (xs : List P) → IsSorted xs → find q (insert p xs) ≡ (o.peer_eq p q || find q xs)
  find-insert q p xs s = ground (
    arith,
    find-member q (insert p xs) (insert-IsSorted p xs s),
    find-member q xs s,
    member-insert q p xs,
  )

  pub find-erase :
      (q p : P) (xs : List P)
      → IsSorted xs
      → find q (erase p xs) ≡ (not (o.peer_eq p q) && find q xs)
  find-erase q p xs s = ground (
    arith,
    find-member q (erase p xs) (erase-IsSorted p xs s),
    find-member q xs s,
    member-erase q p xs s,
  )

  length-insert :
      (p : P) (xs : List P)
      → length (insert p xs) ≡ (if find p xs then length xs else suc (length xs))
  unfolding insert find
  length-insert p [] = refl
  length-insert p (x ∷ xs) = ground (arith, length-insert p xs)

  pub length-erase :
      (p : P) (xs : List P)
      → length xs ≡ (if find p xs then suc (length (erase p xs)) else length (erase p xs))
  unfolding erase find
  length-erase p [] = refl
  length-erase p (x ∷ xs) = ground (arith, length-erase p xs)

  -- On a set in order `add_peer` adds exactly the peer: the set stays in order, its members are
  -- the old ones and that peer, its size grows exactly if the call answers true, and that is if
  -- the peer was not there.
  pub add_peer_lem :
      (xs : List P) (p q : P)
      → IsSorted xs
      → IsSorted (add_peer xs p).0
        × (contains (add_peer xs p).0 q ≡ (o.peer_eq p q || contains xs q))
        × ((add_peer xs p).1 ≡ not (contains xs p))
        × (length (add_peer xs p).0 ≡ (if (add_peer xs p).1 then suc (length xs) else length xs))
  unfolding add_peer contains
  add_peer_lem xs p q s =
      (insert-IsSorted p xs s, find-insert q p xs s, refl, ground (arith, length-insert p xs))

  -- On a set in order `remove_peer` removes exactly the peer: the set stays in order, its members
  -- are the old ones but that peer, and its size falls exactly if the call answers true.
  pub remove_peer_lem :
      (xs : List P) (p q : P)
      → IsSorted xs
      → IsSorted (remove_peer xs p).0
        × (contains (remove_peer xs p).0 q ≡ (not (o.peer_eq p q) && contains xs q))
        × (length xs ≡ (
            if (remove_peer xs p).1
            then suc (length (remove_peer xs p).0)
            else length (remove_peer xs p).0))
  unfolding remove_peer contains
  remove_peer_lem xs p q s = (erase-IsSorted p xs s, find-erase q p xs s, length-erase p xs)

  pub insert_all-IsSorted : (xs ps : List P) → IsSorted xs → IsSorted (insert_all xs ps)
  unfolding insert_all
  insert_all-IsSorted xs [] s = s
  insert_all-IsSorted xs (p ∷ ps) s = insert_all-IsSorted (insert p xs) ps (insert-IsSorted p xs s)

  pub of_vector-IsSorted : (ps : List P) → IsSorted (of_vector ps)
  unfolding of_vector
  of_vector-IsSorted ps = insert_all-IsSorted [] ps tt

  pub member-insert_all :
      (q : P) (xs ps : List P) → member q (insert_all xs ps) ≡ (member q ps || member q xs)
  unfolding insert_all
  member-insert_all q xs [] = refl
  member-insert_all q xs (p ∷ ps) =
      ground (arith, member-insert_all q (insert p xs) ps, member-insert q p xs)

  erase_all-IsSorted : (xs ps : List P) → IsSorted xs → IsSorted (erase_all xs ps)
  unfolding erase_all
  erase_all-IsSorted xs [] s = s
  erase_all-IsSorted xs (p ∷ ps) s = erase_all-IsSorted (erase p xs) ps (erase-IsSorted p xs s)

  member-erase_all :
      (q : P) (xs ps : List P)
      → IsSorted xs
      → member q (erase_all xs ps) ≡ (member q xs && not (member q ps))
  unfolding erase_all
  member-erase_all q xs [] s = ground arith
  member-erase_all q xs (p ∷ ps) s =
      ground
        (arith, member-erase_all q (erase p xs) ps (erase-IsSorted p xs s), member-erase q p xs s)

  -- `diffs` of two sets in order is the two set differences: a peer is in `included` exactly if
  -- it is in `*this` and not in `rhs`, in `excluded` exactly if it is in `rhs` and not in
  -- `*this`.
  pub diffs_lem :
      (xs rhs : List P) (q : P)
      → IsSorted xs
      → IsSorted rhs
      → (contains (diffs xs rhs).0 q ≡ (contains xs q && not (contains rhs q)))
        × (contains (diffs xs rhs).1 q ≡ (contains rhs q && not (contains xs q)))
  unfolding diffs contains
  diffs_lem xs rhs q s t = (
    ground (
      arith,
      find-member q (erase_all xs rhs) (erase_all-IsSorted xs rhs s),
      find-member q xs s,
      find-member q rhs t,
      member-erase_all q xs rhs s,
    ),
    ground (
      arith,
      find-member q (erase_all rhs xs) (erase_all-IsSorted rhs xs t),
      find-member q xs s,
      find-member q rhs t,
      member-erase_all q rhs xs t,
    ),
  )

  pub diffs-IsSorted :
      (xs rhs : List P)
      → IsSorted xs
      → IsSorted rhs
      → IsSorted (diffs xs rhs).0 × IsSorted (diffs xs rhs).1
  unfolding diffs
  diffs-IsSorted xs rhs s t = (erase_all-IsSorted xs rhs s, erase_all-IsSorted rhs xs t)
