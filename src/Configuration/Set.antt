-- ===== src/Configuration/Set.antt =====
-- `std::set<PeerId>` as the list of its elements in order.
use quorumkit.Prelude.{
  ◌≡◌, refl, inl, inr, Bool, true, false, not, ◌&&◌, ◌||◌, List, [], ◌∷◌, if◌then◌else◌, arith,
  Bool-cases,
}
use quorumkit.Peer.{PeerOrder}
use quorumkit.Peer.Order.{peer_eq_sym, eq_of_eq_left, peer_lt_asymm}

module _ {P : Type 0} ⦃o : PeerOrder P⦄ where
  unfoldable pub find : P → List P → Bool
  find p [] = false
  find p (x ∷ xs) = if o.peer_lt x p then find p xs else not (o.peer_lt p x)

  -- An element that is there already is kept.
  unfoldable pub insert : P → List P → List P
  insert p [] = p ∷ []
  insert p (x ∷ xs) =
      if o.peer_lt x p then x ∷ insert p xs else if o.peer_lt p x then p ∷ x ∷ xs else x ∷ xs

  unfoldable pub erase : P → List P → List P
  erase p [] = []
  erase p (x ∷ xs) = if o.peer_lt x p then x ∷ erase p xs else if o.peer_lt p x then x ∷ xs else xs

  -- Membership up to `operator==`, by a plain scan.
  abbrev pub member : P → List P → Bool
  member p [] = false
  member p (x ∷ xs) = o.peer_eq x p || member p xs

  abbrev pub Above : P → List P → Type 0
  Above p [] = Unit
  Above p (x ∷ xs) = (o.peer_lt p x ≡ true) × Above p xs

  -- The elements rise strictly.
  abbrev pub IsSorted : List P → Type 0
  IsSorted [] = Unit
  IsSorted (x ∷ xs) = Above x xs × IsSorted xs

  -- No two elements are equal.
  abbrev pub Apart : P → List P → Type 0
  Apart p [] = Unit
  Apart p (x ∷ xs) = (o.peer_eq x p ≡ false) × Apart p xs

  abbrev pub IsDistinct : List P → Type 0
  IsDistinct [] = Unit
  IsDistinct (x ∷ xs) = Apart x xs × IsDistinct xs

  pub Above-trans : (p q : P) (xs : List P) → o.peer_lt p q ≡ true → Above q xs → Above p xs
  Above-trans p q [] h a = tt
  Above-trans p q (x ∷ xs) h a = (o.lt_trans p q x h a.0, Above-trans p q xs h a.1)

  pub Above-Apart : (p : P) (xs : List P) → Above p xs → Apart p xs
  Above-Apart p [] a = tt
  Above-Apart p (x ∷ xs) a = (ground (arith, o.eq_lt x p), Above-Apart p xs a.1)

  pub Apart-member : (p : P) (xs : List P) → Apart p xs → member p xs ≡ false
  Apart-member p [] a = refl
  Apart-member p (x ∷ xs) a = ground (arith, Apart-member p xs a.1)

  pub IsSorted-IsDistinct : (xs : List P) → IsSorted xs → IsDistinct xs
  IsSorted-IsDistinct [] s = tt
  IsSorted-IsDistinct (x ∷ xs) s = (Above-Apart x xs s.0, IsSorted-IsDistinct xs s.1)

  pub member-Above : (p : P) (xs : List P) → Above p xs → member p xs ≡ false
  member-Above p xs a = Apart-member p xs (Above-Apart p xs a)

  pub member-eq : (p q : P) (xs : List P) → o.peer_eq p q ≡ true → member p xs ≡ member q xs
  member-eq p q [] h = refl
  member-eq p q (x ∷ xs) h =
      ground (arith, member-eq p q xs h, peer_eq_sym x p, peer_eq_sym x q, eq_of_eq_left p q x h)

  -- `find` stops early, and still answers membership.
  pub find-member : (p : P) (xs : List P) → IsSorted xs → find p xs ≡ member p xs
  unfolding find
  find-member p [] s = refl
  find-member p (x ∷ xs) s = elim (Bool-cases (o.peer_lt p x)) [
    | inl h ↦
        ground
          (arith, o.eq_lt x p, peer_lt_asymm p x h, member-Above p xs (Above-trans p x xs h s.0))
    | inr h ↦ ground (arith, find-member p xs s.1, o.eq_lt x p)
  ]

  insert-Above : (q p : P) (xs : List P) → o.peer_lt q p ≡ true → Above q xs → Above q (insert p xs)
  unfolding insert
  insert-Above q p [] h a = (h, tt)
  insert-Above q p (x ∷ xs) h a = ground (arith, insert-Above q p xs h a.1)

  pub insert-IsSorted : (p : P) (xs : List P) → IsSorted xs → IsSorted (insert p xs)
  unfolding insert
  insert-IsSorted p [] s = (tt, tt)
  insert-IsSorted p (x ∷ xs) s =
      ground (arith, insert-IsSorted p xs s.1, insert-Above x p xs, Above-trans p x xs)

  erase-Above : (q p : P) (xs : List P) → Above q xs → Above q (erase p xs)
  unfolding erase
  erase-Above q p [] a = tt
  erase-Above q p (x ∷ xs) a = ground (arith, erase-Above q p xs a.1)

  pub erase-IsSorted : (p : P) (xs : List P) → IsSorted xs → IsSorted (erase p xs)
  unfolding erase
  erase-IsSorted p [] s = tt
  erase-IsSorted p (x ∷ xs) s = ground (arith, erase-IsSorted p xs s.1, erase-Above x p xs s.0)

  pub member-insert :
      (q p : P) (xs : List P) → member q (insert p xs) ≡ (o.peer_eq p q || member q xs)
  unfolding insert
  member-insert q p [] = refl
  member-insert q p (x ∷ xs) =
      ground (arith, member-insert q p xs, o.eq_lt x p, eq_of_eq_left x p q)

  pub member-erase :
      (q p : P) (xs : List P)
      → IsSorted xs
      → member q (erase p xs) ≡ (not (o.peer_eq p q) && member q xs)
  unfolding erase
  member-erase q p [] s = ground arith
  member-erase q p (x ∷ xs) s = ground (
    arith,
    member-erase q p xs s.1,
    o.eq_lt x p,
    o.eq_lt p q,
    o.eq_lt x q,
    eq_of_eq_left x p q,
    member-eq x q xs,
    member-Above x xs s.0,
    peer_eq_sym x q,
    o.lt_trans x p q,
    Above-trans p x xs,
    member-Above p xs,
    member-eq p q xs,
    eq_of_eq_left p q x,
    peer_eq_sym x p,
    peer_eq_sym p q,
  )
