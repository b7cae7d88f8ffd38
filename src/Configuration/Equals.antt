-- ===== src/Configuration/Equals.antt =====
-- `Configuration::equals` decides that two sets have the same members.
use quorumkit.Prelude.{◌≤◌, ◌≡◌, refl, ◌↔◌, true, List, [], ◌∷◌, length, arith}
use quorumkit.Peer.{PeerOrder}
use quorumkit.Peer.Order.{peer_eq_refl, peer_eq_sym}
use quorumkit.Configuration.{contains, contains_all, equals}
use quorumkit.Configuration.Set.{
  erase, member, Apart, IsSorted, IsDistinct, find-member, erase-IsSorted, member-erase, member-eq,
  IsSorted-IsDistinct,
}
use quorumkit.Configuration.Laws.{find-erase, length-erase}

module _ {P : Type 0} ⦃o : PeerOrder P⦄ where
  contains_all-erase :
      (x : P) (rhs xs : List P)
      → IsSorted rhs
      → Apart x xs
      → contains_all rhs xs ≡ true
      → contains_all (erase x rhs) xs ≡ true
  unfolding contains_all
  contains_all-erase x rhs [] s a h = refl
  contains_all-erase x rhs (y ∷ ys) s a h =
      ground (arith, contains_all-erase x rhs ys s a.1, find-erase y x rhs s, peer_eq_sym x y)

  length-le_of_contains_all :
      (xs rhs : List P)
      → IsDistinct xs
      → IsSorted rhs
      → contains_all rhs xs ≡ true
      → length xs ≤ length rhs
  unfolding contains_all
  length-le_of_contains_all [] rhs d s h = omega arith
  length-le_of_contains_all (x ∷ xs) rhs d s h = ground (
    arith,
    length-erase x rhs,
    contains_all-erase x rhs xs s d.0,
    length-le_of_contains_all xs (erase x rhs) d.1 (erase-IsSorted x rhs s),
  )

  -- A subset that is as large is all of it.
  member_of_full :
      (q : P) (xs rhs : List P)
      → IsDistinct xs
      → IsSorted rhs
      → contains_all rhs xs ≡ true
      → length xs ≡ length rhs
      → member q rhs ≡ true
      → member q xs ≡ true
  unfolding contains_all
  member_of_full q [] (y ∷ ys) d s h e m = absurd (omega arith)
  member_of_full q [] [] d s h e m = m
  member_of_full q (x ∷ xs) rhs d s h e m = ground (
    arith,
    length-erase x rhs,
    contains_all-erase x rhs xs s d.0,
    member-erase q x rhs s,
    member_of_full q xs (erase x rhs) d.1 (erase-IsSorted x rhs s),
  )

  member_of_contains_all :
      (q : P) (xs rhs : List P)
      → IsSorted rhs
      → contains_all rhs xs ≡ true
      → member q xs ≡ true
      → member q rhs ≡ true
  unfolding contains_all
  member_of_contains_all q [] rhs s h m = cc
  member_of_contains_all q (x ∷ xs) rhs s h m =
      ground (arith, member_of_contains_all q xs rhs s, find-member x rhs s, member-eq x q rhs)

  contains_all_of_member :
      (xs rhs : List P)
      → IsSorted rhs
      → ((q : P) → member q xs ≡ true → member q rhs ≡ true)
      → contains_all rhs xs ≡ true
  unfolding contains_all
  contains_all_of_member [] rhs s h = refl
  contains_all_of_member (x ∷ xs) rhs s h = ground (
    arith,
    h x,
    peer_eq_refl x,
    find-member x rhs s,
    contains_all_of_member xs rhs s (λ q m. h q (ground arith)),
  )

  equals_sound :
      (xs rhs : List P) (q : P)
      → IsSorted xs
      → IsSorted rhs
      → equals xs rhs ≡ true
      → contains xs q ≡ contains rhs q
  unfolding equals contains
  equals_sound xs rhs q s t h = ground (
    arith,
    find-member q xs s,
    find-member q rhs t,
    member_of_full q xs rhs (IsSorted-IsDistinct xs s) t,
    member_of_contains_all q xs rhs t,
  )

  equals_complete :
      (xs rhs : List P)
      → IsSorted xs
      → IsSorted rhs
      → ((q : P) → contains xs q ≡ contains rhs q)
      → equals xs rhs ≡ true
  unfolding equals contains
  equals_complete xs rhs s t h = ground (
    arith,
    all_in,
    all_back,
    length-le_of_contains_all xs rhs (IsSorted-IsDistinct xs s) t,
    length-le_of_contains_all rhs xs (IsSorted-IsDistinct rhs t) s,
  )
    where
      all_in : contains_all rhs xs ≡ true
      all_in =
          contains_all_of_member xs rhs t
            λ q m. ground (arith, h q, find-member q xs s, find-member q rhs t)

      all_back : contains_all xs rhs ≡ true
      all_back =
          contains_all_of_member rhs xs s
            λ q m. ground (arith, h q, find-member q xs s, find-member q rhs t)

  -- For two sets in order, `equals` answers true exactly if they have the same members.
  pub equals_iff :
      (xs rhs : List P)
      → IsSorted xs
      → IsSorted rhs
      → (equals xs rhs ≡ true) ↔ ((q : P) → contains xs q ≡ contains rhs q)
  equals_iff xs rhs s t = ((λ h q. equals_sound xs rhs q s t h), λ h. equals_complete xs rhs s t h)
