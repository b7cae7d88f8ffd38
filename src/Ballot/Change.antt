-- ===== src/Ballot/Change.antt =====
-- Quorums before and after a change of the configuration.
use quorumkit.Prelude.{
  ◌+◌, ◌≤◌, ◌≡◌, Bool, true, false, List, [], ◌∷◌, none, some, if◌then◌else◌, length, arith,
}
use quorumkit.Peer.{PeerOrder}
use quorumkit.Configuration.{add_peer, remove_peer}
use quorumkit.Configuration.Set.{
  insert, erase, member, IsSorted, IsDistinct, IsSorted-IsDistinct, insert-IsSorted, erase-IsSorted,
}
use quorumkit.Ballot.{PosHint, init, granted}
use quorumkit.Ballot.Tally.{voted, votes}
use quorumkit.Ballot.Majority.{grant_all, voters, granted_iff, votes_meet}

module _ {P : Type 0} ⦃o : PeerOrder P⦄ where
  length-insert : (p : P) (xs : List P) → length (insert p xs) ≤ length xs + 1
  unfolding insert
  length-insert p [] = omega arith
  length-insert p (x ∷ xs) = ground (arith, length-insert p xs)

  votes-insert : (gs : List P) (p : P) (xs : List P) → votes gs xs ≤ votes gs (insert p xs)
  unfolding insert
  votes-insert gs p [] = omega arith
  votes-insert gs p (x ∷ xs) = ground (arith, votes-insert gs p xs)

  length-erase_le : (p : P) (xs : List P) → length xs ≤ length (erase p xs) + 1
  unfolding erase
  length-erase_le p [] = omega arith
  length-erase_le p (x ∷ xs) = ground (arith, length-erase_le p xs)

  votes-erase : (gs : List P) (p : P) (xs : List P) → votes gs (erase p xs) ≤ votes gs xs
  unfolding erase
  votes-erase gs p [] = omega arith
  votes-erase gs p (x ∷ xs) = ground (arith, votes-erase gs p xs)

  -- A one-stage change: a peer is added, or one is removed.
  abbrev pub changed : Bool → List P → P → List P
  changed adding peers p = if adding then (add_peer peers p).0 else (remove_peer peers p).0

  -- A granted ballot over a configuration and one over the configuration with one peer more or less,
  -- both without an old configuration and whatever votes they got, share a voter: a change of one
  -- peer needs no joint stage.
  pub one_change_intersection :
      (adding : Bool) (peers : List P) (p : P) (grants grants' : List (P × PosHint))
      → IsSorted peers
      → granted (grant_all (init peers none) grants) ≡ true
      → granted (grant_all (init (changed adding peers p) none) grants') ≡ true
      → (q : P) × (voted (voters grants) q ≡ true) × (voted (voters grants') q ≡ true)
  unfolding add_peer remove_peer
  one_change_intersection true peers p grants grants' s h h' =
      let gs = voters grants in
      let hs = voters grants' in
      let bigger = insert p peers in
      let meet = votes_meet gs hs bigger (
        ground (
          arith,
          granted_iff peers none grants (IsSorted-IsDistinct peers s) tt,
          granted_iff bigger none grants' (IsSorted-IsDistinct bigger (insert-IsSorted p peers s))
              tt,
          length-insert p peers,
          votes-insert gs p peers,
        )) in
      (meet.0, meet.2, meet.3)
  one_change_intersection false peers p grants grants' s h h' =
      let gs = voters grants in
      let hs = voters grants' in
      let smaller = erase p peers in
      let meet = votes_meet gs hs peers (
        ground (
          arith,
          granted_iff peers none grants (IsSorted-IsDistinct peers s) tt,
          granted_iff smaller none grants' (IsSorted-IsDistinct smaller (erase-IsSorted p peers s))
              tt,
          length-erase_le p peers,
          votes-erase hs p peers,
        )) in
      (meet.0, meet.2, meet.3)

  -- A granted ballot of a joint stage shares a voter of the old configuration with any granted ballot
  -- over the old configuration, and a voter of the new one with any over the new.
  pub joint_intersection :
      (conf old_conf : List P) (grants before after : List (P × PosHint))
      → IsDistinct conf
      → IsDistinct old_conf
      → granted (grant_all (init conf (some old_conf)) grants) ≡ true
      → granted (grant_all (init old_conf none) before) ≡ true
      → granted (grant_all (init conf none) after) ≡ true
      → ((p : P) × (member p old_conf ≡ true)
          × (voted (voters grants) p ≡ true)
          × (voted (voters before) p ≡ true))
        × ((p : P) × (member p conf ≡ true)
            × (voted (voters grants) p ≡ true)
            × (voted (voters after) p ≡ true))
  joint_intersection conf old_conf grants before after d e h b a =
      let all = granted_iff conf (some old_conf) grants d e in
      (
        votes_meet (voters grants) (voters before) old_conf
            (ground (arith, all, granted_iff old_conf none before e tt)),
        votes_meet (voters grants) (voters after) conf
            (ground (arith, all, granted_iff conf none after d tt)),
      )
