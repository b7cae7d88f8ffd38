-- ===== src/Ballot/Majority.antt =====
-- When a ballot is granted: exactly when the peers that voted are a majority of its configuration
-- and, in joint consensus, of the old one too.
use quorumkit.Prelude.{
  ◌+◌, ◌/◌, ◌<◌, ◌≡◌, refl, ap, ◌∙◌, inl, inr, Bool, true, ◌&&◌, ◌||◌, List, [], ◌∷◌, Option, none,
  some, length, leb, pos, is_nonpos-sub_ℕ, arith, Bool-cases,
}
use quorumkit.Peer.{PeerOrder}
use quorumkit.Peer.Order.{peer_eq_refl}
use quorumkit.Configuration.Set.{member, IsDistinct}
use quorumkit.Ballot.{Ballot, PosHint, init, granted, grant_hint}
use quorumkit.Ballot.Tally.{voted, tally, votes, lacking, tally-nil, votes-nil, grant_group-tally}

module _ {P : Type 0} ⦃o : PeerOrder P⦄ where
  -- The ballot of a configuration, and an old one, after the votes `gs`, the last one first.
  abbrev pub ballot_of : List P → Option (List P) → List P → Ballot P
  ballot_of conf none gs = record {
    peers = tally gs conf;
    quorum = lacking gs conf;
    old_peers = [];
    old_quorum = pos 0;
  }
  ballot_of conf (some old_conf) gs = record {
    peers = tally gs conf;
    quorum = lacking gs conf;
    old_peers = tally gs old_conf;
    old_quorum = lacking gs old_conf;
  }

  abbrev pub Old : Option (List P) → Type 0
  Old none = Unit
  Old (some old_conf) = IsDistinct old_conf

  pub init-ballot_of :
      (conf : List P) (old_conf : Option (List P)) → init conf old_conf ≡ ballot_of conf old_conf []
  unfolding init
  init-ballot_of conf none = ground (arith, tally-nil conf, votes-nil conf)
  init-ballot_of conf (some old_conf) =
      ground (arith, tally-nil conf, votes-nil conf, tally-nil old_conf, votes-nil old_conf)

  -- One grant records one vote, whatever the hint.
  pub grant_hint-ballot_of :
      (conf : List P) (old_conf : Option (List P)) (gs : List P) (g : P) (hint : PosHint)
      → IsDistinct conf
      → Old old_conf
      → (grant_hint (ballot_of conf old_conf gs) g hint).0 ≡ ballot_of conf old_conf (g ∷ gs)
  unfolding grant_hint
  grant_hint-ballot_of conf none gs g hint d e =
      ground (arith, grant_group-tally g hint.pos0 gs conf d)
  grant_hint-ballot_of conf (some []) gs g hint d e =
      ground (arith, grant_group-tally g hint.pos0 gs conf d)
  grant_hint-ballot_of conf (some (x ∷ old_conf)) gs g hint d e = ground (
    arith,
    grant_group-tally g hint.pos0 gs conf d,
    grant_group-tally g hint.pos1 gs (x ∷ old_conf) e,
  )

  -- A majority of `conf` is among the voters.
  abbrev pub is_majority : List P → List P → Bool
  is_majority gs conf = leb (length conf / 2 + 1) (votes gs conf)

  abbrev pub is_old_majority : List P → Option (List P) → Bool
  is_old_majority gs none = true
  is_old_majority gs (some old_conf) = is_majority gs old_conf

  pub granted-ballot_of :
      (conf : List P) (old_conf : Option (List P)) (gs : List P)
      → granted (ballot_of conf old_conf gs) ≡ (is_majority gs conf && is_old_majority gs old_conf)
  unfolding granted
  granted-ballot_of conf none gs =
      ground (arith, is_nonpos-sub_ℕ (length conf / 2 + 1) (votes gs conf))
  granted-ballot_of conf (some old_conf) gs = ground (
    arith,
    is_nonpos-sub_ℕ (length conf / 2 + 1) (votes gs conf),
    is_nonpos-sub_ℕ (length old_conf / 2 + 1) (votes gs old_conf),
  )

  -- The votes that arrive one after the other, each with any hint.
  pub grant_all : Ballot P → List (P × PosHint) → Ballot P
  grant_all b [] = b
  grant_all b ((g, hint) ∷ rest) = grant_all (grant_hint b g hint).0 rest

  abbrev pub voters : List (P × PosHint) → List P
  voters [] = []
  voters ((g, hint) ∷ rest) = g ∷ voters rest

  abbrev heard : List P → List (P × PosHint) → List P
  heard gs [] = gs
  heard gs ((g, hint) ∷ rest) = heard (g ∷ gs) rest

  grant_all-ballot_of :
      (conf : List P) (old_conf : Option (List P)) (gs : List P) (rest : List (P × PosHint))
      → IsDistinct conf
      → Old old_conf
      → grant_all (ballot_of conf old_conf gs) rest ≡ ballot_of conf old_conf (heard gs rest)
  unfolding grant_all
  grant_all-ballot_of conf old_conf gs [] d e = refl
  grant_all-ballot_of conf old_conf gs ((g, hint) ∷ rest) d e =
      ap (λ b. grant_all b rest) (grant_hint-ballot_of conf old_conf gs g hint d e)
      ∙ grant_all-ballot_of conf old_conf (g ∷ gs) rest d e

  voted-heard :
      (p : P) (gs : List P) (rest : List (P × PosHint))
      → voted (heard gs rest) p ≡ (voted (voters rest) p || voted gs p)
  voted-heard p gs [] = refl
  voted-heard p gs ((g, hint) ∷ rest) = ground (arith, voted-heard p (g ∷ gs) rest)

  votes-heard :
      (conf : List P) (rest : List (P × PosHint))
      → votes (heard [] rest) conf ≡ votes (voters rest) conf
  votes-heard [] rest = refl
  votes-heard (p ∷ conf) rest = ground (arith, voted-heard p [] rest, votes-heard conf rest)

  -- After any votes, in any order, repeated or from strangers, and with any position hints, a
  -- ballot over a configuration without equal peers is granted exactly if the voters hold a
  -- majority of it and, where there is an old configuration, of the old one too.
  pub granted_iff :
      (conf : List P) (old_conf : Option (List P)) (grants : List (P × PosHint))
      → IsDistinct conf
      → Old old_conf
      → granted (grant_all (init conf old_conf) grants)
        ≡ (is_majority (voters grants) conf && is_old_majority (voters grants) old_conf)
  granted_iff conf none grants d e = ground (
    arith,
    init-ballot_of conf none,
    grant_all-ballot_of conf none [] grants d e,
    granted-ballot_of conf none (heard [] grants),
    votes-heard conf grants,
  )
  granted_iff conf (some old_conf) grants d e = ground (
    arith,
    init-ballot_of conf (some old_conf),
    grant_all-ballot_of conf (some old_conf) [] grants d e,
    granted-ballot_of conf (some old_conf) (heard [] grants),
    votes-heard conf grants,
    votes-heard old_conf grants,
  )

  pub votes_meet :
      (gs hs conf : List P)
      → length conf < votes gs conf + votes hs conf
      → (p : P) × (member p conf ≡ true) × (voted gs p ≡ true) × (voted hs p ≡ true)
  votes_meet gs hs [] h = absurd (omega arith)
  votes_meet gs hs (p ∷ conf) h = elim (Bool-cases (voted gs p && voted hs p)) [
    | inl e ↦ (p, ground (arith, peer_eq_refl p), ground arith, ground arith)
    | inr e ↦ let (q, m, a, b) = votes_meet gs hs conf (ground arith) in (q, ground arith, a, b)
  ]

  -- Two granted ballots over one configuration without equal peers, each with or without an old
  -- configuration and whatever votes it got, share a voter of that configuration.
  pub quorum_intersection :
      (conf : List P) (old_conf old_conf' : Option (List P)) (grants grants' : List (P × PosHint))
      → IsDistinct conf
      → Old old_conf
      → Old old_conf'
      → granted (grant_all (init conf old_conf) grants) ≡ true
      → granted (grant_all (init conf old_conf') grants') ≡ true
      → (p : P) × (member p conf ≡ true)
        × (voted (voters grants) p ≡ true)
        × (voted (voters grants') p ≡ true)
  quorum_intersection conf old_conf old_conf' grants grants' d e e' h h' =
      votes_meet (voters grants) (voters grants') conf (
        ground
          (arith, granted_iff conf old_conf grants d e, granted_iff conf old_conf' grants' d e'))
