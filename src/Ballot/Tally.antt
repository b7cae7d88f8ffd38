-- ===== src/Ballot/Tally.antt =====
-- The two lists of a ballot as a tally: which members of the configuration some vote names, and how
-- far they are from a majority.
use quorumkit.Prelude.{
  ℕ, zero, suc, ◌+◌, ◌/◌, ◌≡◌, refl, sym, ap, ◌∙◌, inl, inr, Bool, true, false, List, [], ◌∷◌, map,
  Option, none, some, if◌then◌else◌, length, get_elem?, ℤ, pos, negsuc, sub_ℕ, dec-sub_ℕ, arith,
  Bool-cases,
}
use quorumkit.Peer.{PeerOrder}
use quorumkit.Peer.Order.{peer_eq_sym, eq_of_eq_left}
use quorumkit.Configuration.Set.{member, Apart, IsDistinct}
use quorumkit.Ballot.{
  UnfoundPeerId, unfound, found_at, set_found, bump, scan, hinted, find_peer, grant_at, grant_group,
}

module _ {P : Type 0} ⦃o : PeerOrder P⦄ where
  -- Some vote of `gs` names `p`.
  abbrev pub voted : List P → P → Bool
  voted gs p = member p gs

  abbrev pub tally : List P → List P → List (UnfoundPeerId P)
  tally gs [] = []
  tally gs (p ∷ conf) = record { peer_id = p; found = voted gs p } ∷ tally gs conf

  -- How many members of the configuration have voted.
  abbrev pub votes : List P → List P → ℕ
  votes gs [] = 0
  votes gs (p ∷ conf) = if voted gs p then suc (votes gs conf) else votes gs conf

  pub tally-nil : (conf : List P) → map unfound conf ≡ tally [] conf
  tally-nil [] = refl
  tally-nil (p ∷ conf) = ap (◌∷◌ (unfound p)) (tally-nil conf)

  pub votes-nil : (conf : List P) → votes [] conf ≡ 0
  votes-nil [] = refl
  votes-nil (p ∷ conf) = votes-nil conf

  tally-absent : (g : P) (gs conf : List P) → Apart g conf → tally (g ∷ gs) conf ≡ tally gs conf
  tally-absent g gs [] a = refl
  tally-absent g gs (p ∷ conf) a = ground (arith, peer_eq_sym g p, tally-absent g gs conf a.1)

  votes-absent : (g : P) (gs conf : List P) → Apart g conf → votes (g ∷ gs) conf ≡ votes gs conf
  votes-absent g gs [] a = refl
  votes-absent g gs (p ∷ conf) a = ground (arith, peer_eq_sym g p, votes-absent g gs conf a.1)

  Apart-eq : (p g : P) (conf : List P) → o.peer_eq p g ≡ true → Apart p conf → Apart g conf
  Apart-eq p g [] h a = tt
  Apart-eq p g (x ∷ conf) h a = (
    ground (arith, peer_eq_sym x p, peer_eq_sym x g, eq_of_eq_left p g x h),
    Apart-eq p g conf h a.1,
  )

  -- Recording a vote for the member that the scan finds.
  abbrev Scanned : P → List P → List P → Option ℕ → Type 0
  Scanned g gs conf none =
      (tally (g ∷ gs) conf ≡ tally gs conf) × (votes (g ∷ gs) conf ≡ votes gs conf)
  Scanned g gs conf (some i) =
      (set_found (tally gs conf) i ≡ tally (g ∷ gs) conf)
      × (votes (g ∷ gs) conf
          ≡ (if found_at (tally gs conf) i then votes gs conf else suc (votes gs conf)))

  Scanned-here :
      (g : P) (gs : List P) (p : P) (conf : List P)
      → o.peer_eq p g ≡ true
      → Apart p conf
      → Scanned g gs (p ∷ conf) (some zero)
  unfolding set_found found_at
  Scanned-here g gs p conf h a = (
    ground (arith, peer_eq_sym p g, tally-absent g gs conf (Apart-eq p g conf h a)),
    ground (arith, peer_eq_sym p g, votes-absent g gs conf (Apart-eq p g conf h a)),
  )

  Scanned-there :
      (g : P) (gs : List P) (p : P) (conf : List P) (r : Option ℕ)
      → o.peer_eq p g ≡ false
      → Scanned g gs conf r
      → Scanned g gs (p ∷ conf) (bump r)
  unfolding set_found found_at
  Scanned-there g gs p conf none h s =
      (ground (arith, peer_eq_sym p g), ground (arith, peer_eq_sym p g))
  Scanned-there g gs p conf (some i) h s =
      (ground (arith, peer_eq_sym p g), ground (arith, peer_eq_sym p g))

  pub scan-Scanned :
      (g : P) (gs conf : List P) → IsDistinct conf → Scanned g gs conf (scan g (tally gs conf))
  unfolding scan
  scan-Scanned g gs [] d = (refl, refl)
  scan-Scanned g gs (p ∷ conf) d = elim (Bool-cases (o.peer_eq p g)) [
    | inl e ↦ rw (e, scan) (Scanned-here g gs p conf e d.0)
    | inr e ↦ rw (e, scan) (Scanned-there g gs p conf _ e (scan-Scanned g gs conf d.1))
  ]

  -- A peer that the list has at the hinted position is the one that a scan finds.
  scan-Apart :
      (g p : P) (gs conf : List P) (i : ℕ)
      → Apart p conf
      → o.peer_eq p g ≡ true
      → hinted g (get_elem? (tally gs conf) i) ≡ false
  unfolding hinted
  scan-Apart g p gs [] i a e = refl
  scan-Apart g p gs (x ∷ conf) zero a e =
      ground (arith, peer_eq_sym x p, peer_eq_sym x g, eq_of_eq_left p g x e)
  scan-Apart g p gs (x ∷ conf) (suc i) a e = scan-Apart g p gs conf i a.1 e

  scan-hinted :
      (g : P) (gs conf : List P) (i : ℕ)
      → IsDistinct conf
      → hinted g (get_elem? (tally gs conf) i) ≡ true
      → scan g (tally gs conf) ≡ some i
  unfolding scan hinted
  scan-hinted g gs [] i d h = cc
  scan-hinted g gs (p ∷ conf) zero d h = rw h
  scan-hinted g gs (p ∷ conf) (suc i) d h =
      ground (arith, scan-hinted g gs conf i d.1, scan-Apart g p gs conf i d.0)

  -- The hint saves the scan and changes nothing.
  pub find_peer-eq-scan :
      (g : P) (gs conf : List P) (hint : ℤ)
      → IsDistinct conf
      → find_peer g (tally gs conf) hint ≡ scan g (tally gs conf)
  unfolding find_peer
  find_peer-eq-scan g gs conf (negsuc n) d = refl
  find_peer-eq-scan g gs conf (pos i) d = ground (arith, scan-hinted g gs conf i d)

  -- How far a group is from its majority.
  abbrev pub lacking : List P → List P → ℤ
  lacking gs conf = sub_ℕ (length conf / 2 + 1) (votes gs conf)

  set_found_self :
      (us : List (UnfoundPeerId P)) (i : ℕ) → found_at us i ≡ true → set_found us i ≡ us
  unfolding set_found found_at
  set_found_self [] i e = refl
  set_found_self (u ∷ us) zero e = ground arith
  set_found_self (u ∷ us) (suc i) e = ap (◌∷◌ u) (set_found_self us i e)

  grant_at-tally :
      (g : P) (gs conf : List P) (r : Option ℕ)
      → Scanned g gs conf r
      → ((grant_at (tally gs conf) (lacking gs conf) r).0 ≡ tally (g ∷ gs) conf)
        × ((grant_at (tally gs conf) (lacking gs conf) r).1 ≡ lacking (g ∷ gs) conf)
  unfolding grant_at
  grant_at-tally g gs conf none s = (sym s.0, ap (sub_ℕ (length conf / 2 + 1)) (sym s.1))
  grant_at-tally g gs conf (some i) s = elim (Bool-cases (found_at (tally gs conf) i)) [
    | inl e ↦
        rw (e, grant_at)
          (
            sym (set_found_self (tally gs conf) i e) ∙ s.0,
            sym (ap (sub_ℕ (length conf / 2 + 1)) (rw e at (s.1))),
          )
    | inr e ↦
        rw (e, grant_at)
          (s.0, ground (arith, rw e at (s.1), dec-sub_ℕ (length conf / 2 + 1) (votes gs conf)))
  ]

  -- One group takes one vote.
  pub grant_group-tally :
      (g : P) (hint : ℤ) (gs conf : List P)
      → IsDistinct conf
      → ((grant_group g hint (tally gs conf) (lacking gs conf)).0 ≡ tally (g ∷ gs) conf)
        × ((grant_group g hint (tally gs conf) (lacking gs conf)).1 ≡ lacking (g ∷ gs) conf)
  unfolding grant_group
  grant_group-tally g hint gs conf d =
      rw (find_peer-eq-scan g gs conf hint d)
        (grant_at-tally g gs conf _ (scan-Scanned g gs conf d))
