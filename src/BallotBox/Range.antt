-- ===== src/BallotBox/Range.antt =====
-- The loop of `commit_at`: the ballots follow the acknowledgements, and the index that it answers is
-- the greatest one whose entry has a quorum.
use quorumkit.Prelude.{
  ℕ, zero, suc, ◌+◌, ◌≤◌, ◌<◌, ◌≡◌, refl, ap, ◌∙◌, ◌⊎◌, inl, inr, true, List, [], ◌∷◌, map, some,
  if◌then◌else◌, get_elem?, arith, Bool-cases,
}
use quorumkit.Peer.{PeerOrder}
use quorumkit.Ballot.{PosHint, granted, grant_hint}
use quorumkit.BallotBox.{grant_range}
use quorumkit.BallotBox.Entry.{
  Entry, ballot, vote, has_quorum, IsProper, AllProper, grant_hint-ballot, granted-ballot,
  vote_range,
}

module _ {P : Type 0} ⦃o : PeerOrder P⦄ where
  pub grant_range-ballots :
      (peer : P) (skip count index : ℕ) (hint : PosHint) (c : ℕ) (es : List (Entry P))
      → AllProper es
      → (grant_range peer skip count index hint c (map ballot es)).0
        ≡ map ballot (vote_range peer skip count es)
  unfolding grant_range
  grant_range-ballots peer skip count index hint c [] p = refl
  grant_range-ballots peer (suc skip) count index hint c (e ∷ es) p =
      ap (◌∷◌ (ballot e)) (grant_range-ballots peer skip count index hint c es p.1)
  grant_range-ballots peer zero zero index hint c (e ∷ es) p = refl
  grant_range-ballots peer zero (suc count) index hint c (e ∷ es) p = ground (
    arith,
    grant_hint-ballot e peer hint p.0,
    grant_range-ballots peer zero count (index + 1) (grant_hint (ballot e) peer hint).1
        (if granted (grant_hint (ballot e) peer hint).0 then index else c) es p.1,
  )

  -- An answer is the index before the loop, or one of the range whose entry has a quorum. The
  -- entry of index `index` stands at `skip`.
  abbrev pub Answer : P → ℕ → ℕ → ℕ → ℕ → List (Entry P) → ℕ → Type 0
  Answer peer skip count index c es r =
      (r ≡ c)
      ⊎ ((j : ℕ) × (e : Entry P) × (skip ≤ j)
          × (j < skip + count)
          × (r + skip ≡ index + j)
          × (get_elem? es j ≡ some e)
          × (has_quorum (vote peer e) ≡ true))

  Answer-skip :
      (peer : P) (skip count index c r : ℕ) (e : Entry P) (es : List (Entry P))
      → Answer peer skip count index c es r
      → Answer peer (suc skip) count index c (e ∷ es) r
  Answer-skip peer skip count index c r e es (inl h) = inl h
  Answer-skip peer skip count index c r e es (inr (j, f, lo, hi, at, got, q)) =
      inr (suc j, f, omega arith, omega arith, omega arith, got, q)

  Answer-step :
      (peer : P) (count index c c' r : ℕ) (e : Entry P) (es : List (Entry P))
      → c' ≡ (if has_quorum (vote peer e) then index else c)
      → Answer peer zero count (index + 1) c' es r
      → Answer peer zero (suc count) index c (e ∷ es) r
  Answer-step peer count index c c' r e es h (inr (j, f, lo, hi, at, got, q)) =
      inr (suc j, f, omega arith, omega arith, omega arith, got, q)
  Answer-step peer count index c c' r e es h (inl k) =
      elim (Bool-cases (has_quorum (vote peer e))) [
        | inl q ↦ inr (zero, e, omega arith, omega arith, ground arith, refl, q)
        | inr q ↦ inl (ground arith)
      ]

  granted-vote :
      (e : Entry P) (peer : P) (hint : PosHint)
      → IsProper e
      → granted (grant_hint (ballot e) peer hint).0 ≡ has_quorum (vote peer e)
  granted-vote e peer hint p =
      ap granted (grant_hint-ballot e peer hint p) ∙ granted-ballot (vote peer e)

  pub grant_range-Answer :
      (peer : P) (skip count index : ℕ) (hint : PosHint) (c : ℕ) (es : List (Entry P))
      → AllProper es
      → Answer peer skip count index c es
          (grant_range peer skip count index hint c (map ballot es)).1
  unfolding grant_range
  grant_range-Answer peer skip count index hint c [] p = inl refl
  grant_range-Answer peer (suc skip) count index hint c (e ∷ es) p =
      Answer-skip peer skip count index c _ e es
        (grant_range-Answer peer skip count index hint c es p.1)
  grant_range-Answer peer zero zero index hint c (e ∷ es) p = inl refl
  grant_range-Answer peer zero (suc count) index hint c (e ∷ es) p =
      Answer-step peer count index c _ _ e es
        (ap (λ b. if b then index else c) (granted-vote e peer hint p.0))
        (grant_range-Answer peer zero count (index + 1) (grant_hint (ballot e) peer hint).1
          (if granted (grant_hint (ballot e) peer hint).0 then index else c) es p.1)

  -- The answer never falls while it lags behind the loop.
  grant_range_mono :
      (peer : P) (skip count index : ℕ) (hint : PosHint) (c : ℕ) (es : List (Entry P))
      → c ≤ index
      → c ≤ (grant_range peer skip count index hint c (map ballot es)).1
  unfolding grant_range
  grant_range_mono peer skip count index hint c [] h = omega arith
  grant_range_mono peer (suc skip) count index hint c (e ∷ es) h =
      grant_range_mono peer skip count index hint c es h
  grant_range_mono peer zero zero index hint c (e ∷ es) h = omega arith
  grant_range_mono peer zero (suc count) index hint c (e ∷ es) h = ground (
    arith,
    grant_range_mono peer zero count (index + 1) (grant_hint (ballot e) peer hint).1
        (if granted (grant_hint (ballot e) peer hint).0 then index else c) es,
  )

  -- No entry of the range with a quorum lies above the answer.
  pub grant_range-greatest :
      (peer : P) (skip count index : ℕ) (hint : PosHint) (c : ℕ) (es : List (Entry P)) (j : ℕ)
      (f : Entry P)
      → AllProper es
      → c ≤ index
      → skip ≤ j
      → j < skip + count
      → get_elem? es j ≡ some f
      → has_quorum (vote peer f) ≡ true
      → index + j ≤ (grant_range peer skip count index hint c (map ballot es)).1 + skip
  unfolding grant_range
  grant_range-greatest peer skip count index hint c [] j f p h lo hi got q = cc
  grant_range-greatest peer (suc skip) count index hint c (e ∷ es) zero f p h lo hi got q =
      absurd (omega arith)
  grant_range-greatest peer (suc skip) count index hint c (e ∷ es) (suc j) f p h lo hi got q =
      omega (
        arith,
        grant_range-greatest peer skip count index hint c es j f p.1 h (omega arith) (omega arith)
            got q,
      )
  grant_range-greatest peer zero zero index hint c (e ∷ es) j f p h lo hi got q =
      absurd (omega arith)
  grant_range-greatest peer zero (suc count) index hint c (e ∷ es) zero f p h lo hi got q =
      let here : e ≡ f = cc in
      ground (
        arith,
        granted-vote e peer hint p.0,
        grant_range_mono peer zero count (index + 1) (grant_hint (ballot e) peer hint).1 index es,
      )
  grant_range-greatest peer zero (suc count) index hint c (e ∷ es) (suc j) f p h lo hi got q =
      omega (
        arith,
        grant_range-greatest peer zero count (index + 1) (grant_hint (ballot e) peer hint).1
            (if granted (grant_hint (ballot e) peer hint).0 then index else c) es j f p.1
            (ground arith) (omega arith) (omega arith) got q,
      )
