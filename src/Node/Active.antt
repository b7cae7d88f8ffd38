-- ===== src/Node/Active.antt =====
-- The timestamp that the lease of a leader starts from was reached by a majority.
use quorumkit.Prelude.{
  ℕ, suc, ◌+◌, ◌-◌, ◌/◌, ◌≤◌, ◌≡◌, refl, inl, inr, ◌||◌, List, [], ◌∷◌, min, leb, if◌then◌else◌,
  length, drop, arith, Bool-cases,
}
use quorumkit.Peer.{PeerOrder}
use quorumkit.Node.Alive.{push_heap, keep_most, latest, least_or, last_active_in}

-- How many are at least `t`.
abbrev pub at_least : ℕ → List ℕ → ℕ
at_least t [] = 0
at_least t (x ∷ xs) = let rest = at_least t xs in if leb t x then suc rest else rest

abbrev AllAbove : ℕ → List ℕ → Type 0
AllAbove t [] = Unit
AllAbove t (x ∷ xs) = (t ≤ x) × AllAbove t xs

abbrev Rises : List ℕ → Type 0
Rises [] = Unit
Rises (x ∷ xs) = AllAbove x xs × Rises xs

AllAbove-mono : (t u : ℕ) (xs : List ℕ) → t ≤ u → AllAbove u xs → AllAbove t xs
AllAbove-mono t u [] h a = tt
AllAbove-mono t u (x ∷ xs) h a = (omega (arith, a.0), AllAbove-mono t u xs h a.1)

push-AllAbove : (t x : ℕ) (xs : List ℕ) → t ≤ x → AllAbove t xs → AllAbove t (push_heap x xs)
unfolding push_heap
push-AllAbove t x [] h a = (h, tt)
push-AllAbove t x (y ∷ ys) h a = ground (arith, push-AllAbove t x ys h a.1)

push-Rises : (x : ℕ) (xs : List ℕ) → Rises xs → Rises (push_heap x xs)
unfolding push_heap
push-Rises x [] r = (tt, tt)
push-Rises x (y ∷ ys) r = elim (Bool-cases (leb x y)) [
  | inl h ↦ rw h ((ground arith, AllAbove-mono x y ys (ground arith) r.0), r)
  | inr h ↦ rw h (push-AllAbove y x ys (ground arith) r.0, push-Rises x ys r.1)
]

push-at_least :
    (t x : ℕ) (xs : List ℕ)
    → at_least t (push_heap x xs) ≡ (if leb t x then 1 else 0) + at_least t xs
unfolding push_heap
push-at_least t x [] = ground arith
push-at_least t x (y ∷ ys) = ground (arith, push-at_least t x ys)

push-length : (x : ℕ) (xs : List ℕ) → length (push_heap x xs) ≡ length xs + 1
unfolding push_heap
push-length x [] = refl
push-length x (y ∷ ys) = ground (arith, push-length x ys)

tail-Rises : (xs : List ℕ) → Rises xs → Rises (drop 1 xs)
tail-Rises [] r = tt
tail-Rises (x ∷ xs) r = r.1

keep-Rises : (most : ℕ) (xs : List ℕ) → Rises xs → Rises (keep_most most xs)
unfolding keep_most
keep-Rises most xs r = ground (arith, r, tail-Rises xs r)

tail-at_least : (t : ℕ) (xs : List ℕ) → at_least t (drop 1 xs) ≤ at_least t xs
tail-at_least t [] = omega arith
tail-at_least t (x ∷ xs) = ground arith

keep-at_least : (t most : ℕ) (xs : List ℕ) → at_least t (keep_most most xs) ≤ at_least t xs
unfolding keep_most
keep-at_least t most xs = ground (arith, tail-at_least t xs)

tail-length : (xs : List ℕ) → length (drop 1 xs) ≡ length xs - 1
tail-length [] = refl
tail-length (x ∷ xs) = omega arith

keep-length :
    (most : ℕ) (xs : List ℕ)
    → length xs ≤ most + 1
    → length (keep_most most xs) ≡ min (length xs) most
unfolding keep_most
keep-length most xs h = ground (arith, tail-length xs)

AllAbove-at_least : (t : ℕ) (xs : List ℕ) → AllAbove t xs → at_least t xs ≡ length xs
AllAbove-at_least t [] a = refl
AllAbove-at_least t (x ∷ xs) a = ground (arith, AllAbove-at_least t xs a.1)

head_least : (now : ℕ) (xs : List ℕ) → Rises xs → at_least (least_or now xs) xs ≡ length xs
head_least now [] r = refl
head_least now (x ∷ xs) r = ground (arith, AllAbove-at_least x xs r.0)

module _ {P : Type 0} ⦃o : PeerOrder P⦄ where
  -- The peers that are the node itself, or that it has sent to at or after the time.
  abbrev pub reached : P → (P → ℕ) → ℕ → List P → ℕ
  reached self sent t [] = 0
  reached self sent t (p ∷ ps) =
      let rest = reached self sent t ps in
      if o.peer_eq p self || leb t (sent p) then suc rest else rest

  -- How often the node itself is there.
  abbrev pub own : P → List P → ℕ
  own self [] = 0
  own self (p ∷ ps) = let rest = own self ps in if o.peer_eq p self then suc rest else rest

  latest_lem :
      (self : P) (sent : P → ℕ) (most : ℕ) (ps : List P) (kept : List ℕ)
      → Rises kept
      → length kept ≤ most
      → Rises (latest self sent most ps kept)
        × (length (latest self sent most ps kept)
            ≡ min (length kept + (length ps - own self ps)) most)
        × (own self ps ≤ length ps)
        × ((t : ℕ)
            → at_least t (latest self sent most ps kept) + own self ps
              ≤ at_least t kept + reached self sent t ps)
  unfolding latest
  latest_lem self sent most [] kept r l = (r, ground arith, omega arith, λ t. omega arith)
  latest_lem self sent most (p ∷ ps) kept r l = elim (Bool-cases (o.peer_eq p self)) [
    | inl h ↦
        let (a, b, c, d) = latest_lem self sent most ps kept r l in
        rw h (a, ground (arith, b, c), ground (arith, c), λ t. let e = d t in ground (arith, e))
    | inr h ↦
        let pushed = push_heap (sent p) kept in
        let k = keep_most most pushed in
        let pl = push-length (sent p) kept in
        let kl = keep-length most pushed (omega (arith, pl)) in
        let (a, b, c, d) =
          latest_lem self sent most ps k (keep-Rises most pushed (push-Rises (sent p) kept r))
            (omega (arith, kl)) in
        rw h (
          a,
          omega (arith, b, c, kl, pl),
          omega (arith, c),
          λ t.
              let e = d t in
              let f = keep-at_least t most pushed in
              let g = push-at_least t (sent p) kept in ground (arith, e, f, g),
        )
  ]

  -- In a configuration that holds the node itself once, the node and the peers that it has sent to at
  -- or after the answered time are a majority.
  pub last_active_majority :
      (self : P) (sent : P → ℕ) (now : ℕ) (peers : List P)
      → own self peers ≡ 1
      → length peers / 2 + 1 ≤ reached self sent (last_active_in self sent now peers) peers
  unfolding last_active_in
  last_active_majority self sent now peers h =
      let kept = latest self sent (length peers / 2) peers [] in
      let (a, b, c, d) = latest_lem self sent (length peers / 2) peers [] tt (omega arith) in
      let e = d (least_or now kept) in omega (arith, b, c, e, h, head_least now kept a)
