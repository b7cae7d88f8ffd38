-- ===== src/ConfigurationManager/Latest.antt =====
-- `get` answers the configuration in force at an index: the last one at or before it.
use mathlib.Core.List.{Memᴰ}
use quorumkit.Prelude.{
  ℕ, ◌≤◌, ◌<◌, ◌≡◌, ◌⊎◌, refl, sym, subst, inl, inr, List, [], ◌∷◌, ltb, arith, Bool-cases,
}
use quorumkit.ConfigurationManager.{ConfigurationEntry, ConfigurationManager, index, get_from, get}

module _ {P : Type 0} where
  abbrev pub AllAfter : ℕ → List (ConfigurationEntry P) → Type 0
  AllAfter k [] = Unit
  AllAfter k (c ∷ cs) = (k < index c) × AllAfter k cs

  -- The indexes rise strictly.
  abbrev pub IsRising : List (ConfigurationEntry P) → Type 0
  IsRising [] = Unit
  IsRising (c ∷ cs) = AllAfter (index c) cs × IsRising cs

  -- `e` is the last of the list, by index, at or before `k`.
  abbrev pub IsLast : ℕ → ConfigurationEntry P → List (ConfigurationEntry P) → Type 0
  IsLast k e [] = Unit
  IsLast k e (c ∷ cs) = (index c ≤ k → index c ≤ index e) × IsLast k e cs

  pub AllAfter-mono :
      (j k : ℕ) (cs : List (ConfigurationEntry P)) → j ≤ k → AllAfter k cs → AllAfter j cs
  AllAfter-mono j k [] h a = tt
  AllAfter-mono j k (c ∷ cs) h a = (omega arith, AllAfter-mono j k cs h a.1)

  AllAfter-IsLast :
      (k : ℕ) (e : ConfigurationEntry P) (cs : List (ConfigurationEntry P))
      → AllAfter k cs
      → IsLast k e cs
  AllAfter-IsLast k e [] a = tt
  AllAfter-IsLast k e (c ∷ cs) a = (λ h. absurd (omega arith), AllAfter-IsLast k e cs a.1)

  abbrev Found :
      ℕ → ConfigurationEntry P → List (ConfigurationEntry P) → ConfigurationEntry P → Type 0
  Found k before cs e = ((e ≡ before) × AllAfter k cs) ⊎ (Memᴰ e cs × (index e ≤ k) × IsLast k e cs)

  after_of_mem :
      (k : ℕ) (e : ConfigurationEntry P) (cs : List (ConfigurationEntry P))
      → AllAfter k cs
      → Memᴰ e cs
      → k < index e
  after_of_mem k e [] a m = elim m [ ]
  after_of_mem k e (c ∷ cs) a (Memᴰ.head h) = ground arith
  after_of_mem k e (c ∷ cs) a (Memᴰ.tail m) = after_of_mem k e cs a.1 m

  Found-cons :
      (k : ℕ) (before c : ConfigurationEntry P) (cs : List (ConfigurationEntry P))
      (e : ConfigurationEntry P)
      → IsRising (c ∷ cs)
      → index c ≤ k
      → Found k c cs e
      → Found k before (c ∷ cs) e
  Found-cons k before c cs e r h (inl (same, a)) =
      inr (Memᴰ.head same, ground arith, ((λ _. ground arith), AllAfter-IsLast k e cs a))
  Found-cons k before c cs e r h (inr (m, le, l)) =
      let later = after_of_mem (index c) e cs r.0 m in
      inr (Memᴰ.tail m, le, ((λ _. omega (arith, later)), l))

  get_from-Found :
      (k : ℕ) (before : ConfigurationEntry P) (cs : List (ConfigurationEntry P))
      → IsRising cs
      → Found k before cs (get_from k before cs)
  unfolding get_from
  get_from-Found k before [] r = inl (refl, tt)
  get_from-Found k before (c ∷ cs) r = elim (Bool-cases (ltb k (index c))) [
    | inl h ↦
        let early : get_from k before (c ∷ cs) ≡ before = rw (h, get_from) in
        inl (early, (ground arith, AllAfter-mono k (index c) cs (ground arith) r.0))
    | inr h ↦
        let late : get_from k before (c ∷ cs) ≡ get_from k c cs = rw (h, get_from) in
        subst (Found k before (c ∷ cs)) (sym late)
          (Found-cons k before c cs (get_from k c cs) r (ground arith) (get_from-Found k c cs r.1))
  ]

  -- In a history with rising indexes `get` answers the snapshot's configuration exactly if every
  -- configuration comes after the index, and otherwise one of the history, at or before the index,
  -- that no other one at or before the index comes after.
  pub get_lem :
      (m : ConfigurationManager P) (k : ℕ)
      → IsRising m.configurations
      → let e = get m k in
        ((e ≡ m.snapshot) × AllAfter k m.configurations)
        ⊎ (Memᴰ e m.configurations × (index e ≤ k) × IsLast k e m.configurations)
  unfolding get
  get_lem m k r = get_from-Found k m.snapshot m.configurations r
