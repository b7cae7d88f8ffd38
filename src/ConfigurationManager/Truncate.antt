-- ===== src/ConfigurationManager/Truncate.antt =====
-- What `add` and the two truncations do to the history and to what `get` answers.
use quorumkit.Prelude.{
  ℕ, ◌≤◌, ◌<◌, ◌≡◌, ◌⊎◌, ◌↔◌, refl, ap, inl, inr, List, [], ◌∷◌, ◌++◌, ltb, leb, if◌then◌else◌,
  last_or, drop_while, drop_while_end, trim_front, arith, Bool-cases,
}
use quorumkit.Errno.{ok, minus_one}
use quorumkit.ConfigurationManager.{
  ConfigurationEntry, ConfigurationManager, index, add_to, add, truncate_prefix, truncate_suffix,
  get_from, get,
}
use quorumkit.ConfigurationManager.Latest.{AllAfter, IsRising, AllAfter-mono}

module _ {P : Type 0} where
  last-AllAfter :
      (k : ℕ) (c : ConfigurationEntry P) (cs : List (ConfigurationEntry P))
      (e : ConfigurationEntry P)
      → IsRising (c ∷ cs)
      → index (last_or c cs) < index e
      → index c < index e
  last-AllAfter k c [] e r h = h
  last-AllAfter k c (d ∷ cs) e r h = omega (arith, last-AllAfter k d cs e r.1 h, r.0.0)

  AllAfter-append :
      (k : ℕ) (cs : List (ConfigurationEntry P)) (e : ConfigurationEntry P)
      → AllAfter k cs
      → k < index e
      → AllAfter k (cs ++ (e ∷ []))
  AllAfter-append k [] e a h = (h, tt)
  AllAfter-append k (c ∷ cs) e a h = (a.0, AllAfter-append k cs e a.1 h)

  append-IsRising :
      (c : ConfigurationEntry P) (cs : List (ConfigurationEntry P)) (e : ConfigurationEntry P)
      → IsRising (c ∷ cs)
      → index (last_or c cs) < index e
      → IsRising ((c ∷ cs) ++ (e ∷ []))
  append-IsRising c [] e r h = ((h, tt), (tt, tt))
  append-IsRising c (d ∷ cs) e r h = (
    AllAfter-append (index c) (d ∷ cs) e r.0 (last-AllAfter 0 c (d ∷ cs) e r h),
    append-IsRising d cs e r.1 h,
  )

  get_from-append :
      (k : ℕ) (b c : ConfigurationEntry P) (cs : List (ConfigurationEntry P))
      (e : ConfigurationEntry P)
      → IsRising (c ∷ cs)
      → index (last_or c cs) < index e
      → get_from k b ((c ∷ cs) ++ (e ∷ [])) ≡ (if ltb k (index e) then get_from k b (c ∷ cs) else e)
  unfolding get_from
  get_from-append k b c [] e r h = ground arith
  get_from-append k b c (d ∷ cs) e r h =
      ground (arith, get_from-append k c d cs e r.1 h, last-AllAfter 0 c (d ∷ cs) e r h)

  abbrev pub AllBefore : ℕ → List (ConfigurationEntry P) → Type 0
  AllBefore k [] = Unit
  AllBefore k (c ∷ cs) = (index c < k) × AllBefore k cs

  before_of_last :
      (c : ConfigurationEntry P) (cs : List (ConfigurationEntry P)) (e : ConfigurationEntry P)
      → IsRising (c ∷ cs)
      → index (last_or c cs) < index e
      → AllBefore (index e) (c ∷ cs)
  before_of_last c [] e r h = (h, tt)
  before_of_last c (d ∷ cs) e r h = (last-AllAfter 0 c (d ∷ cs) e r h, before_of_last d cs e r.1 h)

  last_of_before :
      (k : ℕ) (c : ConfigurationEntry P) (cs : List (ConfigurationEntry P))
      → AllBefore k (c ∷ cs)
      → index (last_or c cs) < k
  last_of_before k c [] b = b.0
  last_of_before k c (d ∷ cs) b = last_of_before k d cs b.1

  add_to_lem :
      (b : ConfigurationEntry P) (cs : List (ConfigurationEntry P)) (e : ConfigurationEntry P)
      (k : ℕ)
      → IsRising cs
      → IsRising (add_to cs e).1
        × (((add_to cs e).0 ≡ ok) ↔ AllBefore (index e) cs)
        × ((add_to cs e).0 ≡ minus_one → (add_to cs e).1 ≡ cs)
        × ((add_to cs e).0 ≡ ok
            → get_from k b (add_to cs e).1 ≡ (if ltb k (index e) then get_from k b cs else e))
  unfolding add_to get_from
  add_to_lem b [] e k r = ((tt, tt), ((λ _. tt), λ _. refl), (λ h. cc), λ _. refl)
  add_to_lem b (c ∷ cs) e k r = elim (Bool-cases (leb (index e) (index (last_or c cs)))) [
    | inl h ↦
        rw (h, add_to)
          (
            r,
            ((λ z. cc), λ before. absurd (ground (arith, last_of_before (index e) c cs before))),
            (λ _. refl),
            λ z. cc,
          )
    | inr h ↦
        let later : index (last_or c cs) < index e = ground arith in
        rw (h, add_to)
          (
            append-IsRising c cs e r later,
            ((λ _. before_of_last c cs e r later), λ _. refl),
            (λ z. cc),
            λ _. get_from-append k b c cs e r later,
          )
  ]

  -- In a history with rising indexes `add` accepts an entry exactly if every configuration comes
  -- before it. The indexes then still rise, the new entry is in force from its index on, and
  -- before that index nothing changes. An entry that is refused changes nothing.
  pub add_lem :
      (m : ConfigurationManager P) (e : ConfigurationEntry P) (k : ℕ)
      → IsRising m.configurations
      → IsRising (add m e).1.configurations
        × (((add m e).0 ≡ ok) ↔ AllBefore (index e) m.configurations)
        × ((add m e).0 ≡ minus_one → (add m e).1 ≡ m)
        × ((add m e).0 ≡ ok → get (add m e).1 k ≡ (if ltb k (index e) then get m k else e))
  unfolding add get
  add_lem m e k r =
      let lem = add_to_lem m.snapshot m.configurations e k r in
      (lem.0, lem.1, (λ h. ap (λ cs. record m { configurations = cs }) (lem.2 h)), lem.3)

  trim_front_lem :
      (j k : ℕ) (b c : ConfigurationEntry P) (ds cs : List (ConfigurationEntry P))
      → k ≤ j
      → get_from k c ds ≡ get_from k c cs
      → get_from k b (trim_front (λ d. ltb j (index d)) c ds) ≡ get_from k b (c ∷ cs)
  unfolding get_from
  trim_front_lem j k b c [] cs h e = ground arith
  trim_front_lem j k b c (d ∷ ds) cs h e = ground arith

  get_from-drop_end :
      (j k : ℕ) (b : ConfigurationEntry P) (cs : List (ConfigurationEntry P))
      → k ≤ j
      → get_from k b (drop_while_end (λ d. ltb j (index d)) cs) ≡ get_from k b cs
  get_from-drop_end j k b [] h = refl
  get_from-drop_end j k b (c ∷ cs) h =
      trim_front_lem j k b c (drop_while_end (λ d. ltb j (index d)) cs) cs h
        (get_from-drop_end j k c cs h)

  -- Whatever a truncation from the end leaves answers as before up to the last index kept.
  pub get-truncate_suffix :
      (m : ConfigurationManager P) (last_index_kept k : ℕ)
      → k ≤ last_index_kept
      → get (truncate_suffix m last_index_kept) k ≡ get m k
  unfolding get truncate_suffix
  get-truncate_suffix m j k h = get_from-drop_end j k m.snapshot m.configurations h

  get_from_after :
      (k : ℕ) (b : ConfigurationEntry P) (cs : List (ConfigurationEntry P))
      → AllAfter k cs
      → get_from k b cs ≡ b
  unfolding get_from
  get_from_after k b [] a = refl
  get_from_after k b (c ∷ cs) a = ground arith

  drop_AllAfter :
      (p k : ℕ) (cs : List (ConfigurationEntry P))
      → AllAfter k cs
      → AllAfter k (drop_while (λ d. ltb (index d) p) cs)
  drop_AllAfter p k [] a = tt
  drop_AllAfter p k (c ∷ cs) a = ground (arith, drop_AllAfter p k cs a.1)

  -- What stands before the list is answered, or it does not matter.
  get_from_either :
      (k : ℕ) (b b' : ConfigurationEntry P) (cs : List (ConfigurationEntry P))
      → ((get_from k b cs ≡ b) × (get_from k b' cs ≡ b')) ⊎ (get_from k b cs ≡ get_from k b' cs)
  unfolding get_from
  get_from_either k b b' [] = inl (refl, refl)
  get_from_either k b b' (c ∷ cs) = ground arith

  get_from-drop :
      (p k : ℕ) (b : ConfigurationEntry P) (cs : List (ConfigurationEntry P))
      → IsRising cs
      → p ≤ index (get_from k b cs)
      → get_from k b (drop_while (λ d. ltb (index d) p) cs) ≡ get_from k b cs
  unfolding get_from
  get_from-drop p k b [] r h = refl
  get_from-drop p k b (c ∷ cs) r h = ground (
    arith,
    get_from-drop p k c cs r.1,
    get_from_either k c b (drop_while (λ d. ltb (index d) p) cs),
    get_from_after k b (drop_while (λ d. ltb (index d) p) cs),
    drop_AllAfter p k cs,
    AllAfter-mono k (index c) cs,
  )

  -- In a history with rising indexes, a truncation from the front changes no answer of `get`
  -- whose index it keeps.
  pub get-truncate_prefix :
      (m : ConfigurationManager P) (first_index_kept k : ℕ)
      → IsRising m.configurations
      → first_index_kept ≤ index (get m k)
      → get (truncate_prefix m first_index_kept) k ≡ get m k
  unfolding get truncate_prefix
  get-truncate_prefix m p k r h = get_from-drop p k m.snapshot m.configurations r h
