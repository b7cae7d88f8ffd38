-- ===== src/MemoryLog/Contents.antt =====
-- What is stored, by index, before and after each operation.
use quorumkit.Prelude.{
  ℕ, zero, suc, ◌+◌, ◌-◌, ◌≤◌, ◌<◌, ◌≡◌, ◌⊎◌, refl, false, ◌&&◌, List, [], ◌∷◌, ◌++◌, none, some,
  ltb, ◌==◌, if◌then◌else◌, length, get_elem?, drop, take, arith,
}
use quorumkit.LogEntry.{LogEntry}
use quorumkit.MemoryLog.{
  MemoryLog, get_entry, get_term, append_entry, truncate_prefix, truncate_suffix,
}
use quorumkit.MemoryLog.Valid.{Runs, IsValid, drop_while-Runs, drop_while_end-Runs}

module _ {P : Type 0} where
  pub get-append :
      (es : List (LogEntry P)) (e : LogEntry P) (i : ℕ)
      → get_elem? (es ++ (e ∷ [])) i
        ≡ (if ltb i (length es) then get_elem? es i else if i == length es then some e else none)
  get-append [] e zero = refl
  get-append [] e (suc i) = ground arith
  get-append (d ∷ es) e zero = ground arith
  get-append (d ∷ es) e (suc i) = ground (arith, get-append es e i)

  pub get-drop :
      (n : ℕ) (es : List (LogEntry P)) (i : ℕ) → get_elem? (drop n es) i ≡ get_elem? es (n + i)
  get-drop zero es i = let z : zero + i ≡ i = omega arith in rw z
  get-drop (suc n) [] i = refl
  get-drop (suc n) (e ∷ es) i =
      let z : suc n + i ≡ suc (n + i) = omega arith in rw z (get-drop n es i)

  pub get-take :
      (n : ℕ) (es : List (LogEntry P)) (i : ℕ) → i < n → get_elem? (take n es) i ≡ get_elem? es i
  get-take zero es i h = absurd (omega arith)
  get-take (suc n) [] i h = refl
  get-take (suc n) (e ∷ es) zero h = refl
  get-take (suc n) (e ∷ es) (suc i) h = get-take n es i (omega arith)

  get-Runs :
      (first : ℕ) (es : List (LogEntry P)) (i : ℕ)
      → Runs first es
      → i < length es
      → (e : LogEntry P) × (get_elem? es i ≡ some e) × (e.id.index ≡ first + i)
  get-Runs first [] i r h = absurd (omega arith)
  get-Runs first (e ∷ es) zero r h = (e, refl, omega (arith, r.0))
  get-Runs first (e ∷ es) (suc i) r h =
      let (d, got, at) = get-Runs (suc first) es i r.1 (omega arith) in (d, got, omega arith)

  -- A well-formed log answers, for each index from the first to the last and for no other, an entry:
  -- the one of that index. `get_term` is the term of that entry, and 0 where there is none.
  pub get_entry_lem :
      (s : MemoryLog P) (index : ℕ)
      → IsValid s
      → (s.first_log_index ≤ index
          → index ≤ s.last_log_index
          → (e : LogEntry P) × (get_entry s index ≡ some e)
            × (e.id.index ≡ index)
            × (get_term s index ≡ e.id.term))
        × (((index < s.first_log_index) ⊎ (s.last_log_index < index))
            → (get_entry s index ≡ none) × (get_term s index ≡ 0))
  unfolding get_entry get_term
  get_entry_lem s index v = (
    λ lo hi.
        let (e, got, at) =
          get-Runs s.first_log_index s.log_entry_data (index - s.first_log_index) v.runs
            (omega (arith, v.ends)) in
        (e, ground arith, omega arith, ground arith),
    λ out. ground arith,
  )

  -- On a well-formed log, appending the entry after the last one stores it there and leaves every
  -- other index as it was; any other entry is refused and no index changes.
  pub get_entry-append_entry :
      (s : MemoryLog P) (e : LogEntry P) (index : ℕ)
      → IsValid s
      → get_entry (append_entry s e).1 index ≡ (
          if e.id.index == s.last_log_index + 1 && index == e.id.index
          then some e
          else get_entry s index)
  unfolding get_entry append_entry
  get_entry-append_entry s e index v =
      ground (arith, v.ends, get-append s.log_entry_data e (index - s.first_log_index))

  -- On a well-formed log, `truncate_prefix` at or after the first index forgets exactly the
  -- indexes below the first one kept.
  pub get_entry-truncate_prefix :
      (s : MemoryLog P) (k index : ℕ)
      → IsValid s
      → s.first_log_index ≤ k
      → get_entry (truncate_prefix s k) index ≡ (if ltb index k then none else get_entry s index)
  unfolding get_entry truncate_prefix
  get_entry-truncate_prefix s k index v h = ground (
    arith,
    drop_while-Runs k s.first_log_index s.log_entry_data v.runs,
    get-drop (k - s.first_log_index) s.log_entry_data (index - k),
    split,
  )
    where
      split : ltb index k ≡ false → k - s.first_log_index + (index - k) ≡ index - s.first_log_index
      split n = ground arith

  -- On a well-formed log, `truncate_suffix` at or before the last index forgets exactly the
  -- indexes above the last one kept.
  pub get_entry-truncate_suffix :
      (s : MemoryLog P) (k index : ℕ)
      → IsValid s
      → k ≤ s.last_log_index
      → get_entry (truncate_suffix s k) index ≡ (if ltb k index then none else get_entry s index)
  unfolding get_entry truncate_suffix
  get_entry-truncate_suffix s k index v h = ground (
    arith,
    drop_while_end-Runs k s.first_log_index s.log_entry_data v.runs,
    get-take (k + 1 - s.first_log_index) s.log_entry_data (index - s.first_log_index),
  )
