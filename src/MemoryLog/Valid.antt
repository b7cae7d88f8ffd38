-- ===== src/MemoryLog/Valid.antt =====
-- The deque holds one entry for each index from the first to the last, in order.
use quorumkit.Prelude.{
  ℕ, zero, suc, ◌+◌, ◌-◌, ◌≤◌, ◌≡◌, ◌⊎◌, refl, sym, inl, inr, true, false, List, [], ◌∷◌, ◌++◌, ltb,
  ◌==◌, if◌then◌else◌, length, length-append, drop, drop_while, drop_while_end, trim_front, take,
  take-nil, drop-nil, length-take, length-drop, arith, Bool-cases,
}
use quorumkit.LogEntry.{LogEntry}
use quorumkit.MemoryLog.{MemoryLog, init, append_entry, truncate_prefix, truncate_suffix, reset}

module _ {P : Type 0} where
  -- The indexes count up from `first`.
  abbrev pub Runs : ℕ → List (LogEntry P) → Type 0
  Runs first [] = Unit
  Runs first (e ∷ es) = (e.id.index ≡ first) × Runs (suc first) es

  pub record IsValid (s : MemoryLog P) : Type 0 where
    pub runs : Runs s.first_log_index s.log_entry_data
    pub ends : s.first_log_index + length s.log_entry_data ≡ s.last_log_index + 1

  pub Runs-append :
      (first : ℕ) (es fs : List (LogEntry P))
      → Runs first es
      → Runs (first + length es) fs
      → Runs first (es ++ fs)
  Runs-append first [] fs r q = let e : first + 0 ≡ first = omega arith in rw e at q
  Runs-append first (e ∷ es) fs r q =
      let s : first + suc (length es) ≡ suc first + length es = omega arith in
      (r.0, Runs-append (suc first) es fs r.1 (rw s at q))

  pub drop_while-Runs :
      (k first : ℕ) (es : List (LogEntry P))
      → Runs first es
      → drop_while (λ e. ltb e.id.index k) es ≡ drop (k - first) es
  drop_while-Runs k first [] r = sym (drop-nil (LogEntry P) (k - first))
  drop_while-Runs k first (e ∷ es) r = elim (Bool-cases (ltb e.id.index k)) [
    | inl h ↦
        let n : k - first ≡ suc (k - suc first) = ground arith in
        rw (h, n) (drop_while-Runs k (suc first) es r.1)
    | inr h ↦ let n : k - first ≡ 0 = ground arith in rw (h, n)
  ]

  trim_take :
      (k first : ℕ) (e : LogEntry P) (es : List (LogEntry P))
      → e.id.index ≡ first
      → trim_front (λ d. ltb k d.id.index) e (take (k + 1 - suc first) es)
        ≡ take (k + 1 - first) (e ∷ es)
  trim_take k first e es h = elim (Bool-cases (ltb k first)) [
    | inl a ↦
        let n : k + 1 - first ≡ 0 = ground arith in
        let m : k + 1 - suc first ≡ 0 = ground arith in rw (m, n) (ground arith)
    | inr a ↦
        let n : k + 1 - first ≡ suc (k + 1 - suc first) = ground arith in
        rw n (trim_kept a (take (k + 1 - suc first) es))
  ]
    where
      trim_kept :
          ltb k first ≡ false
          → (ds : List (LogEntry P)) → trim_front (λ d. ltb k d.id.index) e ds ≡ e ∷ ds
      trim_kept a [] = ground arith
      trim_kept a (d ∷ ds) = refl

  pub drop_while_end-Runs :
      (k first : ℕ) (es : List (LogEntry P))
      → Runs first es
      → drop_while_end (λ e. ltb k e.id.index) es ≡ take (k + 1 - first) es
  drop_while_end-Runs k first [] r = sym (take-nil (LogEntry P) (k + 1 - first))
  drop_while_end-Runs k first (e ∷ es) r =
      rw (drop_while_end-Runs k (suc first) es r.1) (trim_take k first e es r.0)

  pub Runs-drop :
      (n first : ℕ) (es : List (LogEntry P)) → Runs first es → Runs (first + n) (drop n es)
  Runs-drop zero first es r = let e : first + 0 ≡ first = omega arith in rw e r
  Runs-drop (suc n) first [] r = tt
  Runs-drop (suc n) first (e ∷ es) r =
      let s : first + suc n ≡ suc first + n = omega arith in rw s (Runs-drop n (suc first) es r.1)

  pub Runs-take : (n first : ℕ) (es : List (LogEntry P)) → Runs first es → Runs first (take n es)
  Runs-take zero first es r = tt
  Runs-take (suc n) first [] r = tt
  Runs-take (suc n) first (e ∷ es) r = (r.0, Runs-take n (suc first) es r.1)

  -- `init` makes an empty deque well formed.
  pub init-IsValid : (s : MemoryLog P) → s.log_entry_data ≡ [] → IsValid (init s)
  unfolding init
  init-IsValid s h = ground arith

  -- `append_entry` of any entry keeps a well-formed log well formed: its entries have the indexes
  -- from the first to the last, in order.
  pub append_entry-IsValid :
      (s : MemoryLog P) (e : LogEntry P) → IsValid s → IsValid (append_entry s e).1
  unfolding append_entry
  append_entry-IsValid s e v = elim (Bool-cases (e.id.index == s.last_log_index + 1)) [
    | inl h ↦
        rw (h, append_entry)
          (record {
            runs =
                Runs-append s.first_log_index s.log_entry_data (e ∷ []) v.runs
                  (ground (arith, v.ends), tt);
            ends = omega (arith, v.ends, length-append s.log_entry_data (e ∷ []));
          })
    | inr h ↦ rw (h, append_entry) v
  ]

  -- `truncate_prefix` at or after the first index keeps a well-formed log well formed.
  pub truncate_prefix-IsValid :
      (s : MemoryLog P) (k : ℕ) → IsValid s → s.first_log_index ≤ k → IsValid (truncate_prefix s k)
  unfolding truncate_prefix
  truncate_prefix-IsValid s k v h =
      let at : s.first_log_index + (k - s.first_log_index) ≡ k = omega arith in
      rw (drop_while-Runs k s.first_log_index s.log_entry_data v.runs) (record {
        runs =
            rw at at (Runs-drop (k - s.first_log_index) s.first_log_index s.log_entry_data v.runs);
        ends = ground (arith, v.ends, length-drop (k - s.first_log_index) s.log_entry_data);
      })

  -- `truncate_suffix` at or before the last index keeps a well-formed log well formed.
  pub truncate_suffix-IsValid :
      (s : MemoryLog P) (k : ℕ) → IsValid s → k ≤ s.last_log_index → IsValid (truncate_suffix s k)
  unfolding truncate_suffix
  truncate_suffix-IsValid s k v h =
      rw (drop_while_end-Runs k s.first_log_index s.log_entry_data v.runs) (record {
        runs = kept (Bool-cases (ltb k s.first_log_index));
        ends = ground (arith, v.ends, length-take (k + 1 - s.first_log_index) s.log_entry_data);
      })
    where
      kept :
          (ltb k s.first_log_index ≡ true) ⊎ (ltb k s.first_log_index ≡ false)
          → Runs
              (if ltb k s.first_log_index then k + 1 else s.first_log_index)
              (take (k + 1 - s.first_log_index) s.log_entry_data)
      kept (inl a) = let n : k + 1 - s.first_log_index ≡ 0 = ground arith in rw (a, n) tt
      kept (inr a) =
          rw a (Runs-take (k + 1 - s.first_log_index) s.first_log_index s.log_entry_data v.runs)

  -- `reset` keeps the log well formed, refused or not.
  pub reset-IsValid : (s : MemoryLog P) (k : ℕ) → IsValid s → IsValid (reset s k).1
  unfolding reset
  reset-IsValid s k v = ground arith
