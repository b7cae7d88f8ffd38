-- ===== src/LogManager/Terms.antt =====
-- How the terms that a log manager answers depend on the entries in memory.
use quorumkit.Prelude.{
  ℕ, zero, suc, ◌+◌, ◌-◌, ◌≤◌, ◌<◌, ◌≡◌, refl, sym, ◌∙◌, inl, inr, ◌&&◌, List, [], ◌∷◌, ◌++◌,
  Option, none, some, ltb, leb, ◌==◌, if◌then◌else◌, length, length-append, get_elem?, length-take,
  last_or, drop_while_end, trim_front, arith, Bool-cases,
}
use quorumkit.LogEntry.{LogEntry}
use quorumkit.LogStorage.{LogStorage}
use quorumkit.LogManager.{LogManager, from_memory, get_entry_from_memory, unsafe_get_term}
use quorumkit.MemoryLog.Valid.{Runs, Runs-append, Runs-take, drop_while_end-Runs}

module _ {P : Type 0} where
  -- The entry of an index, wherever it stands.
  abbrev pub find_entry : ℕ → List (LogEntry P) → Option (LogEntry P)
  find_entry i [] = none
  find_entry i (e ∷ es) = if e.id.index == i then some e else find_entry i es

  abbrev pub or_else : Option (LogEntry P) → Option (LogEntry P) → Option (LogEntry P)
  or_else none b = b
  or_else (some e) b = some e

  pub find_entry-append :
      (i : ℕ) (es fs : List (LogEntry P))
      → find_entry i (es ++ fs) ≡ or_else (find_entry i es) (find_entry i fs)
  find_entry-append i [] fs = refl
  find_entry-append i (e ∷ es) fs = elim (Bool-cases (e.id.index == i)) [
    | inl h ↦ rw h
    | inr h ↦ rw h (find_entry-append i es fs)
  ]

  -- No entry at or after `first` has an index below it.
  pub find_entry-below :
      (i first : ℕ) (es : List (LogEntry P)) → Runs first es → i < first → find_entry i es ≡ none
  find_entry-below i first [] r h = refl
  find_entry-below i first (e ∷ es) r h =
      let rest = find_entry-below i (suc first) es r.1 (omega arith) in ground (arith, r.0)

  pub find_entry-above :
      (i first : ℕ) (es : List (LogEntry P))
      → Runs first es
      → first + length es ≤ i
      → find_entry i es ≡ none
  find_entry-above i first [] r h = refl
  find_entry-above i first (e ∷ es) r h =
      let rest = find_entry-above i (suc first) es r.1 (omega arith) in ground (arith, r.0)

  pub find_entry-Runs :
      (i first : ℕ) (es : List (LogEntry P))
      → Runs first es
      → find_entry i es ≡ (if leb first i then get_elem? es (i - first) else none)
  find_entry-Runs i first [] r = ground arith
  find_entry-Runs i first (e ∷ es) r =
      let rest = find_entry-Runs i (suc first) es r.1 in
      elim (Bool-cases (e.id.index == i)) [
        | inl h ↦ let z : i - first ≡ 0 = ground (arith, r.0) in ground (arith, r.0)
        | inr h ↦ elim (Bool-cases (leb first i)) [
          | inl a ↦
              let z : i - first ≡ suc (i - suc first) = ground (arith, r.0) in ground (arith, r.0)
          | inr a ↦ ground (arith, r.0)
        ]
      ]

  pub last_or-Runs :
      (first : ℕ) (e : LogEntry P) (es : List (LogEntry P))
      → Runs first (e ∷ es)
      → (last_or e es).id.index ≡ first + length es
  last_or-Runs first e [] r = omega (arith, r.0)
  last_or-Runs first e (d ∷ ds) r = omega (arith, last_or-Runs (suc first) d ds r.1)

  pub get_elem?-beyond : (es : List (LogEntry P)) (i : ℕ) → length es ≤ i → get_elem? es i ≡ none
  get_elem?-beyond [] i h = refl
  get_elem?-beyond (e ∷ es) zero h = absurd (omega arith)
  get_elem?-beyond (e ∷ es) (suc i) h = get_elem?-beyond es i (omega arith)

  capped :
      (i first : ℕ) (e : LogEntry P) (es : List (LogEntry P))
      → (if leb first i && leb i (first + length es) then get_elem? (e ∷ es) (i - first) else none)
        ≡ (if leb first i then get_elem? (e ∷ es) (i - first) else none)
  capped i first e es = elim (Bool-cases (leb first i)) [
    | inl a ↦ elim (Bool-cases (leb i (first + length es))) [
      | inl b ↦ rw (a, b)
      | inr b ↦ rw (a, b) (sym (get_elem?-beyond (e ∷ es) (i - first) (ground arith)))
    ]
    | inr a ↦ rw a
  ]

  pub from_memory-Runs :
      (i first : ℕ) (es : List (LogEntry P)) → Runs first es → from_memory es i ≡ find_entry i es
  unfolding from_memory
  from_memory-Runs i first [] r = refl
  from_memory-Runs i first (e ∷ es) r =
      let own : Runs e.id.index (e ∷ es) = (refl, rw r.0 r.1) in
      rw (find_entry-Runs i e.id.index (e ∷ es) own, last_or-Runs e.id.index e es own, from_memory)
        (cap i e)
    where
      cap :
          (i : ℕ) (e : LogEntry P)
          → (if leb e.id.index i && leb i (e.id.index + length es)
              then get_elem? (e ∷ es) (i - e.id.index)
              else none)
            ≡ (if leb e.id.index i then get_elem? (e ∷ es) (i - e.id.index) else none)
      cap i e = capped i e.id.index e es

-- The entries in memory count up and end with the last index.
pub record Memory {P : Type 0} (es : List (LogEntry P)) (last : ℕ) : Type 0 where
  pub start : ℕ
  pub runs : Runs start es
  pub ends : start + length es ≡ last + 1

module _ {P : Type 0} where
  -- Trimming the back leaves the entries up to `k` where they are.
  pub find_entry-trim :
      (i k : ℕ) (es : List (LogEntry P))
      → i ≤ k
      → find_entry i (drop_while_end (λ e. ltb k e.id.index) es) ≡ find_entry i es
  find_entry-trim i k [] h = refl
  find_entry-trim i k (e ∷ es) h =
      rw⁻¹ (find_entry-trim i k es h) (at_front (drop_while_end (λ d. ltb k d.id.index) es))
    where
      at_front :
          (ds : List (LogEntry P))
          → find_entry i (trim_front (λ d. ltb k d.id.index) e ds) ≡ find_entry i (e ∷ ds)
      at_front [] = ground arith
      at_front (d ∷ ds) = refl

  pub Memory-trim :
      (es : List (LogEntry P)) (last k : ℕ)
      → Memory es last
      → k ≤ last
      → Memory (drop_while_end (λ e. ltb k e.id.index) es) k
  Memory-trim es last k m h =
      rw (drop_while_end-Runs k m.start es m.runs) (elim (Bool-cases (leb m.start (k + 1))) [
        | inl a ↦ record {
          start = m.start;
          runs = Runs-take (k + 1 - m.start) m.start es m.runs;
          ends = ground (arith, m.ends, length-take (k + 1 - m.start) es);
        }
        | inr a ↦
            let n : k + 1 - m.start ≡ 0 = ground arith in
            rw n (record { start = k + 1; runs = tt; ends = omega arith })
      ])

  pub Memory-append :
      (es fs : List (LogEntry P)) (last : ℕ)
      → Memory es last
      → Runs (last + 1) fs
      → Memory (es ++ fs) (last + length fs)
  Memory-append es fs last m r = record {
    start = m.start;
    runs = Runs-append m.start es fs m.runs (rw m.ends r);
    ends = omega (arith, m.ends, length-append es fs);
  }

module _ {P S D W : Type 0} ⦃s : LogStorage P S⦄ where
  -- The manager with other entries in memory and another last index.
  abbrev pub with_log : LogManager P S D W → List (LogEntry P) → ℕ → LogManager P S D W
  with_log lm es last = record lm { logs_in_memory = es; last_log_index = last }

  same_term :
      (lm : LogManager P S D W) (es : List (LogEntry P)) (last i : ℕ)
      → i ≤ lm.last_log_index
      → i ≤ last
      → from_memory es i ≡ from_memory lm.logs_in_memory i
      → unsafe_get_term (with_log lm es last) i ≡ unsafe_get_term lm i
  unfolding unsafe_get_term get_entry_from_memory
  same_term lm es last i h k e = rw e (ground arith)

  pub trim_term :
      (lm : LogManager P S D W) (k i : ℕ)
      → Memory lm.logs_in_memory lm.last_log_index
      → i ≤ k
      → k ≤ lm.last_log_index
      → unsafe_get_term (with_log lm (drop_while_end (λ e. ltb k e.id.index) lm.logs_in_memory) k) i
        ≡ unsafe_get_term lm i
  trim_term lm k i m h l =
      let trimmed = Memory-trim lm.logs_in_memory lm.last_log_index k m l in
      same_term lm (drop_while_end (λ e. ltb k e.id.index) lm.logs_in_memory) k i (omega arith) h (
        from_memory-Runs i trimmed.start (drop_while_end (λ e. ltb k e.id.index) lm.logs_in_memory)
          trimmed.runs
        ∙ find_entry-trim i k lm.logs_in_memory h
        ∙ sym (from_memory-Runs i m.start lm.logs_in_memory m.runs))

  pub append_term :
      (lm : LogManager P S D W) (fs : List (LogEntry P)) (i : ℕ)
      → Memory lm.logs_in_memory lm.last_log_index
      → Runs (lm.last_log_index + 1) fs
      → i ≤ lm.last_log_index
      → unsafe_get_term (with_log lm (lm.logs_in_memory ++ fs) (lm.last_log_index + length fs)) i
        ≡ unsafe_get_term lm i
  append_term lm fs i m r h =
      let all = Memory-append lm.logs_in_memory fs lm.last_log_index m r in
      same_term lm (lm.logs_in_memory ++ fs) (lm.last_log_index + length fs) i h (omega arith) (
        from_memory-Runs i all.start (lm.logs_in_memory ++ fs) all.runs
        ∙ find_entry-append i lm.logs_in_memory fs
        ∙ rw (find_entry-below i (lm.last_log_index + 1) fs r (omega arith))
            (or_none (find_entry i lm.logs_in_memory))
        ∙ sym (from_memory-Runs i m.start lm.logs_in_memory m.runs))
    where
      or_none : (x : Option (LogEntry P)) → or_else x none ≡ x
      or_none none = refl
      or_none (some e) = refl

  -- An entry that is appended is answered with its term.
  pub appended_term :
      (lm : LogManager P S D W) (fs : List (LogEntry P)) (i : ℕ) (d : LogEntry P)
      → Memory lm.logs_in_memory lm.last_log_index
      → Runs (lm.last_log_index + 1) fs
      → lm.first_log_index ≤ lm.last_log_index + 1
      → lm.virtual_first_log_id.index ≤ lm.last_log_index
      → lm.last_snapshot_id.index ≤ lm.last_log_index
      → find_entry i fs ≡ some d
      → lm.last_log_index < i
      → i ≤ lm.last_log_index + length fs
      → unsafe_get_term (with_log lm (lm.logs_in_memory ++ fs) (lm.last_log_index + length fs)) i
        ≡ d.id.term
  unfolding unsafe_get_term get_entry_from_memory
  appended_term lm fs i d m r first virtual snapshot found lo hi =
      let all = Memory-append lm.logs_in_memory fs lm.last_log_index m r in
      let absent : find_entry i lm.logs_in_memory ≡ none =
        find_entry-above i m.start lm.logs_in_memory m.runs (omega (arith, m.ends)) in
      let here : from_memory (lm.logs_in_memory ++ fs) i ≡ some d =
        from_memory-Runs i all.start (lm.logs_in_memory ++ fs) all.runs
        ∙ find_entry-append i lm.logs_in_memory fs
        ∙ rw (absent, found) refl in
      rw here (ground arith)
