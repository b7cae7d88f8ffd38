-- ===== src/LogManager/Conflict.antt =====
-- A follower's log after `append_entries`: the terms of the leader's entries are read back, and the
-- entries before them stay.
use quorumkit.Prelude.{
  ℕ, suc, ◌+◌, ◌≤◌, ◌<◌, ◌≡◌, ◌⊎◌, refl, ap, ◌∙◌, inl, inr, List, [], ◌∷◌, ◌++◌, ltb, ◌==◌, length,
  drop_while_end, arith, Bool-cases,
}
use quorumkit.LogEntry.{LogEntry}
use quorumkit.LogStorage.{LogStorage}
use quorumkit.LogManager.{LogManager, get_entry_from_memory, unsafe_get_term}
use quorumkit.LogManager.Write.{from_conflict}
use quorumkit.LogManager.Terms.{
  find_entry, Memory, Memory-trim, Memory-append, with_log, append_term, appended_term,
}
use quorumkit.MemoryLog.Valid.{Runs}

module _ {P S D W : Type 0} ⦃s : LogStorage P S⦄ where
  -- Each entry's term is what the manager answers for its index.
  abbrev pub Reads : LogManager P S D W → List (LogEntry P) → Type 0
  Reads lm [] = Unit
  Reads lm (e ∷ es) = (unsafe_get_term lm e.id.index ≡ e.id.term) × Reads lm es

  -- Each entry has a term, and no entry that is applied conflicts.
  abbrev pub Settled : LogManager P S D W → List (LogEntry P) → Type 0
  Settled lm [] = Unit
  Settled lm (e ∷ es) =
      (0 < e.id.term)
      × (e.id.index ≤ lm.applied_id.index → unsafe_get_term lm e.id.index ≡ e.id.term)
      × Settled lm es

  pub record IsValid (lm : LogManager P S D W) : Type 0 where
    pub memory : Memory lm.logs_in_memory lm.last_log_index
    pub virtual_le : lm.virtual_first_log_id.index ≤ lm.last_snapshot_id.index
    pub snapshot_le : lm.last_snapshot_id.index ≤ lm.applied_id.index
    pub first_le : lm.first_log_index ≤ lm.applied_id.index + 1
    pub applied_le : lm.applied_id.index ≤ lm.last_log_index

  -- An index whose term is positive is in the log.
  in_log :
      (lm : LogManager P S D W) (i : ℕ)
      → IsValid lm
      → 0 < unsafe_get_term lm i
      → i ≤ lm.last_log_index
  unfolding unsafe_get_term
  in_log lm i v h = ground (arith, v.virtual_le, v.snapshot_le, v.applied_le)

  -- Where the entries left by `from_conflict` start, and that those before it are read back.
  pub record Split (lm : LogManager P S D W) (b : ℕ) (es rest : List (LogEntry P)) : Type 0 where
    pub at : ℕ
    pub runs : Runs at rest
    pub at_ge : b ≤ at
    pub at_le : at ≤ lm.last_log_index + 1
    pub total : at + length rest ≡ b + length es
    pub open_after : (rest ≡ []) ⊎ (lm.applied_id.index < at)
    pub joins :
        (after : LogManager P S D W)
        → ((i : ℕ) → i < at → unsafe_get_term after i ≡ unsafe_get_term lm i)
        → Reads after rest
        → Reads after es

  pub split :
      (lm : LogManager P S D W) (b : ℕ) (es : List (LogEntry P))
      → IsValid lm
      → Runs b es
      → Settled lm es
      → b ≤ lm.last_log_index + 1
      → Split lm b es (from_conflict lm es)
  unfolding from_conflict
  split lm b [] v r h l = record {
    at = b;
    runs = tt;
    at_ge = omega arith;
    at_le = l;
    total = refl;
    open_after = inl refl;
    joins = λ after same reads. tt;
  }
  split lm b (e ∷ es) v r h l = elim (Bool-cases (unsafe_get_term lm e.id.index == e.id.term)) [
    | inl m ↦
        let here : unsafe_get_term lm e.id.index ≡ e.id.term = ground arith in
        let inside : e.id.index ≤ lm.last_log_index = in_log lm e.id.index v (omega (arith, h.0)) in
        let rest : Split lm (suc b) es (from_conflict lm es) =
          split lm (suc b) es v r.1 h.2 (omega (arith, r.0)) in
        rw (m, from_conflict)
          (record {
            at = rest.at;
            runs = rest.runs;
            at_ge = omega (arith, rest.at_ge);
            at_le = rest.at_le;
            total = omega (arith, rest.total);
            open_after = rest.open_after;
            joins = λ after same reads. (
              same e.id.index (omega (arith, rest.at_ge, r.0)) ∙ here,
              rest.joins after same reads,
            );
          })
    | inr m ↦
        rw (m, from_conflict)
          (record {
            at = b;
            runs = r;
            at_ge = omega arith;
            at_le = l;
            total = refl;
            open_after = inr (ground (arith, h.1, r.0));
            joins = λ after same reads. reads;
          })
  ]

  -- `after` is `lm` with the entries `es` appended, as far as the terms go.
  pub record Appended (lm after : LogManager P S D W) (es : List (LogEntry P)) : Type 0 where
    pub storage_eq : after.storage ≡ lm.storage
    pub virtual_eq : after.virtual_first_log_id ≡ lm.virtual_first_log_id
    pub snapshot_eq : after.last_snapshot_id ≡ lm.last_snapshot_id
    pub applied_eq : after.applied_id ≡ lm.applied_id
    pub first_eq : after.first_log_index ≡ lm.first_log_index
    pub memory_eq : after.logs_in_memory ≡ lm.logs_in_memory ++ es
    pub last_eq : after.last_log_index ≡ lm.last_log_index + length es

  view :
      (lm after : LogManager P S D W) (es : List (LogEntry P)) (i : ℕ)
      → Appended lm after es
      → unsafe_get_term after i
        ≡ unsafe_get_term (with_log lm (lm.logs_in_memory ++ es) (lm.last_log_index + length es)) i
  unfolding unsafe_get_term get_entry_from_memory
  view lm after es i a =
      rw (a.storage_eq, a.virtual_eq, a.snapshot_eq, a.first_eq, a.memory_eq, a.last_eq)

  pub keeps :
      (lm after : LogManager P S D W) (es : List (LogEntry P)) (i : ℕ)
      → Appended lm after es
      → IsValid lm
      → Runs (lm.last_log_index + 1) es
      → i ≤ lm.last_log_index
      → unsafe_get_term after i ≡ unsafe_get_term lm i
  keeps lm after es i a v r h = view lm after es i a ∙ append_term lm es i v.memory r h

  Reads-from :
      (lm after : LogManager P S D W) (es : List (LogEntry P)) (b : ℕ) (fs : List (LogEntry P))
      → Appended lm after es
      → IsValid lm
      → Runs (lm.last_log_index + 1) es
      → Runs b fs
      → lm.last_log_index < b
      → b + length fs ≤ lm.last_log_index + 1 + length es
      → ((i : ℕ) → b ≤ i → find_entry i es ≡ find_entry i fs)
      → Reads after fs
  Reads-from lm after es b [] a v r q l n same = tt
  Reads-from lm after es b (f ∷ fs) a v r q l n same = (
    view lm after es f.id.index a
        ∙ appended_term lm es f.id.index f v.memory r (omega (arith, v.first_le, v.applied_le))
            (omega (arith, v.virtual_le, v.snapshot_le, v.applied_le))
            (omega (arith, v.snapshot_le, v.applied_le))
            (same f.id.index (omega (arith, q.0)) ∙ ground arith) (omega (arith, q.0))
            (omega (arith, q.0)),
    Reads-from lm after es (suc b) fs a v r q.1 (omega arith) (omega arith)
        (λ i h. same i (omega arith) ∙ ground (arith, q.0)),
  )

  pub Appended-IsValid :
      (lm after : LogManager P S D W) (es : List (LogEntry P))
      → Appended lm after es
      → IsValid lm
      → Runs (lm.last_log_index + 1) es
      → IsValid after
  Appended-IsValid lm after es a v r = record {
    memory =
        rw (a.memory_eq, a.last_eq)
          (Memory-append lm.logs_in_memory es lm.last_log_index v.memory r);
    virtual_le = rw (a.virtual_eq, a.snapshot_eq) v.virtual_le;
    snapshot_le = rw (a.snapshot_eq, a.applied_eq) v.snapshot_le;
    first_le = rw (a.first_eq, a.applied_eq) v.first_le;
    applied_le = omega (arith, v.applied_le, a.last_eq, ap (λ x. x.index) a.applied_eq);
  }

  pub reads :
      (lm after : LogManager P S D W) (es : List (LogEntry P))
      → Appended lm after es
      → IsValid lm
      → Runs (lm.last_log_index + 1) es
      → Reads after es
  reads lm after es a v r =
      Reads-from lm after es (lm.last_log_index + 1) es a v r r (omega arith) (omega arith)
        (λ i h. refl)

  -- The follower's log takes the leader's entries `es`, the first of which has the index `b`.
  pub record Takes (lm after : LogManager P S D W) (b : ℕ) (es : List (LogEntry P)) : Type 0 where
    pub takes : Reads after es
    pub before : (i : ℕ) → i < b → unsafe_get_term after i ≡ unsafe_get_term lm i
    pub valid : IsValid after

  abbrev pub cut_at : LogManager P S D W → ℕ → LogManager P S D W
  cut_at lm k = with_log lm (drop_while_end (λ e. ltb k e.id.index) lm.logs_in_memory) k

  pub cut_at-IsValid :
      (lm : LogManager P S D W) (k : ℕ)
      → IsValid lm
      → lm.applied_id.index ≤ k
      → k ≤ lm.last_log_index
      → IsValid (cut_at lm k)
  cut_at-IsValid lm k v a l = record {
    memory = Memory-trim lm.logs_in_memory lm.last_log_index k v.memory l;
    virtual_le = v.virtual_le;
    snapshot_le = v.snapshot_le;
    first_le = v.first_le;
    applied_le = a;
  }

  -- With the entries from the conflict on appended at `last + 1`.
  pub Takes-rest :
      (lm mid after : LogManager P S D W) (b : ℕ) (es rest : List (LogEntry P))
      → (sp : Split lm b es rest) → IsValid mid
      → ((i : ℕ) → i ≤ mid.last_log_index → unsafe_get_term mid i ≡ unsafe_get_term lm i)
      → mid.last_log_index + 1 ≡ sp.at
      → Appended mid after rest
      → Takes lm after b es
  Takes-rest lm mid after b es rest sp v same e a =
      let r : Runs (mid.last_log_index + 1) rest = rw e sp.runs in
      let kept : (i : ℕ) → i < sp.at → unsafe_get_term after i ≡ unsafe_get_term lm i =
        λ i h. keeps mid after rest i a v r (omega arith) ∙ same i (omega arith) in
      record {
        takes = sp.joins after kept (reads mid after rest a v r);
        before = λ i h. kept i (omega (arith, sp.at_ge));
        valid = Appended-IsValid mid after rest a v r;
      }
