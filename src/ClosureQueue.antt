-- ===== src/ClosureQueue.antt =====
-- src/braft/closure_queue.cpp: the closures of the log entries that a leader has not applied yet, in
-- the order of their indexes. A `Closure*` is an option, `none` for NULL. A CHECK that fails logs,
-- and what stands after it runs.
pub mod Order
use quorumkit.Prelude.{
  ℕ, zero, suc, ◌+◌, ◌-◌, ◌||◌, Bool, true, false, List, [], ◌∷◌, ◌++◌, Option, none, some, ltb,
  if◌then◌else◌, length,
}
use quorumkit.Errno.{Code, ok, minus_one}

pub record ClosureQueue (C : Type 0) : Type 0 where
  pub first_index : ℕ
  pub queue : List (Option C)

-- What `pop_closure_until` returns, and leaves in `*out` and `*out_first_index` (`none` if it does
-- not write the latter).
pub record Popped (C : Type 0) : Type 0 where
  pub code : Code
  pub out : List (Option C)
  pub out_first_index : Option ℕ
  pub rest : ClosureQueue C

module _ {C : Type 0} where
  abbrev pub is_empty : List (Option C) → Bool
  is_empty [] = true
  is_empty (c ∷ cs) = false

  unfoldable pub new_queue : ClosureQueue C
  new_queue = record { first_index = 0; queue = [] }

  -- The closures that are not NULL, in order: each is run with the error EPERM.
  pub to_run : List (Option C) → List C
  to_run [] = []
  to_run (none ∷ cs) = to_run cs
  to_run (some c ∷ cs) = c ∷ to_run cs

  -- The queue after the call, and the closures that the call runs.
  unfoldable pub clear : ClosureQueue C → ClosureQueue C × List C
  unfolding to_run
  clear q = (record { first_index = 0; queue = [] }, to_run q.queue)

  -- `CHECK(_queue.empty())` only logs.
  unfoldable pub reset_first_index : ClosureQueue C → ℕ → ClosureQueue C
  reset_first_index q first_index = record q { first_index = first_index }

  unfoldable pub append_pending_closure : ClosureQueue C → Option C → ClosureQueue C
  append_pending_closure q c = record q { queue = q.queue ++ (c ∷ []) }

  -- The loop: `n` times, `push_back` the front to `out` and `pop_front`.
  pub move_front : ℕ → List (Option C) → List (Option C) → List (Option C) × List (Option C)
  move_front zero out queue = (out, queue)
  move_front (suc n) out [] = (out, [])
  move_front (suc n) out (c ∷ queue) = move_front n (out ++ (c ∷ [])) queue

  unfoldable pub pop_closure_until : ClosureQueue C → ℕ → Popped C
  pop_closure_until q index =
      if is_empty q.queue || ltb index q.first_index
      then record { code = ok; out = []; out_first_index = some (index + 1); rest = q }
      else if ltb (q.first_index + length q.queue - 1) index
      then record { code = minus_one; out = []; out_first_index = none; rest = q }
      else (let (out, queue) = move_front (index + 1 - q.first_index) [] q.queue in
          record {
            code = ok;
            out = out;
            out_first_index = some q.first_index;
            rest = record { first_index = index + 1; queue = queue };
          })
