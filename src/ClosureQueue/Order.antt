-- ===== src/ClosureQueue/Order.antt =====
-- A pop delivers the closures of consecutive indexes, in order, each once.
use mathlib.Core.List.{append-nil, append_assoc}
use quorumkit.Prelude.{
  ℕ, zero, suc, ◌+◌, ◌-◌, ◌≤◌, ◌<◌, ◌≡◌, ◌≢◌, ◌⊎◌, refl, List, [], ◌∷◌, ◌++◌, Option, none, some,
  length, take, drop, take-append-drop, length-take, length-drop, take-append-take, drop-drop,
  arith,
}
use quorumkit.Errno.{ok, minus_one}
use quorumkit.ClosureQueue.{ClosureQueue, move_front, pop_closure_until}

module _ {C : Type 0} where
  move_front_lem :
      (n : ℕ) (out queue : List (Option C))
      → move_front n out queue ≡ (out ++ take n queue, drop n queue)
  unfolding move_front
  move_front_lem zero out queue = ground (arith, append-nil out)
  move_front_lem (suc n) out [] = ground (arith, append-nil out)
  move_front_lem (suc n) out (c ∷ queue) =
      ground
        (arith, move_front_lem n (out ++ (c ∷ [])) queue, append_assoc out (c ∷ []) (take n queue))

  pub pop_in_range :
      (q : ClosureQueue C) (index : ℕ)
      → q.first_index ≤ index
      → index < q.first_index + length q.queue
      → pop_closure_until q index ≡ record {
        code = ok;
        out = take (index + 1 - q.first_index) q.queue;
        out_first_index = some q.first_index;
        rest = record { first_index = index + 1; queue = drop (index + 1 - q.first_index) q.queue };
      }
  unfolding pop_closure_until
  pop_in_range q index h k = ground (arith, move_front_lem (index + 1 - q.first_index) [] q.queue)

  -- For an index in the queue a pop takes exactly the closures up to it, from the front and in order,
  -- reports the index of the first and leaves the others. Below the queue, and on an empty one, it
  -- takes nothing and reports the next index; above it, it fails, takes nothing and reports no index.
  pub pop_closure_until_lem :
      (q : ClosureQueue C) (index : ℕ)
      → let r = pop_closure_until q index in
        (q.first_index ≤ index
          → index < q.first_index + length q.queue
          → (r.code ≡ ok)
            × (r.out ++ r.rest.queue ≡ q.queue)
            × (length r.out ≡ index + 1 - q.first_index)
            × (r.out_first_index ≡ some q.first_index)
            × (r.rest.first_index ≡ index + 1))
        × (((q.queue ≡ []) ⊎ (index < q.first_index))
            → (r.code ≡ ok) × (r.out ≡ []) × (r.out_first_index ≡ some (index + 1)) × (r.rest ≡ q))
        × (q.queue ≢ []
            → q.first_index + length q.queue ≤ index
            → (r.code ≡ minus_one) × (r.out ≡ []) × (r.out_first_index ≡ none) × (r.rest ≡ q))
  pop_closure_until_lem q index = (
    λ h k. rw (pop_in_range q index h k) (
      refl,
      take-append-drop (index + 1 - q.first_index) q.queue,
      omega (arith, length-take (index + 1 - q.first_index) q.queue),
      refl,
      refl,
    ),
    λ h. unfold pop_closure_until in ground arith,
    λ h k. unfold pop_closure_until in ground arith,
  )

  -- For two indexes of the queue in order, to pop up to the first and then up to the second
  -- delivers the closures that one pop up to the second does, in the same order, and leaves the
  -- same queue.
  pub pop_pop :
      (q : ClosureQueue C) (a b : ℕ)
      → q.first_index ≤ a
      → a < b
      → b < q.first_index + length q.queue
      → ((pop_closure_until q a).out ++ (pop_closure_until (pop_closure_until q a).rest b).out
          ≡ (pop_closure_until q b).out)
        × ((pop_closure_until (pop_closure_until q a).rest b).rest ≡ (pop_closure_until q b).rest)
  pop_pop q a b h k l =
      rw
        (
          pop_in_range q a h (omega arith),
          pop_in_range q b (omega arith) l,
          pop_in_range (record { first_index = a + 1; queue = drop m q.queue }) b (omega arith)
              fits,
          take-append-take m n q.queue,
          drop-drop m n q.queue,
          sum,
        )
        (refl, refl)
    where
      m : ℕ
      m = a + 1 - q.first_index

      n : ℕ
      n = b + 1 - (a + 1)

      sum : m + n ≡ b + 1 - q.first_index
      sum = omega arith

      fits : b < a + 1 + length (drop m q.queue)
      fits = omega (arith, length-drop m q.queue)
