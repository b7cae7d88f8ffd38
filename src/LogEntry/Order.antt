-- ===== src/LogEntry/Order.antt =====
-- The comparisons of `LogId` are one total order, by term first.
use quorumkit.Prelude.{◌≡◌, ◌↔◌, ◌⊎◌, true, false, not, ◌<◌, ◌≤◌, arith}
use quorumkit.LogEntry.{LogId, id_eq, id_ne, id_lt, id_gt, id_le, id_ge, id_min}

-- The six comparisons agree: `==` is equality and `!=` its complement, exactly one of less, equal
-- and greater holds, `<=` is the complement of greater and `>=` that of less, less is transitive, and `a >= b` says that `a` has the later term, or the same term
-- and is at least as long: Raft's "at least as up-to-date".
pub id_order :
    (a b c : LogId)
    → ((id_eq a b ≡ true) ↔ (a ≡ b))
      × (id_ne a b ≡ not (id_eq a b))
      × (id_gt a b ≡ id_lt b a)
      × (id_le a b ≡ not (id_gt a b))
      × (id_ge a b ≡ not (id_lt a b))
      × ((id_lt a b ≡ true) ⊎ (id_eq a b ≡ true) ⊎ (id_lt b a ≡ true))
      × (id_lt a b ≡ true → (id_eq a b ≡ false) × (id_lt b a ≡ false))
      × (id_lt a b ≡ true → id_lt b c ≡ true → id_lt a c ≡ true)
      × ((id_ge a b ≡ true) ↔ ((b.term < a.term) ⊎ ((b.term ≡ a.term) × (b.index ≤ a.index))))
      × (id_le a b ≡ id_ge b a)
unfolding id_eq id_ne id_lt id_gt id_le id_ge
id_order a b c = ground arith

-- `std::min` of two identifiers is one of them and not after either.
pub id_min_lem :
    (a b : LogId)
    → (id_le (id_min a b) a ≡ true)
      × (id_le (id_min a b) b ≡ true)
      × ((id_min a b ≡ a) ⊎ (id_min a b ≡ b))
unfolding id_le id_min
id_min_lem a b = ground arith
