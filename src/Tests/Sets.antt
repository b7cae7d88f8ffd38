-- ===== src/Tests/Sets.antt =====
-- Configurations and log identifiers.
use quorumkit.Prelude.{not, ℕ, ◌≡◌, ◌↔◌, ◌⊎◌, ◌<◌, ◌≤◌, true, false, List, [], ◌∷◌, arith}
use quorumkit.LogEntry.{LogId, id_eq, id_ne, id_lt, id_gt, id_le, id_ge, id_min}
use quorumkit.LogEntry.Order.{id_order, id_min_lem}
use quorumkit.Configuration.{equals, contains}
use quorumkit.Configuration.Set.{IsSorted}
use quorumkit.Configuration.Equals.{equals_iff}
use quorumkit.Tests.{number_peer, three}

abbrev others : List ℕ
others = 2 ∷ 4 ∷ []

three-IsSorted : IsSorted three
three-IsSorted = ground arith

others-IsSorted : IsSorted others
others-IsSorted = ground arith

equals_iff_example : (equals three others ≡ true) ↔ ((q : ℕ) → contains three q ≡ contains others q)
equals_iff_example = equals_iff three others three-IsSorted others-IsSorted

abbrev short_log : LogId
short_log = record { index = 9; term = 2 }

abbrev new_log : LogId
new_log = record { index = 4; term = 3 }

abbrev long_log : LogId
long_log = record { index = 7; term = 3 }

id_order_example :
    ((id_eq short_log new_log ≡ true) ↔ (short_log ≡ new_log))
    × (id_ne short_log new_log ≡ not (id_eq short_log new_log))
    × (id_gt short_log new_log ≡ id_lt new_log short_log)
    × (id_le short_log new_log ≡ not (id_gt short_log new_log))
    × (id_ge short_log new_log ≡ not (id_lt short_log new_log))
    × ((id_lt short_log new_log ≡ true)
        ⊎ (id_eq short_log new_log ≡ true)
        ⊎ (id_lt new_log short_log ≡ true))
    × (id_lt short_log new_log ≡ true
        → (id_eq short_log new_log ≡ false) × (id_lt new_log short_log ≡ false))
    × (id_lt short_log new_log ≡ true
        → id_lt new_log long_log ≡ true
        → id_lt short_log long_log ≡ true)
    × ((id_ge short_log new_log ≡ true) ↔ ((3 < 2) ⊎ ((new_log.term ≡ short_log.term) × (4 ≤ 9))))
    × (id_le short_log new_log ≡ id_ge new_log short_log)
id_order_example = id_order short_log new_log long_log

id_min_lem_example :
    (id_le (id_min short_log new_log) short_log ≡ true)
    × (id_le (id_min short_log new_log) new_log ≡ true)
    × ((id_min short_log new_log ≡ short_log) ⊎ (id_min short_log new_log ≡ new_log))
id_min_lem_example = id_min_lem short_log new_log
