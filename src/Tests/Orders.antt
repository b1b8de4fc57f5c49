-- ===== src/Tests/Orders.antt =====
-- A run of the batches of order ids of program/src/processor.rs.
use solana_dex_amm.Result.{ok}
use solana_dex_amm.Processor.Orders.{collect_order_ids}
use solana_dex_amm.Processor.Orders.Laws.{collect_order_ids_lem, in_turn}
use solana_dex_amm.Prelude.{All, List, [], flatten, length, replicate, ℕ, ◌++◌, ◌<◌, ◌∷◌, ◌≡◌}

collect_order_ids_lem_example :
    (arrays : List (List ℕ)) × (zeros : ℕ) × (collect_order_ids (1 ∷ 2 ∷ 3 ∷ []) (11 ∷ [])
      ≡ ok arrays)
    × (zeros < 8)
    × All (λ ids. length ids ≡ 8) arrays
    × (flatten arrays ≡ in_turn (1 ∷ 2 ∷ 3 ∷ []) (11 ∷ []) ++ replicate zeros 0)
collect_order_ids_lem_example = collect_order_ids_lem (1 ∷ 2 ∷ 3 ∷ []) (11 ∷ [])
