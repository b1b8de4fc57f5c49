-- ===== src/Tests/Pool.antt =====
-- Runs of the pool's totals of program/src/math.rs and of `calc_take_pnl` of program/src/processor.rs.
use solana_dex_amm.Result.{ok}
use solana_dex_amm.Tests.Data.{orders, pool, queue, targets}
use solana_dex_amm.Math.Power.{calc_x_power}
use solana_dex_amm.Math.Decimal.{restore_decimal}
use solana_dex_amm.Math.Vault.{calc_exact_vault_in_serum, calc_total_without_take_pnl}
use solana_dex_amm.Math.Vault.Laws.{calc_exact_vault-counted, calc_total_lem, counted}
use solana_dex_amm.Processor.TakePnl.{
  Taken, book_pnl, calc_take_pnl, pnl_diffs, pnl_share, take_diff,
}
use solana_dex_amm.Processor.TakePnl.Laws.{IsTaken, calc_take_pnl-IsTaken}
use solana_dex_amm.Words.Instance.{sqrt, std_uint}
use solana_dex_amm.Prelude.{refl, some, ℕ, ◌+◌, ◌<◌, ◌^◌, ◌≡◌}

calc_exact_vault-counted_example :
    calc_exact_vault_in_serum orders (some queue) 77
    ≡ calc_exact_vault_in_serum orders (some (counted 77 queue)) 77
calc_exact_vault-counted_example = calc_exact_vault-counted orders queue 77

calc_total_lem_example :
    (in_pc in_coin : ℕ) × (calc_exact_vault_in_serum orders (some queue) 77 ≡ ok (in_pc, in_coin))
    × (1400 + 0 ≡ 1000 + in_pc)
    × (2320 + 0 ≡ 2000 + in_coin)
    × (1400 < 2 ^ 64)
    × (2320 < 2 ^ 64)
unfolding calc_total_without_take_pnl calc_exact_vault_in_serum
calc_total_lem_example =
    calc_total_lem 1000 2000 orders pool (some queue) 77 {total_pc = 1400} {total_coin = 2320} refl

-- what is taken of the pool whose first amount has doubled
abbrev taken : Taken
taken = record {
  delta_x = 70294;
  delta_y = 35147;
  amm = record pool {
    state_data = record (pool.state_data) {
      total_pnl_pc = 585787;
      total_pnl_coin = 292894;
      need_take_pnl_pc = 70294;
      need_take_pnl_coin = 35147;
    };
  };
  total_pc = 1929706;
  total_coin = 964853;
}

calc_take_pnl-IsTaken_example : IsTaken targets pool 2000000 1000000 2000000 1000000 taken
unfolding calc_take_pnl pnl_diffs take_diff pnl_share book_pnl calc_x_power restore_decimal sqrt
calc_take_pnl-IsTaken_example =
    calc_take_pnl-IsTaken ⦃u = std_uint 128⦄ ⦃v = std_uint 256⦄ targets pool 2000000 1000000 2000000
      1000000 taken refl
