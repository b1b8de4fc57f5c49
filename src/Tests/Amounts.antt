-- ===== src/Tests/Amounts.antt =====
-- Runs of the amounts of the two swaps of program/src/processor.rs.
use solana_dex_amm.Tests.Data.{pool}
use solana_dex_amm.Math.CeilDiv.{checked_ceil_div}
use solana_dex_amm.Math.Swap.{coin2_pc, swap_token_amount_base_in, swap_token_amount_base_out}
use solana_dex_amm.Processor.Swap.{
  Amounts, add_fee, base_in_amounts, base_in_fee, base_out_amounts, total_out,
}
use solana_dex_amm.Processor.Swap.Output.{base_out_amounts-IsFair}
use solana_dex_amm.Processor.Swap.Laws.{IsFair, base_in_amounts-IsFair}
use solana_dex_amm.Words.Instance.{std_uint}
use solana_dex_amm.Prelude.{arith, refl, ◌≡◌, ◌≤◌}

abbrev bought : Amounts
bought = record { swap_fee = 25; amount_in = 10000; amount_out = 4962 }

base_in_amounts-IsFair_example :
    (4000 ≤ 4962) × (bought.amount_in ≡ 10000) × IsFair 20000 2000000 1000000 bought
unfolding base_in_amounts base_in_fee swap_token_amount_base_in checked_ceil_div total_out
base_in_amounts-IsFair_example =
    base_in_amounts-IsFair ⦃u = std_uint 128⦄ pool.fees 20000 1000000 2000000 coin2_pc
      (record { amount_in = 10000; minimum_amount_out = 4000 }) bought (omega arith) (omega arith)
      (omega arith) (omega arith) (omega arith) refl

abbrev paid_for : Amounts
paid_for = record { swap_fee = 25; amount_in = 9999; amount_out = 4962 }

base_out_amounts-IsFair_example :
    (9999 ≤ 10000) × (paid_for.amount_out ≡ 4962) × IsFair 20000 2000000 1000000 paid_for
unfolding base_out_amounts add_fee swap_token_amount_base_out checked_ceil_div total_out
base_out_amounts-IsFair_example =
    base_out_amounts-IsFair ⦃u = std_uint 128⦄ pool.fees 20000 1000000 2000000 coin2_pc
      (record { max_amount_in = 10000; amount_out = 4962 }) paid_for (omega arith) (omega arith)
      refl
