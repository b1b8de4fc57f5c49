-- ===== src/Tests/Swap.antt =====
-- Runs of the swaps of program/src/math.rs.
use solana_dex_amm.Result.{ok, panic}
use solana_dex_amm.Math.Swap.{
  coin2_pc, pc2_coin, swap_token_amount_base_in, swap_token_amount_base_out,
}
use solana_dex_amm.Math.Swap.BaseOut.{base_out_covers, base_out_free_iff, base_out_panics}
use solana_dex_amm.Math.Swap.BaseIn.{base_in_best, base_in_keeps_product, swap_and_back}
use solana_dex_amm.Words.Instance.{std_uint}
use solana_dex_amm.Prelude.{arith, ℕ, ◌*◌, ◌+◌, ◌-◌, ◌<◌, ◌↔◌, ◌≡◌, ◌≤◌}

base_in_keeps_product_example :
    (out : ℕ) × (swap_token_amount_base_in ⦃u = std_uint 128⦄ 1000 1000000 2000000 coin2_pc
      ≡ ok out)
    × (out < 1000000)
    × (2000000 * 1000000 ≤ (2000000 + 1000) * (1000000 - out))
base_in_keeps_product_example =
    base_in_keeps_product ⦃u = std_uint 128⦄ 1000 1000000 2000000 coin2_pc (omega arith)
      (omega arith) (omega arith) (omega arith) (omega arith)

base_in_best_example :
    (out : ℕ) × (swap_token_amount_base_in ⦃u = std_uint 128⦄ 1000 1000000 2000000 coin2_pc
      ≡ ok out)
    × (499 ≤ out)
base_in_best_example =
    base_in_best ⦃u = std_uint 128⦄ 1000 1000000 2000000 coin2_pc 499 (omega arith) (omega arith)
      (omega arith) (omega arith) (omega arith) (omega arith)

swap_and_back_example :
    (out back : ℕ) × (swap_token_amount_base_in ⦃u = std_uint 128⦄ 1000 1000000 2000000 pc2_coin
      ≡ ok out)
    × (swap_token_amount_base_in ⦃u = std_uint 128⦄ out (1000000 + 1000) (2000000 - out) coin2_pc
        ≡ ok back)
    × (back ≤ 1000)
swap_and_back_example =
    swap_and_back ⦃u = std_uint 128⦄ 1000 1000000 2000000 pc2_coin (omega arith) (omega arith)
      (omega arith) (omega arith) (omega arith)

base_out_covers_example :
    (in_amount : ℕ) × (swap_token_amount_base_out ⦃u = std_uint 128⦄ 499 1000000 2000000 coin2_pc
      ≡ ok in_amount)
    × (2000000 * 1000000 ≤ (2000000 + in_amount) * (1000000 - 499))
    × ((2000000 + in_amount) * (1000000 - 499) < 2000000 * 1000000 + (1000000 - 499))
base_out_covers_example =
    base_out_covers ⦃u = std_uint 128⦄ 499 1000000 2000000 coin2_pc (omega arith) (omega arith)
      (omega arith) (omega arith)

base_out_free_iff_example :
    (swap_token_amount_base_out ⦃u = std_uint 128⦄ 3 1000000 100000 coin2_pc ≡ ok 0)
    ↔ (100000 * 3 * 2 < 1000000 - 3)
base_out_free_iff_example =
    base_out_free_iff ⦃u = std_uint 128⦄ 3 1000000 100000 coin2_pc (omega arith) (omega arith)
      (omega arith)

base_out_panics_example :
    swap_token_amount_base_out ⦃u = std_uint 128⦄ 1000000 1000000 100000 coin2_pc ≡ panic
base_out_panics_example =
    base_out_panics ⦃u = std_uint 128⦄ 1000000 1000000 100000 coin2_pc (omega arith) (omega arith)
      (omega arith)
