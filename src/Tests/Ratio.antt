-- ===== src/Tests/Ratio.antt =====
-- Runs of the division, the conversions and the exchange rates of program/src/math.rs.
use solana_dex_amm.Result.{ok}
use solana_dex_amm.Math.CeilDiv.{checked_ceil_div, checked_ceil_div_u128}
use solana_dex_amm.Math.Exchange.{
  exchange, exchange_coin_to_pc, exchange_pc_to_coin, exchange_pool_to_token,
  exchange_token_to_pool,
}
use solana_dex_amm.Math.Decimal.{normalize_decimal_v2, restore_decimal}
use solana_dex_amm.Math.CeilDiv.Laws.{checked_ceil_div-eq-u128, checked_ceil_div_lem}
use solana_dex_amm.Math.Decimal.Laws.{restore-normalize}
use solana_dex_amm.Math.Exchange.Laws.{
  deposit_keeps_share, exchange_there_and_back, withdraw_keeps_share,
}
use solana_dex_amm.Words.Instance.{std_uint}
use solana_dex_amm.Prelude.{arith, refl, some, ℕ, ◌*◌, ◌+◌, ◌-◌, ◌<◌, ◌^◌, ◌≡◌, ◌≤◌}

checked_ceil_div_lem_example : checked_ceil_div ⦃u = std_uint 128⦄ 7 10 ≡ some (1, 0)
checked_ceil_div_lem_example = checked_ceil_div_lem ⦃u = std_uint 128⦄ 7 10 (omega arith)

checked_ceil_div-eq-u128_example :
    checked_ceil_div ⦃u = std_uint 128⦄ 10 4 ≡ checked_ceil_div_u128 10 4
checked_ceil_div-eq-u128_example = checked_ceil_div-eq-u128 ⦃u = std_uint 128⦄ 10 4

exchange_there_and_back_example : 100 ≤ 101
unfolding exchange_coin_to_pc exchange_pc_to_coin exchange
exchange_there_and_back_example =
    exchange_there_and_back ⦃u = std_uint 128⦄ (record { token_coin = 200; token_pc = 100 }) 101
      {pc = 50} {coin = 100} (omega arith) (omega arith) (omega arith) refl refl

deposit_keeps_share_example : 300 * (1000 + 333) ≤ (300 + 100) * 1000
unfolding exchange_token_to_pool exchange
deposit_keeps_share_example =
    deposit_keeps_share ⦃u = std_uint 128⦄ 100 300 1000 {minted = 333} (omega arith) (omega arith)
      refl

withdraw_keeps_share_example : (99 ≤ 300) × (300 * (1000 - 333) ≤ (300 - 99) * 1000)
unfolding exchange_pool_to_token exchange
withdraw_keeps_share_example =
    withdraw_keeps_share ⦃u = std_uint 128⦄ 333 1000 300 {out = 99} (omega arith) (omega arith)
      (omega arith) refl

restore-normalize_example :
    (x y : ℕ) × (normalize_decimal_v2 ⦃u = std_uint 128⦄ 12345 9 1000000 ≡ ok x)
    × (restore_decimal ⦃u = std_uint 128⦄ x 9 1000000 ≡ ok y)
    × (y ≤ 12345)
    × (12345 * 1000000 < y * 1000000 + 1000000 + 10 ^ 9)
restore-normalize_example =
    restore-normalize ⦃u = std_uint 128⦄ 12345 9 1000000 (omega arith) (omega arith) (omega arith)
      (omega arith)
