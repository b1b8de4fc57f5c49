-- ===== src/Math/Exchange/Laws.antt =====
-- The exchange rates: what is rounded which way, and that the pool does not lose by it.
use solana_dex_amm.Result.{ok, panic}
use solana_dex_amm.Math.Exchange.{
  InvariantToken, ceiling, exchange, exchange_coin_to_pc, exchange_pc_to_coin,
  exchange_pool_to_token, exchange_token_to_pool, floor,
}
use solana_dex_amm.Math.CeilDiv.Laws.{checked_ceil_div-rounded, checked_ceil_div_lem, rounded}
use solana_dex_amm.Words.{Uint}
use solana_dex_amm.Words.Laws.{uint_laws}
use solana_dex_amm.Prelude.{
  arith, if◌then◌else◌, ltb, ℕ, ◌*◌, ◌+◌, ◌-◌, ◌/◌, ◌<◌, ◌==◌, ◌^◌, ◌≡◌, ◌≤◌,
}
use solana_dex_amm.Prelude.Arith.{div-mul-le, mul-lt_u128, mul-sub-add}
use native.Mathlib.Nat.{div-le_of_le-mul}

module _ ⦃u : Uint 128⦄ (amount numerator denominator : ℕ) where
  pub exchange_floor :
      amount < 2 ^ 64
      → numerator < 2 ^ 64
      → exchange amount numerator denominator floor ≡ (
          if denominator == 0
          then panic
          else if ltb (amount * numerator / denominator) (2 ^ 64)
          then ok (amount * numerator / denominator)
          else panic)
  unfolding exchange
  exchange_floor h k = simp uint_laws (ground (arith, mul-lt_u128 amount numerator))

  pub exchange_ceiling :
      amount < 2 ^ 64
      → numerator < 2 ^ 64
      → denominator < 2 ^ 64
      → exchange amount numerator denominator ceiling ≡ (
          if denominator == 0
          then panic
          else if ltb (rounded (amount * numerator) denominator) (2 ^ 64)
          then ok (rounded (amount * numerator) denominator)
          else panic)
  unfolding exchange
  exchange_ceiling h k d = simp uint_laws (
      ground (
        arith,
        mul-lt_u128 amount numerator,
        checked_ceil_div_lem (amount * numerator) denominator,
        checked_ceil_div-rounded (amount * numerator) denominator,
      ))

  pub exchange_floor_lem :
      {r : ℕ}
      → amount < 2 ^ 64
      → numerator < 2 ^ 64
      → exchange amount numerator denominator floor ≡ ok r
      → (0 < denominator) × (r ≡ amount * numerator / denominator) × (r < 2 ^ 64)
  exchange_floor_lem h k e = ground (arith, exchange_floor h k)

  pub exchange_ceiling_lem :
      {r : ℕ}
      → amount < 2 ^ 64
      → numerator < 2 ^ 64
      → denominator < 2 ^ 64
      → exchange amount numerator denominator ceiling ≡ ok r
      → (0 < denominator) × (r ≡ rounded (amount * numerator) denominator) × (r < 2 ^ 64)
  exchange_ceiling_lem h k d e = ground (arith, exchange_ceiling h k d)

-- On amounts of 64 bits, converting an amount of coin to pc, rounded down, and the result back,
-- rounded down, gives at most the amount, where both conversions succeed.
pub exchange_there_and_back :
    ⦃u : Uint 128⦄ (self : InvariantToken) (amount : ℕ) {pc coin : ℕ}
    → amount < 2 ^ 64
    → self.token_coin < 2 ^ 64
    → self.token_pc < 2 ^ 64
    → exchange_coin_to_pc self amount floor ≡ ok pc
    → exchange_pc_to_coin self pc floor ≡ ok coin
    → coin ≤ amount
unfolding exchange_coin_to_pc exchange_pc_to_coin
exchange_there_and_back self amount {pc = pc} h hc hp e1 e2 =
    let C = self.token_coin in
    let P = self.token_pc in
    let (C_pos, down, fits) = exchange_floor_lem amount P C h hp e1 in
    let (P_pos, back, _) = exchange_floor_lem pc C P fits hc e2 in
    let small : pc * C ≤ amount * P = rw down (div-mul-le (amount * P) C) in
    rw back (div-le_of_le-mul P (omega arith))

-- A deposit of one token of 64 bits into a pool with LP tokens of 64 bits never makes the LP tokens
-- that exist worth less of it: with the amount that it mints, rounded down, the pool's amount for
-- each LP token does not fall.
pub deposit_keeps_share :
    ⦃u : Uint 128⦄ (deposited total lp_amount : ℕ) {minted : ℕ}
    → deposited < 2 ^ 64
    → lp_amount < 2 ^ 64
    → exchange_token_to_pool
        (record { token_input = deposited; token_total = total })
        lp_amount
        floor
      ≡ ok minted
    → total * (lp_amount + minted) ≤ (total + deposited) * lp_amount
unfolding exchange_token_to_pool
deposit_keeps_share deposited total lp_amount h k e =
    let (_, minted_eq, _) = exchange_floor_lem lp_amount deposited total k h e in
    omega (arith, rw (← minted_eq) at (div-mul-le (lp_amount * deposited) total))

-- A withdrawal of at most all LP tokens, on 64 bits, pays out at most what the pool has, rounded
-- down, and the pool's amount for each LP token that remains does not fall.
pub withdraw_keeps_share :
    ⦃u : Uint 128⦄ (amount lp_amount total : ℕ) {out : ℕ}
    → amount ≤ lp_amount
    → lp_amount < 2 ^ 64
    → total < 2 ^ 64
    → exchange_pool_to_token (record { token_input = amount; token_total = lp_amount }) total floor
      ≡ ok out
    → (out ≤ total) × (total * (lp_amount - amount) ≤ (total - out) * lp_amount)
unfolding exchange_pool_to_token
withdraw_keeps_share amount lp_amount total {out = out} le h k e =
    let (pos, out_eq, _) = exchange_floor_lem total amount lp_amount k (omega arith) e in
    let paid : out * lp_amount ≤ total * amount =
      rw out_eq (div-mul-le (total * amount) lp_amount) in
    let most : out ≤ total = rw out_eq (div-le_of_le-mul lp_amount (grind arith)) in
    (
      most,
      omega (arith, mul-sub-add total lp_amount amount le, mul-sub-add lp_amount total out most),
    )
