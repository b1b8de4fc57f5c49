-- ===== src/Math/Lots.antt =====
-- program/src/math.rs: rounding to lots, the order sizes at a price, and the Fibonacci distances of
-- `Calculator`. The crate is built with overflow checks, so an overflow of `+` is a panic.
pub mod Laws
use solana_dex_amm.Words.Std
use solana_dex_amm.Result.{Result, ok, unwrap, unwrap_ok, ◌>>=◌}
use solana_dex_amm.Math.CeilDiv.{checked_ceil_div_u128}
use solana_dex_amm.Math.Decimal.{to_u64}
use solana_dex_amm.State.Amm.{AmmInfo}
use solana_dex_amm.Words.{Uint}
use solana_dex_amm.Prelude.{
  List, [], get_elem?, if◌then◌else◌, suc, zero, ℕ, ◌++◌, ◌+◌, ◌-◌, ◌==◌, ◌∷◌,
}

unfoldable pub floor_lot : ℕ → ℕ → Result ℕ
floor_lot val lot_size = do
  unit ← unwrap (Std.checked_div val lot_size)
  unwrap (Std.checked_mul 64 unit lot_size)

unfoldable pub ceil_lot : ℕ → ℕ → Result ℕ
unfolding to_u64
ceil_lot val lot_size = do
  (unit, _) ← unwrap (checked_ceil_div_u128 val lot_size)
  narrow ← unwrap_ok (to_u64 unit)
  unwrap (Std.checked_mul 64 narrow lot_size)

module _ ⦃u : Uint 128⦄ where
  -- x / (1.0025 * price) - y, for a fee of 25 in 10000
  unfoldable pub get_max_buy_size_at_price : ℕ → ℕ → ℕ → AmmInfo → Result ℕ
  unfolding to_u64
  get_max_buy_size_at_price price x y amm = do
    fee_sum ←
        unwrap (Std.checked_add 64 amm.fees.trade_fee_denominator amm.fees.trade_fee_numerator)
    scaled ← unwrap (u.checked_mul price fee_sum)
    price_with_fee ← unwrap (u.checked_div scaled amm.fees.trade_fee_denominator)
    funds ← unwrap (u.checked_mul x amm.sys_decimal_value)
    max_size ← unwrap (u.checked_div funds price_with_fee)
    narrow ← unwrap (u.as_u128 (u.saturating_sub max_size y))
    unwrap_ok (to_u64 narrow)

  -- y - x / (price / 1.0025)
  unfoldable pub get_max_sell_size_at_price : ℕ → ℕ → ℕ → AmmInfo → Result ℕ
  unfolding to_u64
  get_max_sell_size_at_price price x y amm = do
    scaled ← unwrap (u.checked_mul price amm.fees.trade_fee_denominator)
    fee_sum ←
        unwrap (Std.checked_add 64 amm.fees.trade_fee_denominator amm.fees.trade_fee_numerator)
    price_with_fee ← unwrap (u.checked_div scaled fee_sum)
    funds ← unwrap (u.checked_mul x amm.sys_decimal_value)
    second_part ← unwrap (u.checked_div funds price_with_fee)
    narrow ← unwrap (u.as_u128 (u.saturating_sub y second_part))
    unwrap_ok (to_u64 narrow)

-- the element that round `i` of the loop pushes
next_fibonacci : ℕ → List ℕ → Result ℕ
next_fibonacci i fb = if i == 0 then ok 0 else if i == 1 then ok 1 else if i == 2 then ok 2 else (do
  one_back ← unwrap (get_elem? fb (i - 1))
  two_back ← unwrap (get_elem? fb (i - 2))
  unwrap (Std.checked_add 64 one_back two_back))

-- the rounds that are left, and the round that comes
fibonacci_loop : ℕ → ℕ → List ℕ → Result (List ℕ)
fibonacci_loop zero i fb = ok fb
fibonacci_loop (suc left) i fb = do
  ret ← next_fibonacci i fb
  fibonacci_loop left (i + 1) (fb ++ (ret ∷ []))

unfoldable pub fibonacci : ℕ → Result (List ℕ)
unfolding fibonacci_loop next_fibonacci
fibonacci order_num = fibonacci_loop order_num 0 []
