-- ===== src/Processor/Monitor/Plan.antt =====
-- program/src/processor.rs: `do_plan_orderbook`. The crate is built with overflow checks, so that `+` and
-- `-` that leave 64 bits are panics.
pub mod Round
use solana_dex_amm.Words.Std
use solana_dex_amm.Result.{Result, checked_empty_funds, err_if, ok, unwrap, ◌>>=◌, ◌>>◌}
use solana_dex_amm.Math.CeilDiv.{checked_ceil_div}
use solana_dex_amm.Math.Lots.{fibonacci}
use solana_dex_amm.Math.Decimal.{normalize_decimal_v2}
use solana_dex_amm.Processor.Monitor.Idle.{with_state}
use solana_dex_amm.Processor.Monitor.Plan.Round.{Grid, plan_rounds}
use solana_dex_amm.State.Target.{TargetOrders}
use solana_dex_amm.State.Amm.{AmmInfo}
use solana_dex_amm.State.Machine.{AmmState}
use solana_dex_amm.Words.{Uint}
use solana_dex_amm.Prelude.{if◌then◌else◌, ltb, not, replicate, ℕ, ◌-◌, ◌==◌, ◌||◌}

module _ ⦃u : Uint 128⦄ where
  -- the prices next to the present one, and the distance
  unfoldable pub grid_of : AmmInfo → (cur_price : ℕ) → Result Grid
  grid_of amm cur_price = do
    fee ← unwrap (Std.checked_add 64 amm.fees.min_separate_numerator amm.fees.trade_fee_numerator)
    less ← unwrap (Std.checked_sub amm.fees.trade_fee_denominator fee)
    bid_product ← unwrap (u.checked_mul cur_price less)
    bid_quotient ← unwrap (u.checked_div bid_product amm.fees.trade_fee_denominator)
    max_bid ← unwrap (u.as_u64 bid_quotient)
    more ← unwrap (Std.checked_add 64 amm.fees.trade_fee_denominator fee)
    ask_product ← unwrap (u.checked_mul cur_price more)
    (ask_quotient, _) ← unwrap (checked_ceil_div ask_product amm.fees.trade_fee_denominator)
    min_ask ← unwrap (u.as_u64 ask_quotient)
    depth ← unwrap (Std.checked_mul 64 cur_price amm.depth)
    percent ← unwrap (Std.checked_div depth 100)
    grid ← unwrap (Std.checked_div percent amm.order_num)
    fb ← fibonacci amm.order_num
    ok (record {
      cur_price = cur_price;
      max_bid = max_bid;
      min_ask = min_ask;
      grid = if ltb grid amm.pc_lot_size then amm.pc_lot_size else grid;
      fb = fb;
    })

-- all orders have been planned: they are placed next
unfoldable pub start_placing : AmmInfo → TargetOrders → AmmInfo × TargetOrders
start_placing amm target = (
  with_state amm AmmState.place_orders_state,
  record target {
    place_orders_cur = 0;
    replace_buy_client_id = replicate 10 0;
    replace_sell_client_id = replicate 10 0;
    placed_x = 0;
    placed_y = 0;
  },
)

-- the amounts that the orders are planned for
unfoldable pub save_target : TargetOrders → (x y : ℕ) → TargetOrders
save_target target x y = record target {
  target_x = x;
  target_y = y;
  plan_x_buy = x;
  plan_y_buy = y;
  plan_x_sell = x;
  plan_y_sell = y;
  valid_buy_order_num = 0;
  valid_sell_order_num = 0;
}

-- the number of orders that are done when a call with the limit ends
unfoldable pub orders_num : AmmInfo → (cur limit : ℕ) → Result ℕ
orders_num amm cur limit = do
  sum ← unwrap (Std.checked_add 64 cur limit)
  ok (if ltb amm.order_num sum then amm.order_num else sum)

module _ ⦃u : Uint 128⦄ where
  -- `plan_orders_cur` orders are planned already
  unfoldable pub plan_more :
      AmmInfo → TargetOrders → (limit cur_price : ℕ) → Result (AmmInfo × TargetOrders)
  unfolding grid_of plan_rounds orders_num start_placing
  plan_more amm target limit cur_price = do
    g ← grid_of amm cur_price
    num ← orders_num amm target.plan_orders_cur limit
    target' ← plan_rounds (num - target.plan_orders_cur) target.plan_orders_cur amm g target
    if amm.order_num == target'.plan_orders_cur
        then ok (start_placing amm target')
        else ok (amm, target')

  unfoldable pub plan_at :
      AmmInfo → TargetOrders → (limit x y : ℕ) → Result (AmmInfo × TargetOrders)
  plan_at amm target limit x y = do
    scaled ← unwrap (u.checked_mul x amm.sys_decimal_value)
    quotient ← unwrap (u.checked_div scaled y)
    wide ← unwrap (u.as_u128 quotient)
    cur_price ← unwrap (Std.fit 64 wide)
    mux_cur_price ← unwrap (Std.checked_mul 128 amm.pc_lot_size amm.max_price_multiplier)
    min_cur_price ← unwrap (Std.checked_mul 128 amm.pc_lot_size amm.min_price_multiplier)
    if ltb cur_price min_cur_price || ltb mux_cur_price cur_price
        then ok (with_state amm AmmState.idle_state, target)
        else plan_more amm target limit cur_price

  -- the amounts are saved with the first order
  unfoldable pub plan_start : TargetOrders → (x y : ℕ) → Result TargetOrders
  unfolding save_target
  plan_start target x y =
      if target.plan_orders_cur == 0
      then (do x1 ← unwrap (u.as_u128 x); y1 ← unwrap (u.as_u128 y); ok (save_target target x1 y1))
      else ok target

  unfoldable pub do_plan_orderbook :
      (limit : ℕ)
      → AmmInfo
      → TargetOrders
      → (total_pc total_coin : ℕ) → Result (AmmInfo × TargetOrders)
  do_plan_orderbook limit amm target total_pc total_coin =
      if amm.order_num == target.plan_orders_cur then ok (start_placing amm target) else (do
        x ← normalize_decimal_v2 total_pc amm.pc_decimals amm.sys_decimal_value
        y ← normalize_decimal_v2 total_coin amm.coin_decimals amm.sys_decimal_value
        target' ← plan_start target x y
        err_if (x == 0 || y == 0) checked_empty_funds
        if not (x == target'.target_x) || not (y == target'.target_y)
            then ok (with_state amm AmmState.idle_state, target')
            else plan_at amm target' limit x y)
