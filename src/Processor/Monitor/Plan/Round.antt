-- ===== src/Processor/Monitor/Plan/Round.antt =====
-- program/src/processor.rs, `do_plan_orderbook`: the orders that one call plans, a round of the loop for
-- a buy and a sell order.
use solana_dex_amm.Words.Std
use solana_dex_amm.Result.{Result, ok, unwrap, ◌>>=◌}
use solana_dex_amm.Math.Lots.{
  ceil_lot, floor_lot, get_max_buy_size_at_price, get_max_sell_size_at_price,
}
use solana_dex_amm.Math.Decimal.{normalize_decimal, to_u64}
use solana_dex_amm.State.Target.{TargetOrders}
use solana_dex_amm.State.Amm.{AmmInfo}
use solana_dex_amm.Words.{Uint}
use solana_dex_amm.Prelude.{
  Bool, List, get_elem?, if◌then◌else◌, ltb, not, set_elem?, suc, zero, ℕ, ◌&&◌, ◌==◌,
}

-- What is the same for all orders that one call plans.
pub record Grid : Type 0 where
  pub cur_price : ℕ
  pub max_bid : ℕ
  pub min_ask : ℕ
  pub grid : ℕ
  pub fb : List ℕ

-- the last order is at the distance that has been set, if one has
unfoldable pub is_last : AmmInfo → TargetOrders → ℕ → Result Bool
is_last amm target i = do
  last ← unwrap (Std.checked_sub amm.order_num 1)
  ok (
      i == last
      && not (target.last_order_denominator == 0)
      && not (target.last_order_numerator == 0))

-- `buy_orders[i - 2]` has a price that is neither 0 nor the distance; `i - 2` below 0 is a panic
unfoldable pub is_two_back_priced : TargetOrders → Grid → ℕ → Result Bool
is_two_back_priced target g i = do
  j ← unwrap (Std.checked_sub i 2)
  order ← unwrap (get_elem? target.buy_orders j)
  ok (not (order.price == 0) && not (order.price == g.grid))

unfoldable pub last_buy_price : AmmInfo → TargetOrders → Grid → (i buy_price : ℕ) → Result ℕ
unfolding is_two_back_priced
last_buy_price amm target g i buy_price = do
  scaled ← unwrap (Std.checked_mul 64 g.cur_price target.last_order_denominator)
  target_buy_price ← unwrap (Std.checked_div scaled target.last_order_numerator)
  let lower : ℕ = if ltb target_buy_price buy_price then target_buy_price else buy_price
  if ltb lower amm.pc_lot_size
      then (do priced ← is_two_back_priced target g i; ok (if priced then g.grid else lower))
      else ok lower

unfoldable pub last_sell_price : TargetOrders → Grid → (sell_price : ℕ) → Result ℕ
last_sell_price target g sell_price = do
  scaled ← unwrap (Std.checked_mul 64 g.cur_price target.last_order_numerator)
  target_sell_price ← unwrap (Std.checked_div scaled target.last_order_denominator)
  ok (if ltb sell_price target_sell_price then target_sell_price else sell_price)

module _ ⦃u : Uint 128⦄ where
  -- a volume less the share that `vol_max_cut_ratio` cuts off
  unfoldable pub cut_vol : AmmInfo → (max_vol : ℕ) → Result ℕ
  unfolding to_u64
  cut_vol amm max_vol = do
    product ← unwrap (u.checked_mul amm.vol_max_cut_ratio max_vol)
    quotient ← unwrap (u.checked_div product 10000)
    wide ← unwrap (u.as_u128 quotient)
    cut ← to_u64 wide
    unwrap (Std.checked_sub max_vol cut)

  -- a volume in whole lots, or none if it is below the least size
  unfoldable pub lots_of : AmmInfo → (vol : ℕ) → Result ℕ
  lots_of amm vol = do
    lot ← normalize_decimal amm.coin_lot_size amm.coin_decimals amm.sys_decimal_value
    floor_lot (if ltb vol amm.min_size then 0 else vol) lot

  -- the price of a quantity
  unfoldable pub value_of : AmmInfo → (qty price : ℕ) → Result ℕ
  value_of amm qty price = do
    product ← unwrap (u.checked_mul qty price)
    quotient ← unwrap (u.checked_div product amm.sys_decimal_value)
    unwrap (u.as_u128 quotient)

  unfoldable pub plan_buy : AmmInfo → Grid → (i distance : ℕ) → TargetOrders → Result TargetOrders
  unfolding is_last last_buy_price cut_vol lots_of value_of
  plan_buy amm g i distance target = do
    let first_price = Std.saturating_sub g.max_bid distance
    last ← is_last amm target i
    price ← (if last then last_buy_price amm target g i first_price else ok first_price)
    buy_price ← floor_lot price amm.pc_lot_size
    buy_vol ←
        (if buy_price == 0 then ok 0 else (do
          max_buy_vol ← get_max_buy_size_at_price buy_price target.plan_x_buy target.plan_y_buy amm
          cut_vol amm max_buy_vol))
    qty ← lots_of amm buy_vol
    value ← value_of amm qty buy_price
    plan_x_buy ← unwrap (Std.checked_sub target.plan_x_buy value)
    plan_y_buy ← unwrap (Std.checked_add 128 target.plan_y_buy qty)
    buy_orders ← unwrap (set_elem? target.buy_orders i (record { price = buy_price; vol = qty }))
    ok (record target { plan_x_buy = plan_x_buy; plan_y_buy = plan_y_buy; buy_orders = buy_orders })

  unfoldable pub plan_sell : AmmInfo → Grid → (i distance : ℕ) → TargetOrders → Result TargetOrders
  unfolding is_last last_sell_price cut_vol lots_of value_of
  plan_sell amm g i distance target = do
    first_price ← unwrap (Std.checked_add 64 g.min_ask distance)
    last ← is_last amm target i
    price ← (if last then last_sell_price target g first_price else ok first_price)
    sell_price ← ceil_lot price amm.pc_lot_size
    max_sell_vol ← get_max_sell_size_at_price sell_price target.plan_x_sell target.plan_y_sell amm
    sell_vol ← cut_vol amm max_sell_vol
    qty ← lots_of amm sell_vol
    plan_y_sell ← unwrap (Std.checked_sub target.plan_y_sell qty)
    value ← value_of amm qty sell_price
    plan_x_sell ← unwrap (Std.checked_add 128 target.plan_x_sell value)
    sell_orders ← unwrap (set_elem? target.sell_orders i (record { price = sell_price; vol = qty }))
    ok (record target {
      plan_x_sell = plan_x_sell;
      plan_y_sell = plan_y_sell;
      sell_orders = sell_orders;
    })

  -- one round of the loop
  unfoldable pub plan_round : AmmInfo → Grid → (i : ℕ) → TargetOrders → Result TargetOrders
  unfolding plan_buy plan_sell
  plan_round amm g i target = do
    f ← unwrap (get_elem? g.fb i)
    distance ← unwrap (Std.checked_mul 64 g.grid f)
    bought ← plan_buy amm g i distance target
    sold ← plan_sell amm g i distance bought
    cur ← unwrap (Std.checked_add 64 sold.plan_orders_cur 1)
    ok (record sold { plan_orders_cur = cur })

  -- the rounds from `i` on, of which `left` are left
  unfoldable pub plan_rounds : (left i : ℕ) → AmmInfo → Grid → TargetOrders → Result TargetOrders
  unfolding plan_round
  plan_rounds zero i amm g target = ok target
  plan_rounds (suc left) i amm g target = do
    target' ← plan_round amm g i target
    plan_rounds left (suc i) amm g target'
