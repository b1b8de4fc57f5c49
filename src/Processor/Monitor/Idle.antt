-- ===== src/Processor/Monitor/Idle.antt =====
-- program/src/processor.rs: `do_idle_state`.
use solana_dex_amm.State.Machine
use solana_dex_amm.Result.{Result, checked_empty_funds, err_if, ok, unwrap, ◌>>=◌, ◌>>◌}
use solana_dex_amm.Serum.{LeafNode}
use solana_dex_amm.Math.Decimal.{normalize_decimal_v2}
use solana_dex_amm.Processor.TakePnl.{Taken, calc_take_pnl}
use solana_dex_amm.State.Target.{TargetOrders}
use solana_dex_amm.State.Amm.{AmmInfo}
use solana_dex_amm.State.Machine.{AmmState}
use solana_dex_amm.Words.{Uint}
use solana_dex_amm.Prelude.{
  Bool, List, [], false, if◌then◌else◌, length, ltb, not, true, ℕ, ◌&&◌, ◌==◌, ◌||◌, ◌∷◌,
}

-- whether a list has no element, as `is_empty` tells
abbrev pub is_empty {ℓ} : {A : Type ℓ} → List A → Bool
is_empty [] = true
is_empty (_ ∷ _) = false

-- whether orders are missing, or the amounts are not those that the orders were placed for
unfoldable pub is_traded : TargetOrders → (bids asks : List LeafNode) → (x y : ℕ) → Bool
is_traded target bids asks x y =
    ltb (length bids) target.valid_buy_order_num
    || ltb (length asks) target.valid_sell_order_num
    || (is_empty bids && is_empty asks)
    || not (x == target.placed_x)
    || not (y == target.placed_y)

abbrev pub with_state : AmmInfo → AmmState → AmmInfo
with_state amm state = record amm { state = Machine.into_u64 state }

module _ ⦃u : Uint 128⦄ where
  -- whether the price is outside the bounds that the pool is set up with
  unfoldable pub is_price_off : AmmInfo → (x y : ℕ) → Result Bool
  is_price_off amm x y = do
    scaled ← unwrap (u.checked_mul x amm.sys_decimal_value)
    cur_price ← unwrap (u.checked_div scaled y)
    mux_cur_price ← unwrap (u.checked_mul amm.pc_lot_size amm.max_price_multiplier)
    min_cur_price ← unwrap (u.checked_mul amm.pc_lot_size amm.min_price_multiplier)
    ok (ltb cur_price min_cur_price || ltb mux_cur_price cur_price)

  -- the state and the target orders before the profit is looked at
  unfoldable pub idle_next :
      AmmInfo
      → TargetOrders
      → (bids asks : List LeafNode) → (x y : ℕ) → Result (AmmInfo × TargetOrders)
  unfolding is_traded is_price_off
  idle_next amm target bids asks x y = do
    let traded = is_traded target bids asks x y
    let target' = if traded then record target { plan_orders_cur = 0 } else target
    price_off ← is_price_off amm x y
    if price_off
        then (if is_empty bids && is_empty asks
            then ok (with_state amm AmmState.idle_state, target')
            else ok (with_state amm AmmState.cancel_all_orders_state, target'))
        else if traded
        then ok (with_state amm AmmState.plan_orders_state, target')
        else ok (with_state amm AmmState.idle_state, target')

  -- the profit that has been taken is booked
  unfoldable pub idle_pnl : TargetOrders → Taken → (x y : ℕ) → Result (AmmInfo × TargetOrders)
  idle_pnl target taken x y =
      if not (taken.delta_x == 0) && not (taken.delta_y == 0)
      then (do
        rest_x ← unwrap (u.checked_sub x taken.delta_x)
        calc_pnl_x ← unwrap (u.as_u128 rest_x)
        rest_y ← unwrap (u.checked_sub y taken.delta_y)
        calc_pnl_y ← unwrap (u.as_u128 rest_y)
        ok (taken.amm, record target { calc_pnl_x = calc_pnl_x; calc_pnl_y = calc_pnl_y }))
      else ok (taken.amm, target)

module _ ⦃u : Uint 128⦄ ⦃v : Uint 256⦄ where
  unfoldable pub do_idle_state :
      AmmInfo
      → TargetOrders
      → (total_pc total_coin : ℕ) → (bids asks : List LeafNode) → Result (AmmInfo × TargetOrders)
  do_idle_state amm target total_pc total_coin bids asks = do
    x ← normalize_decimal_v2 total_pc amm.pc_decimals amm.sys_decimal_value
    y ← normalize_decimal_v2 total_coin amm.coin_decimals amm.sys_decimal_value
    err_if (x == 0 || y == 0) checked_empty_funds
    (amm', target') ← idle_next amm target bids asks x y
    current_k ← unwrap (u.checked_mul x y)
    last_k ← unwrap (u.checked_mul target'.calc_pnl_x target'.calc_pnl_y)
    if ltb current_k last_k
        then ok (with_state amm' AmmState.cancel_all_orders_state, target')
        else (do
          x1 ← unwrap (u.as_u128 x)
          y1 ← unwrap (u.as_u128 y)
          taken ← calc_take_pnl target' amm' total_pc total_coin x1 y1
          idle_pnl target' taken x y)
