-- ===== src/Processor/Monitor/Laws.antt =====
-- The state machine of the pool's orders, and what the functions of its states make of the pool.
pub mod Idle
pub mod Place
pub mod Step
pub mod Reach
pub mod Fees
use solana_dex_amm.State.Machine
use solana_dex_amm.Words.Std
use solana_dex_amm.Chain.{Chain}
use solana_dex_amm.Serum.{LeafNode}
use solana_dex_amm.Result.{
  Ensures, checked_empty_funds, err_if, if-Ensures, ok-Ensures, step, unwrap,
}
use solana_dex_amm.Math.Decimal.{normalize_decimal_v2}
use solana_dex_amm.Processor.Orders.{collect_order_ids}
use solana_dex_amm.Processor.Swap.Settle.{order_ids, seeds_of}
use solana_dex_amm.Processor.Monitor.Idle.{is_empty}
use solana_dex_amm.Processor.Monitor.Cancel.{
  cancel_ids, do_cancel_all_orders_state, do_purge_orders, settle_open_orders, used_slots,
}
use solana_dex_amm.Processor.Monitor.Plan.{
  do_plan_orderbook, grid_of, orders_num, plan_at, plan_more, plan_start, start_placing,
}
use solana_dex_amm.Processor.Monitor.Accounts.{Book, MonitorAccounts}
use solana_dex_amm.Processor.Monitor.Plan.Round.{plan_rounds}
use solana_dex_amm.State.Target.{TargetOrders}
use solana_dex_amm.State.Amm.{AmmInfo}
use solana_dex_amm.Words.{Uint}
use solana_dex_amm.Prelude.{
  List, [], drop, inl, inr, leb, length, ltb, not, refl, ℕ, ◌&&◌, ◌++◌, ◌-◌, ◌==◌, ◌||◌, ◌≡◌, ◌⊎◌,
}

-- The steps between the numbers of the states: 1 IdleState, 2 CancelAllOrdersState, 3 PlanOrdersState,
-- 4 CancelOrderState, 5 PlaceOrdersState, 6 PurgeOrderState. No step leads to CancelOrderState.
pub data StateStep (from to : ℕ) : Type 0 where
  idle_to_plan : from ≡ 1 → to ≡ 3 → StateStep from to
  idle_to_cancel_all : from ≡ 1 → to ≡ 2 → StateStep from to
  plan_to_place : from ≡ 3 → to ≡ 5 → StateStep from to
  plan_to_idle : from ≡ 3 → to ≡ 1 → StateStep from to
  place_to_purge : from ≡ 5 → to ≡ 6 → StateStep from to
  place_to_idle : from ≡ 5 → to ≡ 1 → StateStep from to
  place_to_cancel_all : from ≡ 5 → to ≡ 2 → StateStep from to
  purge_to_idle : from ≡ 6 → to ≡ 1 → StateStep from to
  cancel_to_idle : from ≡ 4 → to ≡ 1 → StateStep from to
  cancel_all_to_idle : from ≡ 2 → to ≡ 1 → StateStep from to

-- What `process_monitor_step` may make of a pool: the state stays or takes a step, or a pool that is to be
-- reset goes to IdleState.
pub record IsMonitorStep (amm amm' : AmmInfo) : Type 0 where
  pub state :
      (amm'.state ≡ amm.state)
      ⊎ StateStep amm.state amm'.state
      ⊎ ((amm.reset_flag ≡ 0) × (amm'.state ≡ 1))
  pub status_same : amm'.status ≡ amm.status
  pub lp_same : amm'.lp_amount ≡ amm.lp_amount
  pub fees_same : amm'.fees ≡ amm.fees

-- What a function of a state makes of the pool, but for its state.
pub record KeepsPool (amm amm' : AmmInfo) : Type 0 where
  pub status_same : amm'.status ≡ amm.status
  pub lp_same : amm'.lp_amount ≡ amm.lp_amount
  pub fees_same : amm'.fees ≡ amm.fees

abbrev pub keeps : (amm : AmmInfo) → KeepsPool amm amm
keeps amm = record { status_same = refl; lp_same = refl; fees_same = refl }

module _ {W : Type 0} ⦃c : Chain W⦄ where
  pub cancel_all-Ensures :
      (a : MonitorAccounts) (amm : AmmInfo) (target : TargetOrders) (b : Book) (w : W)
      → Ensures
          (λ r. KeepsPool amm r.1 × ((r.1.state ≡ 1) ⊎ (r.1.state ≡ amm.state)))
          (do_cancel_all_orders_state a amm target b w)
  unfolding do_cancel_all_orders_state Machine.into_u64
  cancel_all-Ensures a amm target b w =
      if-Ensures (ltb 100 (used_slots b.open_orders) && is_empty b.bids && is_empty b.asks)
        (λ _. ok-Ensures _ (keeps amm, inr refl))
        λ _. step (collect_order_ids (order_ids b.bids) (order_ids b.asks)) _ λ batches _.
          step (cancel_ids a (seeds_of amm) batches w) _ λ w1 _.
            step (settle_open_orders a amm b.open_orders w1) _ λ w2 _.
              ok-Ensures _
                (record { status_same = refl; lp_same = refl; fees_same = refl }, inl refl)

  pub purge-Ensures :
      (a : MonitorAccounts) (amm : AmmInfo) (target : TargetOrders) (bids asks : List LeafNode)
      (w : W)
      → Ensures
          (λ r. KeepsPool amm r.1 × ((r.1.state ≡ 1) ⊎ (r.1.state ≡ amm.state)))
          (do_purge_orders a amm target bids asks w)
  unfolding do_purge_orders Machine.into_u64
  purge-Ensures a amm target bids asks w =
      if-Ensures
        (leb (length bids) target.valid_buy_order_num
          && leb (length asks) target.valid_sell_order_num)
        (λ _.
          ok-Ensures _ (record { status_same = refl; lp_same = refl; fees_same = refl }, inl refl))
        (λ _.
          step
            (collect_order_ids
              (order_ids (drop target.valid_buy_order_num bids)
                ++ order_ids (drop target.valid_sell_order_num asks))
              [])
            _
            λ batches _.
              step (cancel_ids a (seeds_of amm) batches w) _
                λ w' _. ok-Ensures _ (keeps amm, inr refl))

-- What planning makes of the pool.
abbrev pub Planned : AmmInfo → AmmInfo × TargetOrders → Type 0
Planned amm r = KeepsPool amm r.0 × ((r.0.state ≡ 1) ⊎ (r.0.state ≡ 5) ⊎ (r.0.state ≡ amm.state))

module _ ⦃u : Uint 128⦄ where
  start_placing-Planned :
      (amm : AmmInfo) (target : TargetOrders) → Planned amm (start_placing amm target)
  unfolding start_placing Machine.into_u64
  start_placing-Planned amm target =
      (record { status_same = refl; lp_same = refl; fees_same = refl }, inr (inl refl))

  plan_more-Ensures :
      (amm : AmmInfo) (target : TargetOrders) (limit cur_price : ℕ)
      → Ensures (Planned amm) (plan_more amm target limit cur_price)
  unfolding plan_more
  plan_more-Ensures amm target limit cur_price = step (grid_of amm cur_price) _ λ g _.
      step (orders_num amm target.plan_orders_cur limit) _ λ num _.
        step (plan_rounds (num - target.plan_orders_cur) target.plan_orders_cur amm g target) _
          λ target' _.
            if-Ensures (amm.order_num == target'.plan_orders_cur)
              (λ _. ok-Ensures _ (start_placing-Planned amm target'))
              (λ _. ok-Ensures _ (keeps amm, inr (inr refl)))

  plan_at-Ensures :
      (amm : AmmInfo) (target : TargetOrders) (limit x y : ℕ)
      → Ensures (Planned amm) (plan_at amm target limit x y)
  unfolding plan_at Machine.into_u64
  plan_at-Ensures amm target limit x y =
      step (unwrap (u.checked_mul x amm.sys_decimal_value)) _ λ scaled _.
        step (unwrap (u.checked_div scaled y)) _ λ quotient _.
          step (unwrap (u.as_u128 quotient)) _ λ wide _.
            step (unwrap (Std.fit 64 wide)) _ λ cur_price _.
              step (unwrap (Std.checked_mul 128 amm.pc_lot_size amm.max_price_multiplier)) _
                λ most _.
                  step (unwrap (Std.checked_mul 128 amm.pc_lot_size amm.min_price_multiplier)) _
                    λ least _.
                      if-Ensures (ltb cur_price least || ltb most cur_price)
                        (λ _. ok-Ensures _ (
                          record { status_same = refl; lp_same = refl; fees_same = refl },
                          inl refl,
                        ))
                        (λ _. plan_more-Ensures amm target limit cur_price)

  pub plan-Ensures :
      (limit : ℕ) (amm : AmmInfo) (target : TargetOrders) (total_pc total_coin : ℕ)
      → Ensures (Planned amm) (do_plan_orderbook limit amm target total_pc total_coin)
  unfolding do_plan_orderbook Machine.into_u64
  plan-Ensures limit amm target total_pc total_coin =
      if-Ensures (amm.order_num == target.plan_orders_cur)
        (λ _. ok-Ensures _ (start_placing-Planned amm target))
        λ _. step (normalize_decimal_v2 total_pc amm.pc_decimals amm.sys_decimal_value) _ λ x _.
          step (normalize_decimal_v2 total_coin amm.coin_decimals amm.sys_decimal_value) _ λ y _.
            step (plan_start target x y) _ λ target' _.
              step (err_if (x == 0 || y == 0) checked_empty_funds) _ λ _ _.
                if-Ensures (not (x == target'.target_x) || not (y == target'.target_y))
                  (λ _.
                    ok-Ensures _
                      (record { status_same = refl; lp_same = refl; fees_same = refl }, inl refl))
                  (λ _. plan_at-Ensures amm target' limit x y)
