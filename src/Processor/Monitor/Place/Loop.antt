-- ===== src/Processor/Monitor/Place/Loop.antt =====
-- program/src/processor.rs: the loop of `do_place_orders`, and the function as a whole.
use solana_dex_amm.Words.Std
use solana_dex_amm.Result.{Result, checked_empty_funds, err_if, ok, unwrap, ◌>>=◌, ◌>>◌}
use solana_dex_amm.Chain.{Chain}
use solana_dex_amm.Math.Decimal.{normalize_decimal_v2}
use solana_dex_amm.Processor.Swap.Settle.{order_ids}
use solana_dex_amm.Processor.Monitor.Idle.{with_state}
use solana_dex_amm.Processor.Monitor.Place.{
  Placed, Placing, avaliable, buy_round, goes_on, retain_new, returned, sell_round,
}
use solana_dex_amm.Processor.Monitor.Cancel.{used_slots}
use solana_dex_amm.Processor.Monitor.Plan.{orders_num}
use solana_dex_amm.Processor.Monitor.Accounts.{Book, Funds, MonitorAccounts}
use solana_dex_amm.State.Target.{TargetOrder, TargetOrders}
use solana_dex_amm.State.Amm.{AmmInfo}
use solana_dex_amm.State.Machine.{AmmState}
use solana_dex_amm.Words.{Uint}
use solana_dex_amm.Prelude.{List, if◌then◌else◌, leb, ltb, not, suc, zero, ℕ, ◌-◌, ◌==◌, ◌||◌}
use solana_dex_amm.Chain.Load.{unpack_token_account}

module _ {W : Type 0} ⦃c : Chain W⦄ where
  -- What is available is read again behind each round. Both amounts are read of the pc vault's account.
  unfoldable pub reload : MonitorAccounts → Placing W → Result (Placing W)
  reload a s = do
    open_orders ← c.load_orders s.world a.amm_open_orders
    pc_vault ← unpack_token_account s.world a.amm_pc_vault c.spl_token_id
    coin_vault ← unpack_token_account s.world a.amm_pc_vault c.spl_token_id
    pc_avaliable ←
        avaliable pc_vault.amount open_orders.native_pc_free s.amm.state_data.need_take_pnl_pc
    coin_avaliable ←
        avaliable coin_vault.amount open_orders.native_coin_free s.amm.state_data.need_take_pnl_coin
    ok (record s { pc_avaliable = pc_avaliable; coin_avaliable = coin_avaliable })

  -- the end of a round
  unfoldable pub end_round : MonitorAccounts → Placing W → Result (Placing W)
  unfolding reload
  end_round a s = do
    cur ← unwrap (Std.checked_add 64 s.target.place_orders_cur 1)
    reload a (record s { target = record (s.target) { place_orders_cur = cur } })

-- goes on with the rest, if the handler has not returned
abbrev pub and_then : {A : Type 0} → Placed A → (A → Result (Placed A)) → Result (Placed A)
and_then (goes_on s) next = next s
and_then (returned s) next = ok (returned s)

module _ {W : Type 0} ⦃c : Chain W⦄ ⦃u : Uint 128⦄ where
  unfoldable pub place_round :
      MonitorAccounts
      → (buys sells : List TargetOrder) → ℕ
      → Placing W
      → Result (Placed (Placing W))
  unfolding buy_round sell_round end_round
  place_round a buys sells i s = do
    bought ← buy_round a buys i s
    sold ← and_then bought (λ s'. sell_round a sells i s')
    and_then sold (λ s'. end_round a s' >>= λ s''. ok (goes_on s''))

  -- the rounds from `i` on, of which `left` are left
  unfoldable pub place_rounds :
      (left i : ℕ)
      → MonitorAccounts
      → (buys sells : List TargetOrder) → Placing W
      → Result (Placed (Placing W))
  unfolding place_round
  place_rounds zero i a buys sells s = ok (goes_on s)
  place_rounds (suc left) i a buys sells s = do
    placed ← place_round a buys sells i s
    and_then placed (λ s'. place_rounds left (suc i) a buys sells s')

  -- behind the loop: the amounts that the orders are placed for, and the next state
  unfoldable pub finish_placing : (x y : ℕ) → Placing W → Result (W × AmmInfo × TargetOrders)
  finish_placing x y s = do
    target ←
        (if s.target.place_orders_cur == s.amm.order_num
          then (do
            placed_x ← unwrap (u.as_u128 x)
            placed_y ← unwrap (u.as_u128 y)
            ok (record (s.target) { placed_x = placed_x; placed_y = placed_y }))
          else ok s.target)
    if leb s.amm.order_num target.place_orders_cur
        then ok (s.world, with_state s.amm AmmState.purge_order_state, target)
        else ok (s.world, s.amm, target)

  unfoldable pub finish_placed :
      (x y : ℕ) → Placed (Placing W) → Result (W × AmmInfo × TargetOrders)
  unfolding finish_placing
  finish_placed x y (returned s) = ok (s.world, s.amm, s.target)
  finish_placed x y (goes_on s) = finish_placing x y s

  -- the variables before the loop
  unfoldable pub start_loop : AmmInfo → TargetOrders → Book → Funds → W → Result (Placing W)
  start_loop amm target b f w = do
    pc_avaliable ←
        avaliable f.pc_amount b.open_orders.native_pc_free amm.state_data.need_take_pnl_pc
    coin_avaliable ←
        avaliable f.coin_amount b.open_orders.native_coin_free amm.state_data.need_take_pnl_coin
    ok (record {
      world = w;
      amm = amm;
      target = target;
      bids_client_ids = retain_new target.replace_buy_client_id (order_ids b.bids);
      asks_client_ids = retain_new target.replace_sell_client_id (order_ids b.asks);
      pc_avaliable = pc_avaliable;
      coin_avaliable = coin_avaliable;
    })

  unfoldable pub do_place_orders :
      (limit : ℕ)
      → MonitorAccounts
      → AmmInfo
      → TargetOrders
      → Book
      → Funds
      → W
      → Result (W × AmmInfo × TargetOrders)
  do_place_orders limit a amm target b f w =
      if ltb 100 (used_slots b.open_orders)
      then ok (w, with_state amm AmmState.cancel_all_orders_state, target)
      else (do
        x ← normalize_decimal_v2 f.total_pc amm.pc_decimals amm.sys_decimal_value
        y ← normalize_decimal_v2 f.total_coin amm.coin_decimals amm.sys_decimal_value
        err_if (x == 0 || y == 0) checked_empty_funds
        if not (x == target.target_x) || not (y == target.target_y)
            then ok (w, with_state amm AmmState.idle_state, target)
            else (do
              num ← orders_num amm target.place_orders_cur limit
              s ← start_loop amm target b f w
              placed ←
                  place_rounds (num - target.place_orders_cur) target.place_orders_cur a
                    target.buy_orders target.sell_orders s
              finish_placed x y placed))
