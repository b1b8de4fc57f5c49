-- ===== src/Processor/Monitor/Place.antt =====
-- program/src/processor.rs, `do_place_orders`: one buy order and one sell order.
pub mod Loop
use solana_dex_amm.Words.Std
use solana_dex_amm.Result.{Result, ok, panic, unwrap, ◌>>=◌, ◌>>◌}
use solana_dex_amm.Chain.{Chain, NewOrder}
use solana_dex_amm.Serum.{Side, ask, bid}
use solana_dex_amm.Math.Decimal.{convert_out_pc_lot_size, convert_price_out, convert_vol_out}
use solana_dex_amm.Processor.Swap.Settle.{seeds_of}
use solana_dex_amm.Processor.Monitor.Idle.{with_state}
use solana_dex_amm.Processor.Monitor.Accounts.{MonitorAccounts}
use solana_dex_amm.State.Target.{TargetOrder, TargetOrders}
use solana_dex_amm.State.Amm.{AmmInfo, incr_client_order_id}
use solana_dex_amm.State.Machine.{AmmState}
use solana_dex_amm.Words.{Uint}
use solana_dex_amm.Prelude.{
  Bool, List, [], false, get_elem?, if◌then◌else◌, ltb, not, set_elem?, ℕ, ◌%◌, ◌&&◌, ◌==◌, ◌^◌,
  ◌||◌, ◌∷◌,
}
use solana_dex_amm.Chain.Invokers.{
  OrderAccounts, invoke_dex_new_order_v3, invoke_dex_replace_order_by_client_id,
}

-- The variables of the loop that one round hands on to the next.
pub record Placing (W : Type 0) : Type 0 where
  pub world : W
  pub amm : AmmInfo
  pub target : TargetOrders
  pub bids_client_ids : List ℕ
  pub asks_client_ids : List ℕ
  pub pc_avaliable : ℕ
  pub coin_avaliable : ℕ

-- How a part of the loop ends: the loop goes on, or the handler has returned.
pub data Placed (A : Type 0) : Type 0 where
  goes_on returned : A → Placed A

abbrev pub placed_value : {A : Type 0} → Placed A → A
placed_value (goes_on a) = a
placed_value (returned a) = a

-- `contains`
abbrev pub contains : ℕ → List ℕ → Bool
contains x [] = false
contains x (y ∷ ys) = x == y || contains x ys

-- `retain(|x| !ids.contains(&x))`
abbrev pub retain_new : List ℕ → List ℕ → List ℕ
retain_new ids [] = []
retain_new ids (x ∷ xs) = let rest = retain_new ids xs in if contains x ids then rest else x ∷ rest

-- `pop_front` and `pop_back`, for a queue that has an element
abbrev pub pop_front : ℕ → List ℕ → ℕ × List ℕ
pop_front x xs = (x, xs)

abbrev pub pop_back : ℕ → List ℕ → ℕ × List ℕ
pop_back x [] = (x, [])
pop_back x (y ∷ ys) = let (last, rest) = pop_back y ys in (last, x ∷ rest)

-- vault + free in the open orders - profit that is still to be taken
unfoldable pub avaliable : (amount free need_take_pnl : ℕ) → Result ℕ
avaliable amount free need_take_pnl = do
  sum ← unwrap (Std.checked_add 64 amount free)
  unwrap (Std.checked_sub sum need_take_pnl)

abbrev pub order_accounts : MonitorAccounts → OrderAccounts
order_accounts a = record {
  dex_program = a.market_program;
  market = a.market;
  open_orders = a.amm_open_orders;
  req_q = a.market_request_queue;
  event_q = a.market_event_queue;
  bids = a.market_bids;
  asks = a.market_asks;
  open_orders_owner = a.amm_authority;
  coin_vault = a.market_coin_vault;
  pc_vault = a.market_pc_vault;
  token_program = a.token_program;
  rent_account = a.rent;
  srm_account_referral = a.srm_token;
}

abbrev pub limit_order : Side → (limit_price max_coin_qty max_native_pc id : ℕ) → NewOrder
limit_order side limit_price max_coin_qty max_native_pc id = record {
  side = side;
  limit_price = limit_price;
  max_coin_qty = max_coin_qty;
  max_native_pc_qty_including_fees = max_native_pc;
  client_order_id = id;
  limit = 65535;
}

-- the target orders with the id of an order that is placed
unfoldable pub note_buy : TargetOrders → ℕ → Result TargetOrders
note_buy target id = do
  ids ← unwrap (set_elem? target.replace_buy_client_id target.valid_buy_order_num id)
  ok (record target { replace_buy_client_id = ids })

unfoldable pub note_sell : TargetOrders → ℕ → Result TargetOrders
note_sell target id = do
  ids ← unwrap (set_elem? target.replace_sell_client_id target.valid_sell_order_num id)
  ok (record target { replace_sell_client_id = ids })

-- the id of the order that is replaced: the worst one first, then the best ones
unfoldable pub take_id : (valid_num id : ℕ) → List ℕ → ℕ × List ℕ
take_id valid_num id ids = if valid_num == 0 then pop_back id ids else pop_front id ids

-- `NonZeroU64::new(n).unwrap()`
unfoldable pub non_zero : ℕ → Result ℕ
non_zero n = if n == 0 then panic else ok n

module _ {W : Type 0} ⦃c : Chain W⦄ where
  -- the buy order is new, or replaces one
  unfoldable pub place_buy :
      MonitorAccounts
      → (ids : List ℕ) → (limit_price max_coin_qty max_native_pc : ℕ) → Placing W
      → Result (Placing W)
  unfolding note_buy take_id invoke_dex_new_order_v3 invoke_dex_replace_order_by_client_id non_zero
  place_buy a [] limit_price max_coin_qty max_native_pc s = do
    let (amm, id) = incr_client_order_id s.amm
    target ← note_buy s.target id
    native ← non_zero max_native_pc
    world ←
        invoke_dex_new_order_v3 s.world (order_accounts a) a.amm_pc_vault (seeds_of amm)
          (limit_order bid limit_price max_coin_qty native id)
    ok (record s { world = world; amm = amm; target = target })
  place_buy a (first ∷ ids) limit_price max_coin_qty max_native_pc s = do
    let (id, rest) = take_id s.target.valid_buy_order_num first ids
    target ← note_buy s.target id
    native ← non_zero max_native_pc
    world ←
        invoke_dex_replace_order_by_client_id s.world (order_accounts a) a.amm_pc_vault
          (seeds_of s.amm) (limit_order bid limit_price max_coin_qty native id)
    ok (record s { world = world; target = target; bids_client_ids = rest })

  -- the sell order, whose bound on pc is 1
  unfoldable pub place_sell :
      MonitorAccounts
      → (ids : List ℕ) → (limit_price max_coin_qty : ℕ) → Placing W
      → Result (Placing W)
  unfolding note_sell take_id invoke_dex_new_order_v3 invoke_dex_replace_order_by_client_id
  place_sell a [] limit_price max_coin_qty s = do
    let (amm, id) = incr_client_order_id s.amm
    target ← note_sell s.target id
    world ←
        invoke_dex_new_order_v3 s.world (order_accounts a) a.amm_coin_vault (seeds_of amm)
          (limit_order ask limit_price max_coin_qty 1 id)
    ok (record s { world = world; amm = amm; target = target })
  place_sell a (first ∷ ids) limit_price max_coin_qty s = do
    let (id, rest) = take_id s.target.valid_sell_order_num first ids
    target ← note_sell s.target id
    world ←
        invoke_dex_replace_order_by_client_id s.world (order_accounts a) a.amm_coin_vault
          (seeds_of s.amm) (limit_order ask limit_price max_coin_qty 1 id)
    ok (record s { world = world; target = target; asks_client_ids = rest })

  -- the pool is given up on for now: the handler returns
  unfoldable pub stop_placing : Placing W → Placing W
  stop_placing s = record s { amm = with_state s.amm AmmState.cancel_all_orders_state }

module _ {W : Type 0} ⦃c : Chain W⦄ ⦃u : Uint 128⦄ where
  -- the first half of a round: the buy order
  unfoldable pub buy_round :
      MonitorAccounts
      → (orders : List TargetOrder) → (i : ℕ) → Placing W
      → Result (Placed (Placing W))
  unfolding place_buy stop_placing
  buy_round a orders i s = do
    order ← unwrap (get_elem? orders i)
    limit_price ← convert_price_out order.price s.amm.pc_lot_size
    max_coin_qty ←
        convert_vol_out order.vol s.amm.coin_decimals s.amm.coin_lot_size s.amm.sys_decimal_value
    out_pc_lot_size ←
        convert_out_pc_lot_size (s.amm.pc_decimals % 2 ^ 8) (s.amm.coin_decimals % 2 ^ 8)
          s.amm.pc_lot_size s.amm.coin_lot_size s.amm.sys_decimal_value
    lots ← unwrap (Std.checked_mul 64 max_coin_qty limit_price)
    max_native_pc ← unwrap (Std.checked_mul 64 lots out_pc_lot_size)
    if ltb s.pc_avaliable max_native_pc
        then ok (returned (stop_placing s))
        else if not (limit_price == 0) && not (max_coin_qty == 0)
        then (do
          s' ← place_buy a s.bids_client_ids limit_price max_coin_qty max_native_pc s
          num ← unwrap (Std.checked_add 64 s'.target.valid_buy_order_num 1)
          ok (goes_on (record s' { target = record (s'.target) { valid_buy_order_num = num } })))
        else ok (goes_on s)

  -- the second half: the sell order
  unfoldable pub sell_round :
      MonitorAccounts
      → (orders : List TargetOrder) → (i : ℕ) → Placing W
      → Result (Placed (Placing W))
  unfolding place_sell stop_placing
  sell_round a orders i s = do
    order ← unwrap (get_elem? orders i)
    limit_price ← convert_price_out order.price s.amm.pc_lot_size
    max_coin_qty ←
        convert_vol_out order.vol s.amm.coin_decimals s.amm.coin_lot_size s.amm.sys_decimal_value
    coins ← unwrap (Std.checked_mul 64 max_coin_qty s.amm.coin_lot_size)
    if ltb s.coin_avaliable coins
        then ok (returned (stop_placing s))
        else if not (limit_price == 0) && not (max_coin_qty == 0)
        then (do
          s' ← place_sell a s.asks_client_ids limit_price max_coin_qty s
          num ← unwrap (Std.checked_add 64 s'.target.valid_sell_order_num 1)
          ok (goes_on (record s' { target = record (s'.target) { valid_sell_order_num = num } })))
        else ok (goes_on s)
