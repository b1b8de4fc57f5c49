-- ===== src/Tests/Data.antt =====
-- A pool of two tokens of six decimals, for the runs.
use solana_dex_amm.Serum.{Event, EventView, OpenOrders, ask, bid, fill}
use solana_dex_amm.State.Target.{TargetOrders}
use solana_dex_amm.State.Amm.{AmmInfo}
use solana_dex_amm.Prelude.{List, [], replicate, true, ◌-◌, ◌^◌, ◌∷◌}

abbrev pub pool : AmmInfo
pool = record {
  status = 6;
  nonce = 254;
  order_num = 7;
  depth = 3;
  coin_decimals = 6;
  pc_decimals = 6;
  state = 1;
  reset_flag = 0;
  min_size = 1;
  vol_max_cut_ratio = 500;
  amount_wave = 5000;
  coin_lot_size = 1000000;
  pc_lot_size = 1000000;
  min_price_multiplier = 1;
  max_price_multiplier = 1000000000;
  sys_decimal_value = 1000000;
  fees = record {
    min_separate_numerator = 5;
    min_separate_denominator = 10000;
    trade_fee_numerator = 25;
    trade_fee_denominator = 10000;
    pnl_numerator = 12;
    pnl_denominator = 100;
    swap_fee_numerator = 25;
    swap_fee_denominator = 10000;
  };
  state_data = record {
    need_take_pnl_coin = 0;
    need_take_pnl_pc = 0;
    total_pnl_pc = 0;
    total_pnl_coin = 0;
    pool_open_time = 0;
    padding = 0 ∷ 0 ∷ [];
    orderbook_to_init_time = 0;
    swap_coin_in_amount = 0;
    swap_pc_out_amount = 0;
    swap_acc_pc_fee = 0;
    swap_pc_in_amount = 0;
    swap_coin_out_amount = 0;
    swap_acc_coin_fee = 0;
  };
  coin_vault = 1;
  pc_vault = 2;
  coin_vault_mint = 3;
  pc_vault_mint = 4;
  lp_mint = 5;
  open_orders = 6;
  market = 7;
  market_program = 8;
  target_orders = 9;
  padding1 = [];
  amm_owner = 10;
  amm_subscriber = 11;
  lp_amount = 1000000;
  client_order_id = 41;
  padding2 = [];
}

abbrev pub targets : TargetOrders
targets = record {
  owner = 6;
  buy_orders = [];
  padding1 = [];
  target_x = 0;
  target_y = 0;
  plan_x_buy = 0;
  plan_y_buy = 0;
  plan_x_sell = 0;
  plan_y_sell = 0;
  placed_x = 0;
  placed_y = 0;
  calc_pnl_x = 1000000;
  calc_pnl_y = 1000000;
  sell_orders = [];
  padding2 = [];
  replace_buy_client_id = [];
  replace_sell_client_id = [];
  last_order_numerator = 0;
  last_order_denominator = 0;
  plan_orders_cur = 0;
  place_orders_cur = 0;
  valid_buy_order_num = 0;
  valid_sell_order_num = 0;
  padding3 = [];
  free_slot_bits = 0;
}

abbrev pub orders : OpenOrders
orders = record {
  market = 7;
  owner = 9;
  native_coin_free = 0;
  native_coin_total = 300;
  native_pc_free = 0;
  native_pc_total = 500;
  free_slot_bits = 2 ^ 128 - 1;
  is_bid_bits = 0;
  orders = replicate 128 0;
}

-- a fill of the pool's account 77 as the maker, one of another account, and an order that went out
abbrev pub queue : List Event
queue =
    record { owner = 77; view = fill bid true 100 20 }
    ∷ record { owner = 78; view = fill ask true 50 60 }
    ∷ record { owner = 77; view = EventView.out }
    ∷ []
