-- ===== src/State/Amm.antt =====
-- program/src/state.rs: `StateData`, `AmmInfo` and `AmmInfo::initialize`. A public key is the number
-- that its 32 bytes spell; it is only compared.
pub mod Laws
use solana_dex_amm.Words.Std
use solana_dex_amm.State.Fees as Fee
use solana_dex_amm.State.Status
use solana_dex_amm.State.Machine
use solana_dex_amm.State.ResetFlag
use solana_dex_amm.Result.{Result, ok, unwrap, unwrap_ok, ◌>>=◌}
use solana_dex_amm.Math.Decimal.{convert_in_pc_lot_size, to_u64}
use solana_dex_amm.State.ResetFlag.{AmmResetFlag}
use solana_dex_amm.State.Status.{AmmStatus}
use solana_dex_amm.State.Machine.{AmmState}
use solana_dex_amm.State.Fees.{Fees}
use solana_dex_amm.Words.{Uint}
use solana_dex_amm.Prelude.{List, if◌then◌else◌, leb, ltb, replicate, ℕ, ◌%◌, ◌+◌, ◌==◌, ◌^◌}

pub record StateData : Type 0 where
  pub need_take_pnl_coin : ℕ
  pub need_take_pnl_pc : ℕ
  pub total_pnl_pc : ℕ
  pub total_pnl_coin : ℕ
  pub pool_open_time : ℕ
  pub padding : List ℕ
  pub orderbook_to_init_time : ℕ
  pub swap_coin_in_amount : ℕ
  pub swap_pc_out_amount : ℕ
  pub swap_acc_pc_fee : ℕ
  pub swap_pc_in_amount : ℕ
  pub swap_coin_out_amount : ℕ
  pub swap_acc_coin_fee : ℕ

-- `StateData::initialize` writes every field.
unfoldable pub initial_state_data : ℕ → StateData
initial_state_data open_time = record {
  need_take_pnl_coin = 0;
  need_take_pnl_pc = 0;
  total_pnl_pc = 0;
  total_pnl_coin = 0;
  pool_open_time = open_time;
  padding = replicate 2 0;
  orderbook_to_init_time = 0;
  swap_coin_in_amount = 0;
  swap_pc_out_amount = 0;
  swap_acc_pc_fee = 0;
  swap_pc_in_amount = 0;
  swap_coin_out_amount = 0;
  swap_acc_coin_fee = 0;
}

pub record AmmInfo : Type 0 where
  pub status : ℕ
  pub nonce : ℕ
  pub order_num : ℕ
  pub depth : ℕ
  pub coin_decimals : ℕ
  pub pc_decimals : ℕ
  pub state : ℕ
  pub reset_flag : ℕ
  pub min_size : ℕ
  pub vol_max_cut_ratio : ℕ
  pub amount_wave : ℕ
  pub coin_lot_size : ℕ
  pub pc_lot_size : ℕ
  pub min_price_multiplier : ℕ
  pub max_price_multiplier : ℕ
  pub sys_decimal_value : ℕ
  pub fees : Fees
  pub state_data : StateData
  pub coin_vault : ℕ
  pub pc_vault : ℕ
  pub coin_vault_mint : ℕ
  pub pc_vault_mint : ℕ
  pub lp_mint : ℕ
  pub open_orders : ℕ
  pub market : ℕ
  pub market_program : ℕ
  pub target_orders : ℕ
  pub padding1 : List ℕ
  pub amm_owner : ℕ
  pub amm_subscriber : ℕ
  pub lp_amount : ℕ
  pub client_order_id : ℕ
  pub padding2 : List ℕ

-- The first value of `sys_decimal_value`: the scale of the token with more decimals.
unfoldable pub scale_of : ℕ → ℕ → Result ℕ
scale_of coin_decimals pc_decimals =
    if ltb coin_decimals pc_decimals
    then unwrap (Std.checked_pow 64 10 pc_decimals)
    else unwrap (Std.checked_pow 64 10 coin_decimals)

-- The value that `initialize` keeps: at least the price of one lot in units of the other.
unfoldable pub sys_decimal : ℕ → ℕ → ℕ → ℕ → ℕ → Result ℕ
unfolding to_u64
sys_decimal scale coin_decimals pc_decimals coin_lot_size pc_lot_size = do
  pc_scale ← unwrap (Std.checked_pow 128 10 pc_decimals)
  temp_value_numerator ← unwrap (Std.checked_mul 128 coin_lot_size pc_scale)
  coin_scale ← unwrap (Std.checked_pow 128 10 coin_decimals)
  temp_value_denominator ← unwrap (Std.checked_mul 128 pc_lot_size coin_scale)
  quotient ← unwrap (Std.checked_div temp_value_numerator temp_value_denominator)
  if leb scale quotient then unwrap_ok (to_u64 quotient) else ok scale

unfoldable pub min_size_of : ℕ → ℕ → ℕ → Result ℕ
unfolding to_u64
min_size_of sys_decimal_value coin_decimals coin_lot_size = do
  product ← unwrap (Std.checked_mul 128 coin_lot_size sys_decimal_value)
  scale ← unwrap (Std.checked_pow 128 10 coin_decimals)
  min_size ← unwrap (Std.checked_div product scale)
  if ltb min_size Std.u64_max then to_u64 min_size else ok 0

unfoldable pub amount_wave_of : ℕ → Result ℕ
amount_wave_of sys_decimal_value = do
  product ← unwrap (Std.checked_mul 64 sys_decimal_value 5)
  unwrap (Std.checked_div product 1000)

-- nonce, open_time, coin_decimals, pc_decimals, coin_lot_size, pc_lot_size
unfoldable pub initialize : ⦃u : Uint 128⦄ → AmmInfo → ℕ → ℕ → ℕ → ℕ → ℕ → ℕ → Result AmmInfo
initialize self nonce open_time coin_decimals pc_decimals coin_lot_size pc_lot_size = do
  scale ← scale_of coin_decimals pc_decimals
  sys_decimal_value ← sys_decimal scale coin_decimals pc_decimals coin_lot_size pc_lot_size
  min_size ← min_size_of sys_decimal_value coin_decimals coin_lot_size
  amount_wave ← amount_wave_of sys_decimal_value
  internal_pc_lot_size ←
      convert_in_pc_lot_size pc_decimals coin_decimals pc_lot_size coin_lot_size sys_decimal_value
  ok (record self {
    fees = Fee.initialize;
    state_data = initial_state_data open_time;
    status = Status.into_u64 AmmStatus.uninitialized;
    nonce = nonce;
    order_num = 7;
    depth = 3;
    coin_decimals = coin_decimals;
    pc_decimals = pc_decimals;
    state = Machine.into_u64 AmmState.idle_state;
    reset_flag = ResetFlag.into_u64 AmmResetFlag.reset_no;
    sys_decimal_value = sys_decimal_value;
    min_size = min_size;
    vol_max_cut_ratio = 500;
    amount_wave = amount_wave;
    coin_lot_size = coin_lot_size;
    pc_lot_size = internal_pc_lot_size;
    min_price_multiplier = 1;
    max_price_multiplier = 1000000000;
    client_order_id = 0;
    padding1 = replicate 8 0;
    padding2 = replicate 2 0;
  })

-- The next id, which skips 0 where the counter wraps.
unfoldable pub incr_client_order_id : AmmInfo → AmmInfo × ℕ
incr_client_order_id self =
    let next = (self.client_order_id + 1) % 2 ^ 64 in
    let id : ℕ = if next == 0 then next + 1 else next in (record self { client_order_id = id }, id)
