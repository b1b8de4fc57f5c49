-- ===== src/Tests/Setup.antt =====
-- A run of `AmmInfo::initialize` of program/src/state.rs on lot sizes whose price is not whole.
use solana_dex_amm.State.Amm as Amm
use solana_dex_amm.State.Fees as Fee
use solana_dex_amm.State.Fees.Laws as FeeLaws
use solana_dex_amm.State.Status as Status
use solana_dex_amm.State.Machine as Machine
use solana_dex_amm.State.ResetFlag as ResetFlag
use solana_dex_amm.Result.{ok}
use solana_dex_amm.Tests.Data.{pool}
use solana_dex_amm.Math.Decimal.{convert_in_pc_lot_size, to_u64}
use solana_dex_amm.State.Amm.{
  AmmInfo, amount_wave_of, initial_state_data, min_size_of, scale_of, sys_decimal,
}
use solana_dex_amm.State.Amm.Laws.{initialize-pc_lot_size_zero_iff, initialize_sound}
use solana_dex_amm.Words.Instance.{std_uint}
use solana_dex_amm.Prelude.{refl, replicate, ◌%◌, ◌*◌, ◌/◌, ◌<◌, ◌^◌, ◌↔◌, ◌≡◌, ◌≢◌, ◌≤◌}

abbrev set_up : AmmInfo
set_up = record pool {
  status = 0;
  nonce = 254;
  state = 1;
  reset_flag = 1;
  sys_decimal_value = 1500000;
  min_size = 4500001;
  amount_wave = 7500;
  coin_lot_size = 3000001;
  pc_lot_size = 0;
  client_order_id = 0;
  padding1 = replicate 8 0;
  padding2 = replicate 2 0;
}

initialize_run : Amm.initialize ⦃u = std_uint 128⦄ pool 254 0 6 6 3000001 2 ≡ ok set_up
unfolding Amm.initialize Fee.initialize initial_state_data scale_of sys_decimal min_size_of
    amount_wave_of convert_in_pc_lot_size to_u64 Status.into_u64 Machine.into_u64 ResetFlag.into_u64
initialize_run = refl

initialize_sound_example :
    FeeLaws.IsValid set_up.fees
    × (set_up.status ≡ 0)
    × (set_up.state ≡ 1)
    × (set_up.lp_amount ≡ pool.lp_amount)
    × (set_up.state_data.need_take_pnl_pc ≡ 0)
    × (set_up.state_data.need_take_pnl_coin ≡ 0)
    × (10 ^ 6 ≤ 1500000)
    × (10 ^ 6 ≤ 1500000)
    × (3000001 * 10 ^ 6 / (2 * 10 ^ 6) ≤ 1500000)
    × (1500000 < 2 ^ 64)
initialize_sound_example =
    initialize_sound ⦃u = std_uint 128⦄ pool 254 0 6 6 3000001 2 {amm = set_up} initialize_run

initialize-pc_lot_size_zero_iff_example : (set_up.pc_lot_size ≡ 0) ↔ (
    (10 ^ 6 ≤ 3000001 * 10 ^ 6 / (2 * 10 ^ 6))
    × (10 ^ 6 ≤ 3000001 * 10 ^ 6 / (2 * 10 ^ 6))
    × (3000001 * 10 ^ 6 % (2 * 10 ^ 6) ≢ 0))
initialize-pc_lot_size_zero_iff_example =
    initialize-pc_lot_size_zero_iff ⦃u = std_uint 128⦄ pool 254 0 6 6 3000001 2 {amm = set_up}
      initialize_run
