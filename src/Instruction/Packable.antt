-- ===== src/Instruction/Packable.antt =====
-- Which instructions of program/src/instruction.rs are well formed: the numbers fit their widths, and of
use solana_dex_amm.Instruction.{
  AmmInstruction, ConfigArgs, SetParamsInstruction, SimulateInstruction, SwapInstructionBaseIn,
  SwapInstructionBaseOut, admin_cancel_orders, create_config_account, deposit, initialize2,
  initialize_pool, migrate_to_open_book, monitor_step, owner_withdraw, pre_initialize, set_params,
  simulate_info, swap_base_in, swap_base_out, update_config_account, withdraw, withdraw_pnl,
  withdraw_srm,
}
use solana_dex_amm.State.Target.{LastOrderDistance}
use solana_dex_amm.State.Params.{AmmParams}
use solana_dex_amm.State.Fees.{Fees}
use solana_dex_amm.State.Fees.Laws.{IsWords}
use solana_dex_amm.Instruction.Key.{Keys}
use solana_dex_amm.Prelude.{Bool, false, none, some, true, ℕ, ◌<◌, ◌^◌, ◌≡◌}
-- the optional arguments exactly those are there that the parameter asks for.
use solana_dex_amm.State.Params as Params

-- what `SetParams` sets
pub data Setting (P : Type 0) : Type 0 where
  new_owner : P → Setting P
  new_fees : Fees → Setting P
  new_distance : LastOrderDistance → Setting P
  new_value : AmmParams → ℕ → Setting P

-- what `SimulateInfo` asks for
pub data Simulation : Type 0 where
  of_pool of_crank : Simulation
  of_base_in : SwapInstructionBaseIn → Simulation
  of_base_out : SwapInstructionBaseOut → Simulation

-- what `UpdateConfigAccount` changes
pub data ConfigChange (P : Type 0) : Type 0 where
  pnl_owner : P → ConfigChange P
  cancel_owner : P → ConfigChange P
  pool_fee : ℕ → ConfigChange P

-- the parameters with an integer argument
abbrev pub takes_value : AmmParams → Bool
takes_value AmmParams.amm_owner = false
takes_value AmmParams.fees = false
takes_value AmmParams.last_order_distance = false
takes_value _ = true

abbrev pub setting_arguments : {P : Type 0} → Setting P → SetParamsInstruction P
setting_arguments (new_owner k) = record {
  param = 10;
  value = none;
  new_pubkey = some k;
  fees = none;
  last_order_distance = none;
}
setting_arguments (new_fees f) = record {
  param = 9;
  value = none;
  new_pubkey = none;
  fees = some f;
  last_order_distance = none;
}
setting_arguments (new_distance d) = record {
  param = 12;
  value = none;
  new_pubkey = none;
  fees = none;
  last_order_distance = some d;
}
setting_arguments (new_value p n) = record {
  param = Params.into_u64 p;
  value = some n;
  new_pubkey = none;
  fees = none;
  last_order_distance = none;
}

abbrev pub simulation_arguments : Simulation → SimulateInstruction
simulation_arguments of_pool = record {
  param = 0;
  swap_base_in_value = none;
  swap_base_out_value = none;
}
simulation_arguments of_crank = record {
  param = 3;
  swap_base_in_value = none;
  swap_base_out_value = none;
}
simulation_arguments (of_base_in swap) = record {
  param = 1;
  swap_base_in_value = some swap;
  swap_base_out_value = none;
}
simulation_arguments (of_base_out swap) = record {
  param = 2;
  swap_base_in_value = none;
  swap_base_out_value = some swap;
}

abbrev pub config_arguments : {P : Type 0} → ConfigChange P → ConfigArgs P
config_arguments (pnl_owner k) = record { param = 0; owner = some k; create_pool_fee = none }
config_arguments (cancel_owner k) = record { param = 1; owner = some k; create_pool_fee = none }
config_arguments (pool_fee n) = record { param = 2; owner = none; create_pool_fee = some n }

abbrev pub IsBaseIn : SwapInstructionBaseIn → Type 0
IsBaseIn i = (i.amount_in < 2 ^ 64) × (i.minimum_amount_out < 2 ^ 64)

abbrev pub IsBaseOut : SwapInstructionBaseOut → Type 0
IsBaseOut i = (i.max_amount_in < 2 ^ 64) × (i.amount_out < 2 ^ 64)

abbrev pub IsSimulation : Simulation → Type 0
IsSimulation of_pool = Unit {0}
IsSimulation of_crank = Unit {0}
IsSimulation (of_base_in swap) = IsBaseIn swap
IsSimulation (of_base_out swap) = IsBaseOut swap

module _ {P : Type 0} ⦃keys : Keys P⦄ where
  abbrev pub IsSetting : Setting P → Type 0
  IsSetting (new_owner k) = keys.IsKey k
  IsSetting (new_fees f) = IsWords f
  IsSetting (new_distance d) =
      (d.last_order_numerator < 2 ^ 64) × (d.last_order_denominator < 2 ^ 64)
  IsSetting (new_value p n) = (takes_value p ≡ true) × (n < 2 ^ 64)

  -- `pack` refuses the default key
  abbrev pub IsConfigChange : ConfigChange P → Type 0
  IsConfigChange (pnl_owner k) = keys.IsKey k × (keys.is_default k ≡ false)
  IsConfigChange (cancel_owner k) = keys.IsKey k × (keys.is_default k ≡ false)
  IsConfigChange (pool_fee n) = n < 2 ^ 64

  abbrev pub IsPackable : AmmInstruction P → Type 0
  IsPackable (initialize_pool i) = (i.nonce < 256) × (i.open_time < 2 ^ 64)
  IsPackable (initialize2 i) =
      (i.nonce < 256)
      × (i.open_time < 2 ^ 64)
      × (i.init_pc_amount < 2 ^ 64)
      × (i.init_coin_amount < 2 ^ 64)
  IsPackable (monitor_step i) =
      (i.plan_order_limit < 2 ^ 16)
      × (i.place_order_limit < 2 ^ 16)
      × (i.cancel_order_limit < 2 ^ 16)
  IsPackable (deposit i) =
      (i.max_coin_amount < 2 ^ 64) × (i.max_pc_amount < 2 ^ 64) × (i.base_side < 2 ^ 64)
  IsPackable (withdraw i) = i.amount < 2 ^ 64
  IsPackable migrate_to_open_book = Unit {0}
  IsPackable (set_params s) = (a : Setting P) × (setting_arguments a ≡ s) × IsSetting a
  IsPackable withdraw_pnl = Unit {0}
  IsPackable (withdraw_srm i) = i.amount < 2 ^ 64
  IsPackable (swap_base_in swap) = IsBaseIn swap
  IsPackable (pre_initialize i) = i.nonce < 256
  IsPackable (swap_base_out swap) = IsBaseOut swap
  IsPackable (simulate_info s) = (a : Simulation) × (simulation_arguments a ≡ s) × IsSimulation a
  IsPackable (admin_cancel_orders i) = i.limit < 2 ^ 16
  IsPackable create_config_account = Unit {0}
  IsPackable (update_config_account args) =
      (a : ConfigChange P) × (config_arguments a ≡ args) × IsConfigChange a
  IsPackable owner_withdraw = Unit {0}
