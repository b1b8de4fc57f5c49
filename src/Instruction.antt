-- ===== src/Instruction.antt =====
-- program/src/instruction.rs: the instructions and the arguments that each of them carries. A key is of
-- the type `P`, which stands for `Pubkey` of the crate solana_program.
pub mod Key
pub mod Read
pub mod Arguments
pub mod Unpack
pub mod Pack
pub mod Packable
pub mod Panics
pub mod Roundtrip
use solana_dex_amm.State.Target.{LastOrderDistance}
use solana_dex_amm.State.Fees.{Fees}
use solana_dex_amm.Prelude.{Option, ℕ}

pub record InitializeInstruction : Type 0 where
  pub nonce : ℕ
  pub open_time : ℕ

pub record InitializeInstruction2 : Type 0 where
  pub nonce : ℕ
  pub open_time : ℕ
  pub init_pc_amount : ℕ
  pub init_coin_amount : ℕ

pub record PreInitializeInstruction : Type 0 where
  pub nonce : ℕ

pub record MonitorStepInstruction : Type 0 where
  pub plan_order_limit : ℕ
  pub place_order_limit : ℕ
  pub cancel_order_limit : ℕ

pub record DepositInstruction : Type 0 where
  pub max_coin_amount : ℕ
  pub max_pc_amount : ℕ
  pub base_side : ℕ

pub record WithdrawInstruction : Type 0 where
  pub amount : ℕ

pub record SetParamsInstruction (P : Type 0) : Type 0 where
  pub param : ℕ
  pub value : Option ℕ
  pub new_pubkey : Option P
  pub fees : Option Fees
  pub last_order_distance : Option LastOrderDistance

pub record WithdrawSrmInstruction : Type 0 where
  pub amount : ℕ

pub record SwapInstructionBaseIn : Type 0 where
  pub amount_in : ℕ
  pub minimum_amount_out : ℕ

pub record SwapInstructionBaseOut : Type 0 where
  pub max_amount_in : ℕ
  pub amount_out : ℕ

pub record SimulateInstruction : Type 0 where
  pub param : ℕ
  pub swap_base_in_value : Option SwapInstructionBaseIn
  pub swap_base_out_value : Option SwapInstructionBaseOut

pub record AdminCancelOrdersInstruction : Type 0 where
  pub limit : ℕ

pub record ConfigArgs (P : Type 0) : Type 0 where
  pub param : ℕ
  pub owner : Option P
  pub create_pool_fee : Option ℕ

pub data AmmInstruction (P : Type 0) : Type 0 where
  initialize_pool : InitializeInstruction → AmmInstruction P
  initialize2 : InitializeInstruction2 → AmmInstruction P
  monitor_step : MonitorStepInstruction → AmmInstruction P
  deposit : DepositInstruction → AmmInstruction P
  withdraw : WithdrawInstruction → AmmInstruction P
  migrate_to_open_book : AmmInstruction P
  set_params : SetParamsInstruction P → AmmInstruction P
  withdraw_pnl : AmmInstruction P
  withdraw_srm : WithdrawSrmInstruction → AmmInstruction P
  swap_base_in : SwapInstructionBaseIn → AmmInstruction P
  pre_initialize : PreInitializeInstruction → AmmInstruction P
  swap_base_out : SwapInstructionBaseOut → AmmInstruction P
  simulate_info : SimulateInstruction → AmmInstruction P
  admin_cancel_orders : AdminCancelOrdersInstruction → AmmInstruction P
  create_config_account : AmmInstruction P
  update_config_account : ConfigArgs P → AmmInstruction P
  owner_withdraw : AmmInstruction P
