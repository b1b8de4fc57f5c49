-- ===== src/Processor/SetParams/Param.antt =====
-- program/src/processor.rs, `process_set_params`: the parameter that is set, one branch for each.
use solana_dex_amm.State.Fees as Fee
use solana_dex_amm.Result.{
  Result, custom, err, err_if, invalid_input, ok, ok_or, unwrap_ok, ◌>>=◌, ◌>>◌,
}
use solana_dex_amm.Chain.{AccountInfo, Chain, next_account_info}
use solana_dex_amm.Instruction.{SetParamsInstruction}
use solana_dex_amm.Math.Vault.{calc_exact_vault_in_serum}
use solana_dex_amm.Processor.SetParams.Accounts.{ParamsAccounts}
use solana_dex_amm.State.Target.{LastOrderDistance, TargetOrders, max_order_limit}
use solana_dex_amm.State.Amm.{AmmInfo}
use solana_dex_amm.State.Status.{valid_status}
use solana_dex_amm.State.Machine.{valid_state}
use solana_dex_amm.State.Params.{AmmParams}
use solana_dex_amm.State.Fees.{Fees, ten_thousand}
use solana_dex_amm.Prelude.{
  Bool, List, Option, false, leb, ltb, none, not, some, true, ℕ, ◌&&◌, ◌==◌, ◌||◌,
}
use solana_dex_amm.Chain.Load.{load_serum_market_order, load_target_checked}

-- what a branch leaves: `set_valid`, the pool, and the target orders if they are written
pub record Setting : Type 0 where
  pub set_valid : Bool
  pub amm : AmmInfo
  pub written : Option TargetOrders

abbrev pub set_to : AmmInfo → Result Setting
set_to amm = ok (record { set_valid = true; amm = amm; written = none })

-- set to the second pool if the condition holds, and not valid if it does not
abbrev pub set_if : Bool → (amm amm' : AmmInfo) → Result Setting
set_if true amm amm' = set_to amm'
set_if false amm amm' = ok (record { set_valid = false; amm = amm; written = none })

module _ {W : Type 0} ⦃c : Chain W⦄ (w : W) where
  -- The status changes only while the market holds nothing of the pool.
  unfoldable pub check_nothing_shared : ParamsAccounts → AmmInfo → Result (Unit {0})
  check_nothing_shared a amm = do
    (market_state, open_orders) ←
        load_serum_market_order w a.market a.amm_open_orders a.amm_authority amm false
    (shared_pc, shared_coin) ← unwrap_ok (
        calc_exact_vault_in_serum open_orders (c.load_event_queue w market_state a.market_event_q)
          a.amm_open_orders.key)
    err_if (not (shared_pc == 0) || not (shared_coin == 0)) invalid_input

  unfoldable pub set_status : ParamsAccounts → Option ℕ → AmmInfo → Result Setting
  unfolding check_nothing_shared
  set_status a argument amm = do
    check_nothing_shared a amm
    value ← ok_or argument invalid_input
    set_if (valid_status value) amm (record amm { status = value })

  unfoldable pub set_distance :
      (program_id : ℕ) → ParamsAccounts → Option LastOrderDistance → AmmInfo → Result Setting
  set_distance program_id a argument amm = do
    target ← load_target_checked w a.amm_target_orders program_id a.amm_info.key
    distance ← ok_or argument invalid_input
    ok (record {
      set_valid = true;
      amm = amm;
      written = some (record target {
        last_order_numerator = distance.last_order_numerator;
        last_order_denominator = distance.last_order_denominator;
      });
    })

  -- The new open orders are the account behind the others, and must belong to the market and the pool.
  unfoldable pub set_open_orders :
      ParamsAccounts → (rest : List AccountInfo) → AmmInfo → Result Setting
  unfolding next_account_info
  set_open_orders a rest amm = do
    (new_open_orders, _) ← next_account_info rest
    let amm' = record amm { open_orders = new_open_orders.key }
    _ ← load_serum_market_order w a.market new_open_orders a.amm_authority amm' false
    set_to amm'

-- the parameters that are a number
unfoldable pub set_number : AmmParams → ℕ → AmmInfo → Result Setting
set_number AmmParams.state value amm = set_if (valid_state value) amm (record amm { state = value })
set_number AmmParams.order_num value amm = do
  err_if (ltb max_order_limit value) invalid_input
  set_to (record amm { order_num = value })
set_number AmmParams.depth value amm =
    set_if (ltb 0 value && ltb value 100) amm (record amm { depth = value })
set_number AmmParams.amount_wave value amm = set_to (record amm { amount_wave = value })
set_number AmmParams.min_price_multiplier value amm =
    set_if (ltb value amm.max_price_multiplier) amm (record amm { min_price_multiplier = value })
set_number AmmParams.max_price_multiplier value amm =
    set_if (ltb amm.max_price_multiplier value) amm (record amm { max_price_multiplier = value })
set_number AmmParams.vol_max_cut_ratio value amm =
    set_if (leb value ten_thousand) amm (record amm { vol_max_cut_ratio = value })
set_number AmmParams.seperate value amm =
    set_if (leb value ten_thousand) amm
      (record amm { fees = record (amm.fees) { min_separate_numerator = value } })
set_number AmmParams.set_open_time value amm =
    set_to (record amm { state_data = record (amm.state_data) { pool_open_time = value } })
set_number AmmParams.set_switch_time value amm =
    set_to (record amm { state_data = record (amm.state_data) { orderbook_to_init_time = value } })
set_number _ value amm = err (custom invalid_input)

unfoldable pub set_fees : Option Fees → AmmInfo → Result Setting
unfolding Fee.validate
set_fees argument amm = do
  fees ← ok_or argument invalid_input
  Fee.validate fees
  set_to (record amm { fees = fees })

unfoldable pub set_owner : Option ℕ → AmmInfo → Result Setting
set_owner argument amm = do
  new_pubkey ← ok_or argument invalid_input
  set_to (record amm { amm_owner = new_pubkey })

module _ {W : Type 0} ⦃c : Chain W⦄ (w : W) (program_id : ℕ) (a : ParamsAccounts)
    (rest : List AccountInfo) (p : SetParamsInstruction ℕ) (amm : AmmInfo) where
  unfoldable pub set_param : AmmParams → Result Setting
  unfolding set_status set_number set_fees set_owner set_distance set_open_orders
  set_param AmmParams.status = set_status w a p.value amm
  set_param AmmParams.fees = set_fees p.fees amm
  set_param AmmParams.amm_owner = set_owner p.new_pubkey amm
  set_param AmmParams.last_order_distance = set_distance w program_id a p.last_order_distance amm
  set_param AmmParams.init_order_depth = set_to (record amm { order_num = 7; depth = 3 })
  set_param AmmParams.clear_open_time = set_to (record amm {
    state_data = record (amm.state_data) { pool_open_time = 0; orderbook_to_init_time = 0 };
  })
  set_param AmmParams.update_open_order = set_open_orders w a rest amm
  set_param AmmParams.min_size = err (custom invalid_input)
  set_param param = do value ← ok_or p.value invalid_input; set_number param value amm
