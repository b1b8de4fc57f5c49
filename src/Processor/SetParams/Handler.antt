-- ===== src/Processor/SetParams/Handler.antt =====
-- program/src/processor.rs: `process_set_params`, as a whole.
use solana_dex_amm.State.Params
use solana_dex_amm.State.Machine
use solana_dex_amm.State.ResetFlag
use solana_dex_amm.Result.{
  Result, err_if, invalid_params_set, invalid_spl_token_program, ok, ◌>>=◌, ◌>>◌,
}
use solana_dex_amm.Chain.{AccountInfo, Chain}
use solana_dex_amm.Instruction.{SetParamsInstruction}
use solana_dex_amm.Processor.SetParams.Param.{Setting, set_param}
use solana_dex_amm.Processor.SetParams.Accounts.{
  check_params, do_cancel_amm_orders, params_accounts, settle_params,
}
use solana_dex_amm.State.ResetFlag.{AmmResetFlag}
use solana_dex_amm.State.Target.{TargetOrders}
use solana_dex_amm.State.Amm.{AmmInfo}
use solana_dex_amm.State.Machine.{AmmState}
use solana_dex_amm.Prelude.{List, Option, not, ℕ, ◌==◌}
use solana_dex_amm.Chain.Load.{load_amm_checked}

pub record ParamsOutcome (W : Type 0) : Type 0 where
  pub world : W
  pub amm : AmmInfo
  pub written : Option TargetOrders

-- what is left of a setting: the orders are to be canceled, whichever parameter was set
unfoldable pub finish_params : {W : Type 0} → W → Setting → Result (ParamsOutcome W)
finish_params w s = do
  err_if (not s.set_valid) invalid_params_set
  ok (record {
    world = w;
    amm = record (s.amm) {
      state = Machine.into_u64 AmmState.cancel_all_orders_state;
      reset_flag = ResetFlag.into_u64 AmmResetFlag.reset_yes;
    };
    written = s.written;
  })

module _ {W : Type 0} ⦃c : Chain W⦄ where
  unfoldable pub process_set_params :
      ℕ → List AccountInfo → SetParamsInstruction ℕ → W → Result (ParamsOutcome W)
  process_set_params program_id accounts p w = do
    (a, rest) ← params_accounts accounts
    err_if (not (a.token_program.key == c.spl_token_id)) invalid_spl_token_program
    amm ← load_amm_checked w a.amm_info program_id
    check_params w program_id a amm
    w1 ← do_cancel_amm_orders a amm w
    w2 ← settle_params a amm w1
    param ← Params.from_u64 p.param
    s ← set_param w2 program_id a rest p amm param
    finish_params w2 s
