-- ===== src/Processor/SetParams/Laws.antt =====
-- What a call of `process_set_params` leaves of the pool, and who can make it.
use solana_dex_amm.State.Machine
use solana_dex_amm.State.Params
use solana_dex_amm.State.ResetFlag
use solana_dex_amm.Chain.{AccountInfo, Chain}
use solana_dex_amm.Result.{
  Ensures, err_if, invalid_params_set, invalid_spl_token_program, ok, ok-Ensures, step,
}
use solana_dex_amm.Instruction.{SetParamsInstruction}
use solana_dex_amm.Processor.Swap.Prepare.Laws.{load_amm_checked_lem}
use solana_dex_amm.Processor.SetParams.Kept.{KeepsFunds, set_param-Ensures}
use solana_dex_amm.Processor.SetParams.Handler.{ParamsOutcome, finish_params, process_set_params}
use solana_dex_amm.Processor.SetParams.Param.{Setting, set_param}
use solana_dex_amm.Processor.SetParams.Accounts.{
  ParamsAccounts, check_params, check_params_owner, do_cancel_amm_orders, params_accounts,
  settle_params,
}
use solana_dex_amm.State.Amm.{AmmInfo}
use solana_dex_amm.Prelude.{List, arith, not, refl, some, true, ℕ, ◌==◌, ◌≡◌, ◌⊎◌}
use solana_dex_amm.Chain.Load.{load_amm_checked}

-- What a call leaves of the pool that it has loaded, and who has signed it.
pub record IsParamsSet {W : Type 0} ⦃c : Chain W⦄ (accounts : List AccountInfo)
    (p : SetParamsInstruction ℕ) (w : W) (o : ParamsOutcome W) : Type 0 where
  pub parsed : ParamsAccounts
  pub rest : List AccountInfo
  pub parsed_eq : params_accounts accounts ≡ ok (parsed, rest)
  pub signer : parsed.amm_owner.is_signer ≡ true
  pub owner : (parsed.amm_owner.key ≡ c.amm_owner_id) ⊎ (parsed.amm_owner.key ≡ c.amm_subscriber_id)
  pub amm : AmmInfo
  pub read : c.amm_info w parsed.amm_info.key ≡ some amm
  pub canceling : o.amm.state ≡ 2
  pub reset : o.amm.reset_flag ≡ 0
  pub kept : KeepsFunds p amm o.amm

module _ {W : Type 0} ⦃c : Chain W⦄ (w : W) where
  check_params-owner :
      (program_id : ℕ) (a : ParamsAccounts) (amm : AmmInfo)
      → check_params w program_id a amm ≡ ok tt
      → (a.amm_owner.is_signer ≡ true)
        × ((a.amm_owner.key ≡ c.amm_owner_id) ⊎ (a.amm_owner.key ≡ c.amm_subscriber_id))
  unfolding check_params check_params_owner
  check_params-owner program_id a amm e = ground arith

  finish_params-Ensures :
      (p : SetParamsInstruction ℕ) (amm : AmmInfo) (s : Setting)
      → KeepsFunds p amm s.amm
      → Ensures
          (λ o. (o.amm.state ≡ 2) × (o.amm.reset_flag ≡ 0) × KeepsFunds p amm o.amm)
          (finish_params w s)
  unfolding finish_params Machine.into_u64 ResetFlag.into_u64
  finish_params-Ensures p amm s k = step (err_if (not s.set_valid) invalid_params_set) _ λ _ _.
      ok-Ensures _ (
        refl,
        refl,
        record {
          funds_same = k.funds_same;
          status = k.status;
          order_num = k.order_num;
          multiplier_le = k.multiplier_le;
        },
      )

module _ {W : Type 0} ⦃c : Chain W⦄ (program_id : ℕ) (accounts : List AccountInfo)
    (p : SetParamsInstruction ℕ) (w : W) where
  process_set_params-Ensures :
      Ensures (IsParamsSet accounts p w) (process_set_params program_id accounts p w)
  unfolding process_set_params
  process_set_params-Ensures = step (params_accounts accounts) _ λ (a, rest) parsed.
      step (err_if (not (a.token_program.key == c.spl_token_id)) invalid_spl_token_program) _ λ _ _.
        step (load_amm_checked w a.amm_info program_id) _ λ amm load.
          step (check_params w program_id a amm) _ λ _ checked.
            step (do_cancel_amm_orders a amm w) _ λ w1 _. step (settle_params a amm w1) _ λ w2 _.
              step (Params.from_u64 p.param) _ λ param _.
                step (set_param w2 program_id a rest p amm param) _ λ s e. record {
                  holds = λ o last.
                      let signed = check_params-owner w program_id a amm checked in
                      let set =
                        (finish_params-Ensures w2 p amm s
                            ((set_param-Ensures w2 program_id a rest p amm param).holds s e)).holds
                          o last in
                      record {
                        parsed = a;
                        rest = rest;
                        parsed_eq = parsed;
                        signer = signed.0;
                        owner = signed.1;
                        amm = amm;
                        read = load_amm_checked_lem w a.amm_info program_id load;
                        canceling = set.0;
                        reset = set.1;
                        kept = set.2;
                      };
                }

  -- A successful `process_set_params` is signed by one of the two owners, and leaves the pool to be reset,
  -- in CancelAllOrdersState whichever parameter is set, the state itself included. It keeps the pool's LP
  -- amount, vaults and booked profit, gives it only a valid status and only the one that is asked for,
  -- sets no number of orders above 10, and never lowers the largest price multiplier.
  pub process_set_params-IsParamsSet :
      (o : ParamsOutcome W)
      → process_set_params program_id accounts p w ≡ ok o
      → IsParamsSet accounts p w o
  process_set_params-IsParamsSet o e = process_set_params-Ensures.holds o e
