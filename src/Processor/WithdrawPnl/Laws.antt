-- ===== src/Processor/WithdrawPnl/Laws.antt =====
-- What `process_withdrawpnl` as a whole leaves of the profit.
use solana_dex_amm.Chain.{AccountInfo, Chain}
use solana_dex_amm.Result.{Ensures, ok, step}
use solana_dex_amm.Math.Vault.{calc_total_without_take_pnl}
use solana_dex_amm.Processor.Swap.Prepare.Laws.{load_amm_checked_lem}
use solana_dex_amm.Processor.Deposit.Measured.{IsMeasured, load_target_checked_lem, measure}
use solana_dex_amm.Processor.Deposit.Handler.{PoolOutcome, Totals, take_totals}
use solana_dex_amm.Processor.WithdrawPnl.Handler.{pnl_case, process_withdrawpnl}
use solana_dex_amm.Processor.WithdrawPnl.Steps.{PnlStep, finish_pnl-Ensures, pnl_case-IsCase}
use solana_dex_amm.Processor.WithdrawPnl.Accounts.{
  PnlAccounts, check_pnl_keys, check_pnl_mints, check_pnl_owner, check_pnl_referrer, pnl_accounts,
}
use solana_dex_amm.State.Target.{TargetOrders}
use solana_dex_amm.State.Amm.{AmmInfo}
use solana_dex_amm.Words.{Uint}
use solana_dex_amm.Chain.Load.{
  load_amm_checked, load_serum_market_order, load_target_checked, unpack_token_account,
}
use solana_dex_amm.Prelude.{List, false, some, ℕ, ◌≡◌}

-- What `process_withdrawpnl` leaves of the pool and of the target orders that it has loaded, and of the
-- chain.
pub record IsPnlTaken {W : Type 0} ⦃c : Chain W⦄ ⦃u : Uint 128⦄ (accounts : List AccountInfo)
    (w : W) (o : PoolOutcome W) : Type 0 where
  pub parsed : PnlAccounts
  pub parsed_eq : pnl_accounts accounts ≡ ok parsed
  pub amm : AmmInfo
  pub amm_read : c.amm_info w parsed.amm_info.key ≡ some amm
  pub target : TargetOrders
  pub target_read : c.target_orders w parsed.amm_target_orders.key ≡ some target
  pub totals : Totals
  pub measured :
      IsMeasured w amm target parsed.amm_coin_vault parsed.amm_pc_vault parsed.market
        parsed.amm_open_orders parsed.amm_authority parsed.market_event_queue totals
  pub next :
      PnlStep parsed target totals measured.coin.amount measured.pc.amount measured.orders w o

module _ {W : Type 0} ⦃c : Chain W⦄ ⦃u : Uint 128⦄ ⦃v : Uint 256⦄ (program_id : ℕ)
    (accounts : List AccountInfo) (w : W) where
  process_withdrawpnl-Ensures :
      Ensures (IsPnlTaken accounts w) (process_withdrawpnl program_id accounts w)
  unfolding process_withdrawpnl
  process_withdrawpnl-Ensures = step (pnl_accounts accounts) _ λ a parsed.
      step (check_pnl_referrer w a a.referrer_pc_wallet) _ λ _ _.
        step (load_amm_checked w a.amm_info program_id) _ λ amm load.
          step (check_pnl_owner w program_id a amm) _ λ _ _. step (check_pnl_keys w a amm) _ λ _ _.
            step (unpack_token_account w a.amm_coin_vault a.token_program.key) _
              λ coin_vault coin_read.
                step (unpack_token_account w a.amm_pc_vault a.token_program.key) _
                  λ pc_vault pc_read.
                    step (unpack_token_account w a.user_pnl_coin a.token_program.key) _
                      λ user_coin _.
                        step (unpack_token_account w a.user_pnl_pc a.token_program.key) _
                          λ user_pc _.
                            step
                              (load_target_checked w a.amm_target_orders program_id a.amm_info.key)
                              _
                              λ target load_target.
                                step (check_pnl_mints amm coin_vault pc_vault user_coin user_pc) _
                                  λ _ _.
                                    step
                                      (load_serum_market_order w a.market a.amm_open_orders
                                        a.amm_authority amm false)
                                      _
                                      λ market loaded.
                                        step
                                          (calc_total_without_take_pnl pc_vault.amount
                                            coin_vault.amount market.1 amm
                                            (c.load_event_queue w market.0 a.market_event_queue)
                                            a.amm_open_orders.key)
                                          _
                                          λ totals calc.
                                            step (take_totals target amm totals.0 totals.1) _ λ t e.
                                              step
                                                (pnl_case t.taken.amm coin_vault.amount
                                                  pc_vault.amount market.1)
                                                _
                                                λ branch case_eq. record {
                                                  holds = λ o last. record {
                                                    parsed = a;
                                                    parsed_eq = parsed;
                                                    amm = amm;
                                                    amm_read =
                                                        load_amm_checked_lem w a.amm_info program_id
                                                          load;
                                                    target = target;
                                                    target_read =
                                                        load_target_checked_lem w
                                                          a.amm_target_orders program_id
                                                          a.amm_info.key load_target;
                                                    totals = t;
                                                    measured =
                                                        measure w amm target a.amm_coin_vault
                                                          a.amm_pc_vault a.market a.amm_open_orders
                                                          a.amm_authority a.market_event_queue
                                                          a.token_program.key coin_read pc_read
                                                          loaded calc e;
                                                    next =
                                                        (finish_pnl-Ensures a target t
                                                            coin_vault.amount pc_vault.amount
                                                            market.1 w branch
                                                            (pnl_case-IsCase t.taken.amm
                                                            coin_vault.amount pc_vault.amount
                                                            market.1 branch case_eq)).holds
                                                          o last;
                                                  };
                                                }

  pub process_withdrawpnl-IsPnlTaken :
      (o : PoolOutcome W)
      → process_withdrawpnl program_id accounts w ≡ ok o
      → IsPnlTaken accounts w o
  process_withdrawpnl-IsPnlTaken o e = process_withdrawpnl-Ensures.holds o e
