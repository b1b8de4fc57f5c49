-- ===== src/Processor/Monitor/Laws/Step.antt =====
-- `process_monitor_step` takes the steps of the state machine only.
use solana_dex_amm.State.Machine
use solana_dex_amm.State.Status
use solana_dex_amm.State.ResetFlag
use solana_dex_amm.Chain.{AccountInfo, Chain, check_assert_eq}
use solana_dex_amm.Result.{
  Ensures, Result, err, err_if, if-Ensures, invalid_market_program, invalid_owner,
  market_lot_size_is_too_large, ok, ok-Ensures, panic, step, unwrap_ok,
}
use solana_dex_amm.Instruction.{MonitorStepInstruction}
use solana_dex_amm.Processor.Swap.Prepare.Laws.{load_amm_checked_lem}
use solana_dex_amm.Processor.Monitor.Idle.{do_idle_state}
use solana_dex_amm.Processor.Monitor.Cancel.{
  do_cancel_all_orders_state, do_cancel_order, do_purge_orders,
}
use solana_dex_amm.Processor.Monitor.Step.{
  MonitorOutcome, on_book, process_monitor_step, step_cancel, step_cancel_all, step_idle,
  step_place, step_plan, step_pool, step_purge, step_state,
}
use solana_dex_amm.Processor.Monitor.Laws.{
  IsMonitorStep, KeepsPool, StateStep, cancel_all-Ensures, cancel_to_idle, keeps, plan-Ensures,
  purge-Ensures,
}
use solana_dex_amm.Processor.Monitor.Plan.{do_plan_orderbook}
use solana_dex_amm.Processor.Monitor.Accounts.{
  MonitorAccounts, check_accounts, load_book, load_funds, monitor_accounts,
}
use solana_dex_amm.Processor.Monitor.Laws.Idle.{idle-Ensures}
use solana_dex_amm.Processor.Monitor.Laws.Place.{place-Ensures}
use solana_dex_amm.Processor.Monitor.Place.Loop.{do_place_orders}
use solana_dex_amm.State.Amm.{AmmInfo}
use solana_dex_amm.State.Status.{AmmStatus}
use solana_dex_amm.State.Machine.{AmmState}
use solana_dex_amm.Words.{Uint}
use solana_dex_amm.Prelude.{
  List, arith, false, inl, inr, not, refl, some, sym, true, ℕ, ◌==◌, ◌≡◌, ◌⊎◌,
}
use solana_dex_amm.Chain.Load.{
  load_amm_checked, load_serum_market_order, load_target_checked, unpack_token_account,
}

unwrap_ok-Ensures {ℓ κ} :
    {A : Type ℓ} {P : A → Type κ} (r : Result A) → Ensures P r → Ensures P (unwrap_ok r)
unwrap_ok-Ensures panic h = h
unwrap_ok-Ensures (err _) h = record { holds = λ a e. absurd (ground arith) }
unwrap_ok-Ensures (ok a) h = h

IsMonitorStep-of :
    (amm amm' : AmmInfo)
    → KeepsPool amm amm'
    → (amm'.state ≡ amm.state)
      ⊎ StateStep amm.state amm'.state
      ⊎ ((amm.reset_flag ≡ 0) × (amm'.state ≡ 1))
    → IsMonitorStep amm amm'
IsMonitorStep-of amm amm' k s = record {
  state = s;
  status_same = k.status_same;
  lp_same = k.lp_same;
  fees_same = k.fees_same;
}

module _ {W : Type 0} ⦃c : Chain W⦄ (program_id : ℕ) (a : MonitorAccounts) (amm : AmmInfo)
    (w : W) where
  step_cancel_all-Ensures :
      (amm.state ≡ 2) ⊎ (amm.reset_flag ≡ 0)
      → Ensures (λ o. IsMonitorStep amm o.amm) (step_cancel_all program_id a amm w)
  unfolding step_cancel_all
  step_cancel_all-Ensures h =
      step (load_target_checked w a.amm_target_orders program_id a.amm_info.key) _ λ target _.
        step (load_book w a amm true) _ λ book _.
          step (do_cancel_all_orders_state a amm target book w) _ λ r e.
            let (kept, state) = (cancel_all-Ensures a amm target book w).holds r e in
            ok-Ensures _ (IsMonitorStep-of amm r.1 kept (ground arith))

  step_purge-Ensures :
      amm.state ≡ 6 → Ensures (λ o. IsMonitorStep amm o.amm) (step_purge program_id a amm w)
  unfolding step_purge
  step_purge-Ensures h =
      step (load_target_checked w a.amm_target_orders program_id a.amm_info.key) _ λ target _.
        step (load_book w a amm true) _ λ book _.
          step (do_purge_orders a amm target book.bids book.asks w) _ λ r e.
            let (kept, state) = (purge-Ensures a amm target book.bids book.asks w).holds r e in
            ok-Ensures _ (IsMonitorStep-of amm r.1 kept (ground arith))

  step_cancel-Ensures :
      amm.state ≡ 4 → Ensures (λ o. IsMonitorStep amm o.amm) (step_cancel program_id a amm w)
  unfolding step_cancel do_cancel_order Machine.into_u64
  step_cancel-Ensures h =
      step (unpack_token_account w a.amm_coin_vault a.token_program.key) _ λ _ _.
        step (unpack_token_account w a.amm_pc_vault a.token_program.key) _ λ _ _.
          step (load_target_checked w a.amm_target_orders program_id a.amm_info.key) _ λ _ _.
            step (load_book w a amm true) _ λ _ _. ok-Ensures _ (record {
              state = inr (inl (cancel_to_idle h refl));
              status_same = refl;
              lp_same = refl;
              fees_same = refl;
            })

module _ {W : Type 0} ⦃c : Chain W⦄ ⦃u : Uint 128⦄ (program_id : ℕ) (a : MonitorAccounts)
    (amm : AmmInfo) (w : W) where
  step_plan-Ensures :
      (limit : ℕ)
      → amm.state ≡ 3
      → Ensures (λ o. IsMonitorStep amm o.amm) (step_plan limit program_id a amm w)
  unfolding step_plan
  step_plan-Ensures limit h =
      step (unpack_token_account w a.amm_coin_vault a.token_program.key) _ λ coin _.
        step (unpack_token_account w a.amm_pc_vault a.token_program.key) _ λ pc _.
          step (load_target_checked w a.amm_target_orders program_id a.amm_info.key) _ λ target _.
            step (load_serum_market_order w a.market a.amm_open_orders a.amm_authority amm false) _
              λ m _. step (load_funds w a amm m.0 m.1 coin.amount pc.amount) _ λ f _.
                step (do_plan_orderbook limit amm target f.total_pc f.total_coin) _ λ r e.
                  let (kept, state) =
                    (plan-Ensures limit amm target f.total_pc f.total_coin).holds r e in
                  ok-Ensures _ (IsMonitorStep-of amm r.0 kept (ground arith))

  step_place-Ensures :
      (limit : ℕ)
      → amm.state ≡ 5
      → Ensures (λ o. IsMonitorStep amm o.amm) (step_place limit program_id a amm w)
  unfolding step_place
  step_place-Ensures limit h =
      step (unpack_token_account w a.amm_coin_vault a.token_program.key) _ λ coin _.
        step (unpack_token_account w a.amm_pc_vault a.token_program.key) _ λ pc _.
          step (load_target_checked w a.amm_target_orders program_id a.amm_info.key) _ λ target _.
            step (load_book w a amm false) _ λ b _.
              step (load_funds w a amm b.market_state b.open_orders coin.amount pc.amount) _ λ f _.
                step (do_place_orders limit a amm target b f w) _ λ r e.
                  let (kept, state) = (place-Ensures a amm limit target b f w).holds r e in
                  ok-Ensures _ (IsMonitorStep-of amm r.1 kept (ground arith))

module _ {W : Type 0} ⦃c : Chain W⦄ ⦃u : Uint 128⦄ ⦃v : Uint 256⦄ (program_id : ℕ)
    (a : MonitorAccounts) (amm : AmmInfo) (w : W) where
  step_idle-Ensures :
      amm.state ≡ 1 → Ensures (λ o. IsMonitorStep amm o.amm) (step_idle program_id a amm w)
  unfolding step_idle
  step_idle-Ensures h =
      step (unpack_token_account w a.amm_coin_vault a.token_program.key) _ λ coin _.
        step (unpack_token_account w a.amm_pc_vault a.token_program.key) _ λ pc _.
          step (load_target_checked w a.amm_target_orders program_id a.amm_info.key) _ λ target _.
            step (load_book w a amm false) _ λ b _.
              step (load_funds w a amm b.market_state b.open_orders coin.amount pc.amount) _ λ f _.
                step (do_idle_state amm target f.total_pc f.total_coin b.bids b.asks) _ λ r e.
                  let (kept, state) =
                    (idle-Ensures amm target f.total_pc f.total_coin b.bids b.asks).holds r e in
                  ok-Ensures _ (IsMonitorStep-of amm r.0 kept (ground arith))

  step_state-Ensures :
      (state : AmmState) (m : MonitorStepInstruction)
      → Machine.into_u64 state ≡ amm.state
      → Ensures (λ o. IsMonitorStep amm o.amm) (step_state state m program_id a amm w)
  unfolding step_state Machine.into_u64
  step_state-Ensures AmmState.idle_state m h = step_idle-Ensures (sym h)
  step_state-Ensures AmmState.cancel_all_orders_state m h =
      step_cancel_all-Ensures program_id a amm w (inl (sym h))
  step_state-Ensures AmmState.plan_orders_state m h =
      step_plan-Ensures program_id a amm w m.plan_order_limit (sym h)
  step_state-Ensures AmmState.cancel_order_state m h =
      step_cancel-Ensures program_id a amm w (sym h)
  step_state-Ensures AmmState.place_orders_state m h =
      step_place-Ensures program_id a amm w m.place_order_limit (sym h)
  step_state-Ensures AmmState.purge_order_state m h = step_purge-Ensures program_id a amm w (sym h)
  step_state-Ensures AmmState.invlid_state m h =
      ok-Ensures _ (IsMonitorStep-of amm amm (keeps amm) (inl refl))

  step_pool-Ensures :
      (m : MonitorStepInstruction) (status : AmmStatus) (state : AmmState)
      → Machine.into_u64 state ≡ amm.state
      → Ensures (λ o. IsMonitorStep amm o.amm) (step_pool m status state program_id a amm w)
  unfolding step_pool ResetFlag.into_u64
  step_pool-Ensures m status state h =
      if-Ensures (amm.reset_flag == 0)
        (λ reset.
          unwrap_ok-Ensures (step_cancel_all program_id a amm w)
            (step_cancel_all-Ensures program_id a amm w (inr (ground arith))))
        λ _.
          if-Ensures (amm.order_num == 0)
            (λ _. ok-Ensures _ (IsMonitorStep-of amm amm (keeps amm) (inl refl)))
            λ _.
              if-Ensures (on_book status)
                (λ _.
                  unwrap_ok-Ensures (step_state state m program_id a amm w)
                    (step_state-Ensures state m h))
                (λ _. ok-Ensures _ (IsMonitorStep-of amm amm (keeps amm) (inl refl)))

-- What a successful `process_monitor_step` has done with the pool that it has loaded.
pub record IsMonitored {W : Type 0} ⦃c : Chain W⦄ (accounts : List AccountInfo) (w : W)
    (o : MonitorOutcome W) : Type 0 where
  pub parsed : MonitorAccounts
  pub parsed_eq : monitor_accounts accounts ≡ ok parsed
  pub amm : AmmInfo
  pub read : c.amm_info w parsed.amm_info.key ≡ some amm
  pub stepped : IsMonitorStep amm o.amm

module _ {W : Type 0} ⦃c : Chain W⦄ ⦃u : Uint 128⦄ ⦃v : Uint 256⦄ (program_id : ℕ)
    (accounts : List AccountInfo) (m : MonitorStepInstruction) (w : W) where
  process_monitor_step-Ensures :
      Ensures (IsMonitored accounts w) (process_monitor_step program_id accounts m w)
  unfolding process_monitor_step
  process_monitor_step-Ensures = step (monitor_accounts accounts) _ λ a parsed.
      step (load_amm_checked w a.amm_info program_id) _ λ amm load.
        step (check_accounts w program_id a amm) _ λ _ _.
          step (check_assert_eq a.market_program.key c.openbook_program_id invalid_market_program) _
            λ _ _. step (err_if (not (a.amm_info.owner == program_id)) invalid_owner) _ λ _ _.
              step (err_if (amm.min_size == 0) market_lot_size_is_too_large) _ λ _ _.
                step (Status.from_u64 amm.status) _ λ status _.
                  step (Machine.from_u64 amm.state) _ λ state from. record {
                    holds = λ o e. record {
                      parsed = a;
                      parsed_eq = parsed;
                      amm = amm;
                      read = load_amm_checked_lem w a.amm_info program_id load;
                      stepped =
                          (step_pool-Ensures program_id a amm w m status state
                              (Machine.into_u64_of_from_u64 amm.state state from)).holds
                            o e;
                    };
                  }

  -- A successful `process_monitor_step` leaves the state of the pool that it has loaded as it is, or takes
  -- a step of `StateStep`, or, for a pool that is to be reset, goes to IdleState; and it never changes the
  -- pool's status, LP amount or fees.
  pub process_monitor_step-IsMonitored :
      (o : MonitorOutcome W)
      → process_monitor_step program_id accounts m w ≡ ok o
      → IsMonitored accounts w o
  process_monitor_step-IsMonitored o e = process_monitor_step-Ensures.holds o e
