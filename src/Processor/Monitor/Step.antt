-- ===== src/Processor/Monitor/Step.antt =====
-- program/src/processor.rs: `process_monitor_step`, with what `account_parser` loads for each state. A
-- failure of the state's function is unwrapped, and so a panic.
use solana_dex_amm.State.Status
use solana_dex_amm.State.Machine
use solana_dex_amm.State.ResetFlag
use solana_dex_amm.Result.{
  Result, err_if, invalid_market_program, invalid_owner, market_lot_size_is_too_large, ok,
  unwrap_ok, ◌>>=◌, ◌>>◌,
}
use solana_dex_amm.Chain.{AccountInfo, Chain, check_assert_eq}
use solana_dex_amm.Instruction.{MonitorStepInstruction}
use solana_dex_amm.Processor.Monitor.Idle.{do_idle_state}
use solana_dex_amm.Processor.Monitor.Cancel.{
  do_cancel_all_orders_state, do_cancel_order, do_purge_orders,
}
use solana_dex_amm.Processor.Monitor.Plan.{do_plan_orderbook}
use solana_dex_amm.Processor.Monitor.Accounts.{
  MonitorAccounts, check_accounts, load_book, load_funds, monitor_accounts,
}
use solana_dex_amm.Processor.Monitor.Place.Loop.{do_place_orders}
use solana_dex_amm.State.ResetFlag.{AmmResetFlag}
use solana_dex_amm.State.Target.{TargetOrders}
use solana_dex_amm.State.Amm.{AmmInfo}
use solana_dex_amm.State.Status.{AmmStatus}
use solana_dex_amm.State.Machine.{AmmState}
use solana_dex_amm.Words.{Uint}
use solana_dex_amm.Prelude.{
  Bool, List, Option, false, if◌then◌else◌, none, not, some, true, ℕ, ◌==◌,
}
use solana_dex_amm.Chain.Load.{
  load_amm_checked, load_serum_market_order, load_target_checked, unpack_token_account,
}

-- what a step leaves; the target orders only if they are written
pub record MonitorOutcome (W : Type 0) : Type 0 where
  pub world : W
  pub amm : AmmInfo
  pub written : Option TargetOrders

module _ {W : Type 0} ⦃c : Chain W⦄ where
  -- CancelAllOrdersArgs
  unfoldable pub step_cancel_all : ℕ → MonitorAccounts → AmmInfo → W → Result (MonitorOutcome W)
  step_cancel_all program_id a amm w = do
    target ← load_target_checked w a.amm_target_orders program_id a.amm_info.key
    book ← load_book w a amm true
    (w', amm', target') ← do_cancel_all_orders_state a amm target book w
    ok (record { world = w'; amm = amm'; written = some target' })

  -- CancelOrderArgs
  unfoldable pub step_cancel : ℕ → MonitorAccounts → AmmInfo → W → Result (MonitorOutcome W)
  step_cancel program_id a amm w = do
    coin_vault ← unpack_token_account w a.amm_coin_vault a.token_program.key
    pc_vault ← unpack_token_account w a.amm_pc_vault a.token_program.key
    target ← load_target_checked w a.amm_target_orders program_id a.amm_info.key
    book ← load_book w a amm true
    ok (record { world = w; amm = do_cancel_order amm; written = none })

  -- PurgeOrderArgs
  unfoldable pub step_purge : ℕ → MonitorAccounts → AmmInfo → W → Result (MonitorOutcome W)
  step_purge program_id a amm w = do
    target ← load_target_checked w a.amm_target_orders program_id a.amm_info.key
    book ← load_book w a amm true
    (w', amm') ← do_purge_orders a amm target book.bids book.asks w
    ok (record { world = w'; amm = amm'; written = none })

-- the states in which the pool is on the order book
unfoldable pub on_book : AmmStatus → Bool
on_book AmmStatus.initialized = true
on_book AmmStatus.order_book_only = true
on_book AmmStatus.uninitialized = false
on_book AmmStatus.disabled = false
on_book AmmStatus.withdraw_only = false
on_book AmmStatus.liquidity_only = false
on_book AmmStatus.swap_only = false
on_book AmmStatus.waiting_trade = false

module _ {W : Type 0} ⦃c : Chain W⦄ ⦃u : Uint 128⦄ where
  -- PlanOrderBookArgs
  unfoldable pub step_plan :
      (plan_order_limit program_id : ℕ) → MonitorAccounts → AmmInfo → W → Result (MonitorOutcome W)
  step_plan plan_order_limit program_id a amm w = do
    coin_vault ← unpack_token_account w a.amm_coin_vault a.token_program.key
    pc_vault ← unpack_token_account w a.amm_pc_vault a.token_program.key
    target ← load_target_checked w a.amm_target_orders program_id a.amm_info.key
    (market_state, open_orders) ←
        load_serum_market_order w a.market a.amm_open_orders a.amm_authority amm false
    f ← load_funds w a amm market_state open_orders coin_vault.amount pc_vault.amount
    (amm', target') ← do_plan_orderbook plan_order_limit amm target f.total_pc f.total_coin
    ok (record { world = w; amm = amm'; written = some target' })

  -- PlaceOrdersArgs
  unfoldable pub step_place :
      (place_order_limit program_id : ℕ) → MonitorAccounts → AmmInfo → W → Result (MonitorOutcome W)
  step_place place_order_limit program_id a amm w = do
    coin_vault ← unpack_token_account w a.amm_coin_vault a.token_program.key
    pc_vault ← unpack_token_account w a.amm_pc_vault a.token_program.key
    target ← load_target_checked w a.amm_target_orders program_id a.amm_info.key
    book ← load_book w a amm false
    f ← load_funds w a amm book.market_state book.open_orders coin_vault.amount pc_vault.amount
    (w', amm', target') ← do_place_orders place_order_limit a amm target book f w
    ok (record { world = w'; amm = amm'; written = some target' })

module _ {W : Type 0} ⦃c : Chain W⦄ ⦃u : Uint 128⦄ ⦃v : Uint 256⦄ where
  -- IdleArgs
  unfoldable pub step_idle : ℕ → MonitorAccounts → AmmInfo → W → Result (MonitorOutcome W)
  step_idle program_id a amm w = do
    coin_vault ← unpack_token_account w a.amm_coin_vault a.token_program.key
    pc_vault ← unpack_token_account w a.amm_pc_vault a.token_program.key
    target ← load_target_checked w a.amm_target_orders program_id a.amm_info.key
    book ← load_book w a amm false
    f ← load_funds w a amm book.market_state book.open_orders coin_vault.amount pc_vault.amount
    (amm', target') ← do_idle_state amm target f.total_pc f.total_coin book.bids book.asks
    ok (record { world = w; amm = amm'; written = some target' })

  -- one step of a pool that is on the order book
  unfoldable pub step_state :
      AmmState
      → MonitorStepInstruction
      → ℕ
      → MonitorAccounts
      → AmmInfo
      → W
      → Result (MonitorOutcome W)
  step_state AmmState.idle_state m program_id a amm w = step_idle program_id a amm w
  step_state AmmState.cancel_all_orders_state m program_id a amm w =
      step_cancel_all program_id a amm w
  step_state AmmState.plan_orders_state m program_id a amm w =
      step_plan m.plan_order_limit program_id a amm w
  step_state AmmState.cancel_order_state m program_id a amm w = step_cancel program_id a amm w
  step_state AmmState.place_orders_state m program_id a amm w =
      step_place m.place_order_limit program_id a amm w
  step_state AmmState.purge_order_state m program_id a amm w = step_purge program_id a amm w
  step_state AmmState.invlid_state m program_id a amm w =
      ok (record { world = w; amm = amm; written = none })

  -- the branches behind the checks
  unfoldable pub step_pool :
      MonitorStepInstruction
      → AmmStatus
      → AmmState
      → ℕ
      → MonitorAccounts
      → AmmInfo
      → W
      → Result (MonitorOutcome W)
  unfolding step_state on_book
  step_pool m status state program_id a amm w =
      if amm.reset_flag == ResetFlag.into_u64 AmmResetFlag.reset_yes
      then unwrap_ok (step_cancel_all program_id a amm w)
      else if amm.order_num == 0
      then ok (record { world = w; amm = amm; written = none })
      else if on_book status
      then unwrap_ok (step_state state m program_id a amm w)
      else ok (record { world = w; amm = amm; written = none })

  unfoldable pub process_monitor_step :
      ℕ → List AccountInfo → MonitorStepInstruction → W → Result (MonitorOutcome W)
  unfolding check_assert_eq
  process_monitor_step program_id accounts m w = do
    a ← monitor_accounts accounts
    amm ← load_amm_checked w a.amm_info program_id
    check_accounts w program_id a amm
    check_assert_eq a.market_program.key c.openbook_program_id invalid_market_program
    err_if (not (a.amm_info.owner == program_id)) invalid_owner
    err_if (amm.min_size == 0) market_lot_size_is_too_large
    status ← Status.from_u64 amm.status
    state ← Machine.from_u64 amm.state
    step_pool m status state program_id a amm w
