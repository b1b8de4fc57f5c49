-- ===== src/Tests/Steps.antt =====
-- Runs of `process_monitor_step` and `process_set_params` on the chain of the tests.
use solana_dex_amm.State.Status
use solana_dex_amm.State.Fees as Fee
use solana_dex_amm.State.Machine
use solana_dex_amm.State.Params
use solana_dex_amm.State.ResetFlag
use solana_dex_amm.Chain.{AccountInfo, check_assert_eq, next_account_info}
use solana_dex_amm.Instruction.{SetParamsInstruction}
use solana_dex_amm.Tests.Chain.{World, account, balances, run_call, send, targets_of, test_chain}
use solana_dex_amm.Tests.Data.{pool}
use solana_dex_amm.Math.Vault.{
  calc_exact_vault_in_serum, calc_total_without_take_pnl, calc_total_without_take_pnl_no_orderbook,
  without_take_pnl,
}
use solana_dex_amm.Processor.Orders.{collect_order_ids}
use solana_dex_amm.Processor.SetParams.Handler.{ParamsOutcome, finish_params, process_set_params}
use solana_dex_amm.Processor.SetParams.Laws.{IsParamsSet, process_set_params-IsParamsSet}
use solana_dex_amm.Processor.SetParams.Param.{set_number, set_param}
use solana_dex_amm.Processor.SetParams.Accounts.{
  cancel_orders, check_params, check_params_owner, do_cancel_amm_orders, params_accounts,
  settle_params,
}
use solana_dex_amm.Processor.Monitor.Cancel.{
  cancel_ids, count_zeros_from, do_cancel_all_orders_state, do_cancel_order, do_purge_orders,
  settle_open_orders,
}
use solana_dex_amm.Processor.Monitor.Step.{
  MonitorOutcome, on_book, process_monitor_step, step_cancel, step_cancel_all, step_idle,
  step_place, step_plan, step_pool, step_purge, step_state,
}
use solana_dex_amm.Processor.Monitor.Accounts.{
  MonitorAccounts, check_accounts, check_referrer_pc, check_srm_token, load_book, load_funds,
  monitor_accounts,
}
use solana_dex_amm.Processor.Monitor.Laws.Step.{IsMonitored, process_monitor_step-IsMonitored}
use solana_dex_amm.Processor.Monitor.Laws.Reach.{PoolStep, Reach, Reach-not_cancel, monitored}
use solana_dex_amm.State.Amm.{AmmInfo}
use solana_dex_amm.State.Machine.{valid_state}
use solana_dex_amm.State.Fees.Laws.{uneven}
use solana_dex_amm.Words.Instance.{std_uint}
use solana_dex_amm.Chain.Book.{get_amm_orders, sort_by}
use solana_dex_amm.Chain.Load.{
  authority_id, load_amm_checked, load_config_checked, load_serum_market_order, load_target_checked,
  unpack_mint, unpack_token_account,
}
use solana_dex_amm.Chain.Invokers.{token_transfer_with_authority}
use solana_dex_amm.Prelude.{List, [], arith, none, refl, some, ℕ, ◌∷◌, ◌≢◌}

-- a pool on the order book, whose orders are to be purged
abbrev purged_pool : AmmInfo
purged_pool = record pool { status = 1; state = 6; reset_flag = 1 }

abbrev monitor_world : World
monitor_world = record {
  stored_pool = purged_pool;
  stored_target = targets_of;
  tokens = balances 1000000 2000000;
}

abbrev monitor_list : List AccountInfo
monitor_list =
    account 50 0
    ∷ account 67 0
    ∷ account 53 0
    ∷ account 30 99
    ∷ account 40 0
    ∷ account 6 8
    ∷ account 9 99
    ∷ account 1 50
    ∷ account 2 50
    ∷ account 8 0
    ∷ account 7 8
    ∷ account 64 50
    ∷ account 65 50
    ∷ account 66 0
    ∷ account 68 8
    ∷ account 63 8
    ∷ account 61 8
    ∷ account 62 8
    ∷ []

abbrev after_monitor : MonitorOutcome World
after_monitor = record {
  world = monitor_world;
  amm = record purged_pool { state = 1 };
  written = none;
}

process_monitor_step-IsMonitored_example :
    IsMonitored ⦃c = test_chain⦄ monitor_list monitor_world after_monitor
unfolding next_account_info check_assert_eq load_amm_checked load_target_checked load_config_checked
    unpack_token_account unpack_mint load_serum_market_order authority_id
    token_transfer_with_authority calc_exact_vault_in_serum without_take_pnl
    calc_total_without_take_pnl calc_total_without_take_pnl_no_orderbook send run_call
    monitor_accounts check_srm_token check_referrer_pc check_accounts load_book load_funds
    step_cancel_all step_cancel step_purge on_book step_plan step_place step_idle step_state
    step_pool process_monitor_step count_zeros_from do_cancel_order cancel_ids do_purge_orders
    settle_open_orders do_cancel_all_orders_state get_amm_orders sort_by Status.from_u64
    Status.into_u64 Machine.from_u64 Machine.into_u64 ResetFlag.into_u64
process_monitor_step-IsMonitored_example =
    process_monitor_step-IsMonitored ⦃c = test_chain⦄ ⦃u = std_uint 128⦄ ⦃v = std_uint 256⦄ 99
      monitor_list (record { plan_order_limit = 3; place_order_limit = 3; cancel_order_limit = 3 })
      monitor_world after_monitor refl

abbrev monitor_parsed : MonitorAccounts
monitor_parsed = record {
  token_program = account 50 0;
  rent = account 67 0;
  clock = account 53 0;
  amm_info = account 30 99;
  amm_authority = account 40 0;
  amm_open_orders = account 6 8;
  amm_target_orders = account 9 99;
  amm_coin_vault = account 1 50;
  amm_pc_vault = account 2 50;
  market_program = account 8 0;
  market = account 7 8;
  market_coin_vault = account 64 50;
  market_pc_vault = account 65 50;
  market_vault_signer = account 66 0;
  market_request_queue = account 68 8;
  market_event_queue = account 63 8;
  market_bids = account 61 8;
  market_asks = account 62 8;
  srm_token = none;
  referrer_pc = none;
}

purge_step :
    PoolStep World ⦃c = test_chain⦄ ⦃u = std_uint 128⦄ ⦃v = std_uint 256⦄ 99 30 purged_pool
      (record purged_pool { state = 1 })
unfolding next_account_info check_assert_eq load_amm_checked load_target_checked load_config_checked
    unpack_token_account unpack_mint load_serum_market_order authority_id
    token_transfer_with_authority calc_exact_vault_in_serum without_take_pnl
    calc_total_without_take_pnl calc_total_without_take_pnl_no_orderbook send run_call
    monitor_accounts check_srm_token check_referrer_pc check_accounts load_book load_funds
    step_cancel_all step_cancel step_purge on_book step_plan step_place step_idle step_state
    step_pool process_monitor_step count_zeros_from do_cancel_order cancel_ids do_purge_orders
    settle_open_orders do_cancel_all_orders_state get_amm_orders sort_by Status.from_u64
    Status.into_u64 Machine.from_u64 Machine.into_u64 ResetFlag.into_u64
purge_step =
    monitored monitor_list
      (record { plan_order_limit = 3; place_order_limit = 3; cancel_order_limit = 3 }) monitor_world
      after_monitor monitor_parsed refl refl refl refl refl

abbrev params_list : List AccountInfo
params_list =
    account 50 0
    ∷ account 30 99
    ∷ account 40 0
    ∷ account 6 8
    ∷ account 9 99
    ∷ account 1 50
    ∷ account 2 50
    ∷ account 8 0
    ∷ account 7 8
    ∷ account 64 50
    ∷ account 65 50
    ∷ account 66 0
    ∷ account 63 8
    ∷ account 61 8
    ∷ account 62 8
    ∷ account 10 0
    ∷ []

-- a state is asked for
abbrev state_wanted : SetParamsInstruction ℕ
state_wanted = record {
  param = 1;
  value = some 3;
  new_pubkey = none;
  fees = none;
  last_order_distance = none;
}

abbrev after_params : ParamsOutcome World
after_params = record {
  world = monitor_world;
  amm = record purged_pool { state = 2; reset_flag = 0 };
  written = none;
}

process_set_params-IsParamsSet_example :
    IsParamsSet ⦃c = test_chain⦄ params_list state_wanted monitor_world after_params
unfolding next_account_info load_amm_checked load_serum_market_order authority_id run_call
    params_accounts check_params_owner check_params cancel_orders do_cancel_amm_orders settle_params
    set_number set_param finish_params process_set_params get_amm_orders sort_by valid_state
    Status.from_u64 Params.from_u64 Machine.into_u64 ResetFlag.into_u64 Status.into_u64
    collect_order_ids
process_set_params-IsParamsSet_example =
    process_set_params-IsParamsSet ⦃c = test_chain⦄ 99 params_list state_wanted monitor_world
      after_params refl

Reach-not_cancel_example : (record purged_pool { state = 1 }).state ≢ 4
Reach-not_cancel_example =
    Reach-not_cancel ⦃c = test_chain⦄ ⦃u = std_uint 128⦄ ⦃v = std_uint 256⦄ 99 30 purged_pool
      (record purged_pool { state = 1 }) (λ e. absurd (omega (arith, e)))
      (Reach.next Reach.here purge_step)

-- fees whose denominators differ, of a pool whose price is below the least that is allowed
abbrev uneven_pool : AmmInfo
uneven_pool = record pool { fees = uneven }
