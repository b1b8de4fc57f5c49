-- ===== src/Processor/Withdraw/Handler.antt =====
-- program/src/processor.rs: `process_withdraw`, as a whole.
use solana_dex_amm.Words.Std
use solana_dex_amm.Result.{
  Result, err_if, invalid_sign_account, invalid_token_lp, ok, unwrap, ◌>>=◌, ◌>>◌,
}
use solana_dex_amm.Chain.{AccountInfo, Chain, Seeds}
use solana_dex_amm.Instruction.{WithdrawInstruction}
use solana_dex_amm.Math.Vault.{calc_total_without_take_pnl}
use solana_dex_amm.Processor.Orders.{collect_order_ids}
use solana_dex_amm.Processor.Swap.Settle.{order_ids, seeds_of}
use solana_dex_amm.Processor.Withdraw.Amounts.{
  Withdrawn, check_lp, needs_settling, rest_calc_pnl, withdraw_amounts, withdraw_totals,
}
use solana_dex_amm.Processor.Withdraw.Accounts.{
  WithdrawAccounts, check_referrer, check_withdraw, withdraw_accounts,
}
use solana_dex_amm.Processor.Deposit.Handler.{PoolOutcome, Totals}
use solana_dex_amm.Processor.Deposit.Accounts.{check_mints}
use solana_dex_amm.State.Target.{TargetOrders}
use solana_dex_amm.State.Amm.{AmmInfo}
use solana_dex_amm.Words.{Uint}
use solana_dex_amm.Prelude.{Bool, List, Option, [], false, none, not, some, true, ℕ, ◌==◌, ◌∷◌}
use solana_dex_amm.Chain.Book.{get_amm_orders}
use solana_dex_amm.Chain.Load.{
  load_amm_checked, load_serum_market_order, load_target_checked, unpack_mint, unpack_token_account,
}
use solana_dex_amm.Chain.Invokers.{
  invoke_dex_cancel_orders_by_client_order_ids, invoke_dex_settle_funds, token_burn,
  token_transfer_with_authority,
}

abbrev pub or_vault : Option AccountInfo → AccountInfo → AccountInfo
or_vault none vault = vault
or_vault (some referrer) vault = referrer

-- without a referrer it is the vault of pc
abbrev pub referrer_of : WithdrawAccounts → AccountInfo
referrer_of a = or_vault a.referrer_pc_wallet a.amm_pc_vault

module _ {W : Type 0} ⦃c : Chain W⦄ where
  -- one call for each array of ids
  unfoldable pub cancel_all : WithdrawAccounts → Seeds → List (List ℕ) → W → Result W
  unfolding invoke_dex_cancel_orders_by_client_order_ids
  cancel_all a seeds [] w = ok w
  cancel_all a seeds (ids ∷ batches) w = do
    w' ←
        invoke_dex_cancel_orders_by_client_order_ids w a.market_program a.market a.market_bids
          a.market_asks a.amm_open_orders a.amm_authority a.market_event_q seeds ids
    cancel_all a seeds batches w'

  unfoldable pub settle_withdraw : WithdrawAccounts → Seeds → Bool → W → Result W
  unfolding invoke_dex_settle_funds
  settle_withdraw a seeds false w = ok w
  settle_withdraw a seeds true w =
      invoke_dex_settle_funds w a.market_program a.market a.amm_open_orders a.amm_authority
        a.market_coin_vault a.market_pc_vault a.amm_coin_vault a.amm_pc_vault a.market_vault_signer
        a.token_program (some (referrer_of a)) seeds

  unfoldable pub pay_out : WithdrawAccounts → Seeds → Withdrawn → (amount : ℕ) → W → Result W
  unfolding token_transfer_with_authority token_burn
  pay_out a seeds m amount w = do
    w1 ←
        token_transfer_with_authority w a.token_program a.amm_coin_vault a.user_dest_coin
          a.amm_authority seeds m.coin_amount
    w2 ←
        token_transfer_with_authority w1 a.token_program a.amm_pc_vault a.user_dest_pc
          a.amm_authority seeds m.pc_amount
    token_burn w2 a.token_program a.user_source_lp a.amm_lp_mint a.source_lp_owner amount

module _ ⦃u : Uint 128⦄ where
  -- the pool and the target orders after a withdrawal
  unfoldable pub book_withdraw :
      AmmInfo → TargetOrders → Totals → Withdrawn → (amount : ℕ) → Result (AmmInfo × TargetOrders)
  book_withdraw amm target t m amount = do
    lp_amount ← unwrap (Std.checked_sub amm.lp_amount amount)
    calc_pnl_x ←
        rest_calc_pnl t.x1 m.pc_amount amm.pc_decimals amm.sys_decimal_value t.taken.delta_x
    calc_pnl_y ←
        rest_calc_pnl t.y1 m.coin_amount amm.coin_decimals amm.sys_decimal_value t.taken.delta_y
    ok (
      record amm { lp_amount = lp_amount },
      record target { calc_pnl_x = calc_pnl_x; calc_pnl_y = calc_pnl_y },
    )

module _ {W : Type 0} ⦃c : Chain W⦄ ⦃u : Uint 128⦄ ⦃v : Uint 256⦄ where
  unfoldable pub process_withdraw :
      ℕ → List AccountInfo → WithdrawInstruction → W → Result (PoolOutcome W)
  process_withdraw program_id accounts args w = do
    a ← withdraw_accounts accounts
    check_referrer w a a.referrer_pc_wallet
    err_if (not a.source_lp_owner.is_signer) invalid_sign_account
    amm ← load_amm_checked w a.amm_info program_id
    target ← load_target_checked w a.amm_target_orders program_id a.amm_info.key
    check_withdraw w program_id a amm
    let seeds = seeds_of amm
    coin_vault ← unpack_token_account w a.amm_coin_vault a.token_program.key
    pc_vault ← unpack_token_account w a.amm_pc_vault a.token_program.key
    user_coin ← unpack_token_account w a.user_dest_coin a.token_program.key
    user_pc ← unpack_token_account w a.user_dest_pc a.token_program.key
    (market_state, open_orders) ←
        load_serum_market_order w a.market a.amm_open_orders a.amm_authority amm false
    bids_orders ← c.load_bids w market_state a.market_bids
    asks_orders ← c.load_asks w market_state a.market_asks
    (bids, asks) ← get_amm_orders open_orders bids_orders asks_orders
    batches ← collect_order_ids (order_ids bids) (order_ids asks)
    w1 ← cancel_all a seeds batches w
    check_mints market_state coin_vault pc_vault user_coin user_pc
    lp_mint ← unpack_mint w1 a.amm_lp_mint a.token_program.key
    user_lp ← unpack_token_account w1 a.user_source_lp a.token_program.key
    err_if (not (user_lp.mint == a.amm_lp_mint.key)) invalid_token_lp
    check_lp args.amount user_lp.amount lp_mint.supply amm.lp_amount
    (total_pc, total_coin) ←
        calc_total_without_take_pnl pc_vault.amount coin_vault.amount open_orders amm
          (c.load_event_queue w1 market_state a.market_event_q) a.amm_open_orders.key
    t ← withdraw_totals target amm total_pc total_coin
    m ← withdraw_amounts args.amount t.taken.amm.lp_amount t.taken.total_coin t.taken.total_pc
    settle ← needs_settling m coin_vault.amount pc_vault.amount open_orders
    w2 ← settle_withdraw a seeds settle w1
    w3 ← pay_out a seeds m args.amount w2
    (amm', target') ← book_withdraw t.taken.amm target t m args.amount
    ok (record { world = w3; amm = amm'; target = target' })
