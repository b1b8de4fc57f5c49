-- ===== src/Processor/Deposit/Handler.antt =====
-- program/src/processor.rs: `process_deposit`, as a whole.
use solana_dex_amm.Words.Std
use solana_dex_amm.Result.{Result, ok, unwrap, ◌>>=◌, ◌>>◌}
use solana_dex_amm.Chain.{AccountInfo, Chain, authority_amm}
use solana_dex_amm.Instruction.{DepositInstruction}
use solana_dex_amm.Math.Decimal.{normalize_decimal_v2}
use solana_dex_amm.Math.Vault.{calc_total_without_take_pnl}
use solana_dex_amm.Processor.TakePnl.{Taken, calc_take_pnl}
use solana_dex_amm.Processor.Deposit.Amounts.{Deposited, deposit_amounts, next_calc_pnl}
use solana_dex_amm.Processor.Deposit.Accounts.{
  DepositAccounts, check_deposit, check_mints, deposit_accounts,
}
use solana_dex_amm.State.Target.{TargetOrders}
use solana_dex_amm.State.Amm.{AmmInfo}
use solana_dex_amm.Words.{Uint}
use solana_dex_amm.Chain.Load.{
  load_amm_checked, load_serum_market_order, load_target_checked, unpack_token_account,
}
use solana_dex_amm.Chain.Invokers.{token_mint_to, token_transfer}
use solana_dex_amm.Prelude.{List, false, ℕ, ◌%◌, ◌^◌}

-- what the handlers that change the target orders too leave
pub record PoolOutcome (W : Type 0) : Type 0 where
  pub world : W
  pub amm : AmmInfo
  pub target : TargetOrders

-- the totals of the pool after the profit is taken, and the amounts before that in the system's decimals
pub record Totals : Type 0 where
  pub x1 : ℕ
  pub y1 : ℕ
  pub taken : Taken

module _ ⦃u : Uint 128⦄ ⦃v : Uint 256⦄ where
  unfoldable pub take_totals : TargetOrders → AmmInfo → (total_pc total_coin : ℕ) → Result Totals
  take_totals target amm total_pc total_coin = do
    x1 ← normalize_decimal_v2 total_pc amm.pc_decimals amm.sys_decimal_value
    y1 ← normalize_decimal_v2 total_coin amm.coin_decimals amm.sys_decimal_value
    x1' ← unwrap (u.as_u128 x1)
    y1' ← unwrap (u.as_u128 y1)
    taken ← calc_take_pnl target amm total_pc total_coin x1' y1'
    ok (record { x1 = x1; y1 = y1; taken = taken })

module _ {W : Type 0} ⦃c : Chain W⦄ where
  unfoldable pub deposit_tokens : DepositAccounts → AmmInfo → Deposited → W → Result W
  unfolding token_transfer token_mint_to
  deposit_tokens a amm m w = do
    w1 ←
        token_transfer w a.token_program a.user_source_coin a.amm_coin_vault a.source_owner
          m.deduct_coin_amount
    w2 ←
        token_transfer w1 a.token_program a.user_source_pc a.amm_pc_vault a.source_owner
          m.deduct_pc_amount
    token_mint_to w2 a.token_program a.amm_lp_mint a.user_dest_lp a.amm_authority
        (record { amm_seed = authority_amm; nonce = amm.nonce % 2 ^ 8 }) m.mint_lp_amount

module _ ⦃u : Uint 128⦄ where
  -- the pool and the target orders after a deposit
  unfoldable pub book_deposit :
      AmmInfo → TargetOrders → Totals → Deposited → Result (AmmInfo × TargetOrders)
  book_deposit amm target t m = do
    lp_amount ← unwrap (Std.checked_add 64 amm.lp_amount m.mint_lp_amount)
    calc_pnl_x ←
        next_calc_pnl t.x1 m.deduct_pc_amount amm.pc_decimals amm.sys_decimal_value t.taken.delta_x
    calc_pnl_y ←
        next_calc_pnl t.y1 m.deduct_coin_amount amm.coin_decimals amm.sys_decimal_value
          t.taken.delta_y
    ok (
      record amm { lp_amount = lp_amount },
      record target { calc_pnl_x = calc_pnl_x; calc_pnl_y = calc_pnl_y },
    )

module _ {W : Type 0} ⦃c : Chain W⦄ ⦃u : Uint 128⦄ ⦃v : Uint 256⦄ where
  unfoldable pub process_deposit :
      ℕ → List AccountInfo → DepositInstruction → W → Result (PoolOutcome W)
  process_deposit program_id accounts args w = do
    a ← deposit_accounts accounts
    amm ← load_amm_checked w a.amm_info program_id
    check_deposit w program_id a amm args
    coin_vault ← unpack_token_account w a.amm_coin_vault a.token_program.key
    pc_vault ← unpack_token_account w a.amm_pc_vault a.token_program.key
    user_coin ← unpack_token_account w a.user_source_coin a.token_program.key
    user_pc ← unpack_token_account w a.user_source_pc a.token_program.key
    target ← load_target_checked w a.amm_target_orders program_id a.amm_info.key
    (market_state, open_orders) ←
        load_serum_market_order w a.market a.amm_open_orders a.amm_authority amm false
    check_mints market_state coin_vault pc_vault user_coin user_pc
    (total_pc, total_coin) ←
        calc_total_without_take_pnl pc_vault.amount coin_vault.amount open_orders amm
          (c.load_event_queue w market_state a.market_event_queue) a.amm_open_orders.key
    t ← take_totals target amm total_pc total_coin
    m ←
        deposit_amounts args t.taken.total_coin t.taken.total_pc t.taken.amm.lp_amount
          user_coin.amount user_pc.amount
    w' ← deposit_tokens a t.taken.amm m w
    (amm', target') ← book_deposit t.taken.amm target t m
    ok (record { world = w'; amm = amm'; target = target' })
