-- ===== src/Processor/Deposit/Booked.antt =====
-- `process_deposit` as a whole: the profit that is taken first, and the deposit on what remains.
use solana_dex_amm.Chain.{AccountInfo, Chain, TokenAccount}
use solana_dex_amm.Result.{ok}
use solana_dex_amm.Instruction.{DepositInstruction}
use solana_dex_amm.Processor.Deposit.Measured.{Holds, IsMeasured}
use solana_dex_amm.Processor.Deposit.Amounts.{Deposited}
use solana_dex_amm.Processor.Deposit.Handler.{PoolOutcome, Totals}
use solana_dex_amm.Processor.Deposit.Paid.{IsPaidIn}
use solana_dex_amm.Processor.Deposit.Next.{IsNext}
use solana_dex_amm.Processor.Deposit.Laws.{IsFairDeposit}
use solana_dex_amm.Processor.Deposit.Accounts.{DepositAccounts, deposit_accounts}
use solana_dex_amm.State.Target.{TargetOrders}
use solana_dex_amm.State.Amm.{AmmInfo}
use solana_dex_amm.Words.{Uint}
use solana_dex_amm.Chain.Ledger.{Ledger}
use solana_dex_amm.Prelude.{List, some, ◌+◌, ◌≡◌}

-- What a deposit leaves of the pool that it has loaded, of its target orders and of the chain.
pub record IsDeposited {W : Type 0} ⦃c : Chain W⦄ ⦃u : Uint 128⦄ (accounts : List AccountInfo)
    (args : DepositInstruction) (w : W) (o : PoolOutcome W) : Type 0 where
  pub parsed : DepositAccounts
  pub parsed_eq : deposit_accounts accounts ≡ ok parsed
  pub amm : AmmInfo
  pub read : c.amm_info w parsed.amm_info.key ≡ some amm
  pub target : TargetOrders
  pub target_read : c.target_orders w parsed.amm_target_orders.key ≡ some target
  pub t : Totals
  pub measured :
      IsMeasured w amm target parsed.amm_coin_vault parsed.amm_pc_vault parsed.market
        parsed.amm_open_orders parsed.amm_authority parsed.market_event_queue t
  pub user_coin : TokenAccount
  pub user_pc : TokenAccount
  pub user_coin_read : Holds w parsed.user_source_coin user_coin
  pub user_pc_read : Holds w parsed.user_source_pc user_pc
  pub m : Deposited
  pub fair :
      IsFairDeposit args t.taken.total_coin t.taken.total_pc amm.lp_amount user_coin.amount
        user_pc.amount m
  pub paid : IsPaidIn parsed t.taken.amm m w o.world
  pub minted : o.amm.lp_amount ≡ amm.lp_amount + m.mint_lp_amount
  pub profit_same : o.amm.state_data ≡ t.taken.amm.state_data
  pub next_x :
      IsNext t.x1 m.deduct_pc_amount t.taken.amm.pc_decimals t.taken.amm.sys_decimal_value
        t.taken.delta_x o.target.calc_pnl_x
  pub next_y :
      IsNext t.y1 m.deduct_coin_amount t.taken.amm.coin_decimals t.taken.amm.sys_decimal_value
        t.taken.delta_y o.target.calc_pnl_y
  pub status_same : o.amm.status ≡ amm.status
  pub state_same : o.amm.state ≡ amm.state
