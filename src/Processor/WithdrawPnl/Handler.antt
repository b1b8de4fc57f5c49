-- ===== src/Processor/WithdrawPnl/Handler.antt =====
-- program/src/processor.rs: `process_withdrawpnl`, as a whole.
use solana_dex_amm.Words.Std
use solana_dex_amm.State.Status
use solana_dex_amm.State.Machine
use solana_dex_amm.Result.{Result, ok, unwrap, ◌>>=◌, ◌>>◌}
use solana_dex_amm.Chain.{AccountInfo, Chain, Seeds}
use solana_dex_amm.Serum.{OpenOrders}
use solana_dex_amm.Math.Vault.{calc_total_without_take_pnl}
use solana_dex_amm.Processor.Swap.Settle.{seeds_of}
use solana_dex_amm.Processor.Deposit.Handler.{PoolOutcome, Totals, take_totals}
use solana_dex_amm.Processor.WithdrawPnl.Accounts.{
  PnlAccounts, check_pnl_keys, check_pnl_mints, check_pnl_owner, check_pnl_referrer, pnl_accounts,
}
use solana_dex_amm.State.Target.{TargetOrders}
use solana_dex_amm.State.Amm.{AmmInfo}
use solana_dex_amm.State.Status.{AmmStatus}
use solana_dex_amm.State.Machine.{AmmState}
use solana_dex_amm.Words.{Uint}
use solana_dex_amm.Prelude.{Bool, List, false, if◌then◌else◌, leb, true, ℕ, ◌&&◌}
use solana_dex_amm.Chain.Load.{
  load_amm_checked, load_serum_market_order, load_target_checked, unpack_token_account,
}
use solana_dex_amm.Chain.Invokers.{invoke_dex_settle_funds, token_transfer_with_authority}

-- The branches behind the booking of the profit: it is paid out of the vaults, or after funds have been
-- settled, or the pool is disabled, or nothing happens.
pub data PnlCase : Type 0 where
  direct settled disabled postponed : PnlCase

-- `need_coin <= coin_vault + coin_more && need_pc <= pc_vault + pc_more`
unfoldable pub pnl_within : (need_coin need_pc coin coin_more pc pc_more : ℕ) → Result Bool
pnl_within need_coin need_pc coin coin_more pc pc_more = do
  coin_sum ← unwrap (Std.checked_add 64 coin coin_more)
  if leb need_coin coin_sum
      then (do pc_sum ← unwrap (Std.checked_add 64 pc pc_more); ok (leb need_pc pc_sum))
      else ok false

-- `need_coin >= coin_vault + coin_total || need_pc >= pc_vault + pc_total`
unfoldable pub pnl_beyond : (need_coin need_pc coin coin_total pc pc_total : ℕ) → Result Bool
pnl_beyond need_coin need_pc coin coin_total pc pc_total = do
  coin_sum ← unwrap (Std.checked_add 64 coin coin_total)
  if leb coin_sum need_coin
      then ok true
      else (do pc_sum ← unwrap (Std.checked_add 64 pc pc_total); ok (leb pc_sum need_pc))

unfoldable pub pnl_case : AmmInfo → (coin_vault pc_vault : ℕ) → OpenOrders → Result PnlCase
unfolding pnl_within pnl_beyond
pnl_case amm coin_vault pc_vault o =
    let need_coin = amm.state_data.need_take_pnl_coin in
    let need_pc = amm.state_data.need_take_pnl_pc in
    if leb need_coin coin_vault && leb need_pc pc_vault then ok PnlCase.direct else (do
      free ← pnl_within need_coin need_pc coin_vault o.native_coin_free pc_vault o.native_pc_free
      if free then ok PnlCase.settled else (do
        beyond ←
            pnl_beyond need_coin need_pc coin_vault o.native_coin_total pc_vault o.native_pc_total
        ok (if beyond then PnlCase.disabled else PnlCase.postponed)))

module _ {W : Type 0} ⦃c : Chain W⦄ where
  unfoldable pub settle_pnl : PnlAccounts → Seeds → W → Result W
  unfolding invoke_dex_settle_funds
  settle_pnl a seeds w =
      invoke_dex_settle_funds w a.market_program a.market a.amm_open_orders a.amm_authority
        a.market_coin_vault a.market_pc_vault a.amm_coin_vault a.amm_pc_vault a.market_vault_signer
        a.token_program a.referrer_pc_wallet seeds

  unfoldable pub pay_pnl : PnlAccounts → AmmInfo → W → Result W
  unfolding token_transfer_with_authority
  pay_pnl a amm w = do
    w' ←
        token_transfer_with_authority w a.token_program a.amm_coin_vault a.user_pnl_coin
          a.amm_authority (seeds_of amm) amm.state_data.need_take_pnl_coin
    token_transfer_with_authority w' a.token_program a.amm_pc_vault a.user_pnl_pc a.amm_authority
        (seeds_of amm) amm.state_data.need_take_pnl_pc

module _ ⦃u : Uint 128⦄ where
  -- the amounts to be taken are cleared, and the next profit is measured from the present amounts
  unfoldable pub clear_pnl : TargetOrders → Totals → Result (AmmInfo × TargetOrders)
  clear_pnl target t = do
    rest_x ← unwrap (u.checked_sub t.x1 t.taken.delta_x)
    calc_pnl_x ← unwrap (u.as_u128 rest_x)
    rest_y ← unwrap (u.checked_sub t.y1 t.taken.delta_y)
    calc_pnl_y ← unwrap (u.as_u128 rest_y)
    let amm = t.taken.amm
    ok (
      record amm {
        state_data = record (amm.state_data) { need_take_pnl_coin = 0; need_take_pnl_pc = 0 };
      },
      record target { calc_pnl_x = calc_pnl_x; calc_pnl_y = calc_pnl_y },
    )

module _ {W : Type 0} ⦃c : Chain W⦄ ⦃u : Uint 128⦄ where
  unfoldable pub finish_pnl :
      PnlCase → PnlAccounts → TargetOrders → Totals → W → Result (PoolOutcome W)
  finish_pnl PnlCase.direct a target t w = do
    w' ← pay_pnl a t.taken.amm w
    (amm, target') ← clear_pnl target t
    ok (record { world = w'; amm = amm; target = target' })
  finish_pnl PnlCase.settled a target t w = do
    w1 ← settle_pnl a (seeds_of t.taken.amm) w
    w' ← pay_pnl a t.taken.amm w1
    (amm, target') ← clear_pnl target t
    ok (record { world = w'; amm = amm; target = target' })
  finish_pnl PnlCase.disabled a target t w = ok (record {
    world = w;
    amm = record (t.taken.amm) {
      state = Machine.into_u64 AmmState.cancel_all_orders_state;
      status = Status.into_u64 AmmStatus.disabled;
    };
    target = target;
  })
  finish_pnl PnlCase.postponed a target t w =
      ok (record { world = w; amm = t.taken.amm; target = target })

module _ {W : Type 0} ⦃c : Chain W⦄ ⦃u : Uint 128⦄ ⦃v : Uint 256⦄ where
  unfoldable pub process_withdrawpnl : ℕ → List AccountInfo → W → Result (PoolOutcome W)
  process_withdrawpnl program_id accounts w = do
    a ← pnl_accounts accounts
    check_pnl_referrer w a a.referrer_pc_wallet
    amm ← load_amm_checked w a.amm_info program_id
    check_pnl_owner w program_id a amm
    check_pnl_keys w a amm
    coin_vault ← unpack_token_account w a.amm_coin_vault a.token_program.key
    pc_vault ← unpack_token_account w a.amm_pc_vault a.token_program.key
    user_coin ← unpack_token_account w a.user_pnl_coin a.token_program.key
    user_pc ← unpack_token_account w a.user_pnl_pc a.token_program.key
    target ← load_target_checked w a.amm_target_orders program_id a.amm_info.key
    check_pnl_mints amm coin_vault pc_vault user_coin user_pc
    (market_state, open_orders) ←
        load_serum_market_order w a.market a.amm_open_orders a.amm_authority amm false
    (total_pc, total_coin) ←
        calc_total_without_take_pnl pc_vault.amount coin_vault.amount open_orders amm
          (c.load_event_queue w market_state a.market_event_queue) a.amm_open_orders.key
    t ← take_totals target amm total_pc total_coin
    branch ← pnl_case t.taken.amm coin_vault.amount pc_vault.amount open_orders
    finish_pnl branch a target t w
