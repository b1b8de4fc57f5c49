-- ===== src/Processor/Withdraw/Amounts.antt =====
-- program/src/processor.rs, `process_withdraw`: what is paid out, and from where.
use solana_dex_amm.Words.Std
use solana_dex_amm.State.Status
use solana_dex_amm.Result.{
  Result, custom, err, err_if, insufficient_funds, invalid_input, not_allow_zero_lp, ok,
  take_pnl_error, unwrap, ◌>>=◌, ◌>>◌,
}
use solana_dex_amm.Serum.{OpenOrders}
use solana_dex_amm.Math.Exchange.{InvariantPool, exchange_pool_to_token, floor}
use solana_dex_amm.Math.Decimal.{normalize_decimal_v2}
use solana_dex_amm.Processor.Deposit.Handler.{Totals, take_totals}
use solana_dex_amm.State.Target.{TargetOrders}
use solana_dex_amm.State.Amm.{AmmInfo}
use solana_dex_amm.State.Status.{AmmStatus}
use solana_dex_amm.Words.{Uint}
use solana_dex_amm.Prelude.{Bool, false, if◌then◌else◌, leb, ltb, true, ℕ, ◌&&◌, ◌==◌, ◌||◌}

pub record Withdrawn : Type 0 where
  pub coin_amount : ℕ
  pub pc_amount : ℕ

-- the amount against the user's LP tokens, the mint's supply and the pool's amount
unfoldable pub check_lp : (amount user_lp supply lp_amount : ℕ) → Result (Unit {0})
check_lp amount user_lp supply lp_amount = do
  err_if (ltb user_lp amount) insufficient_funds
  err_if (ltb supply amount || leb lp_amount amount) not_allow_zero_lp

-- the profit is taken, unless users can only withdraw
unfoldable pub withdraw_totals :
    ⦃u : Uint 128⦄ ⦃v : Uint 256⦄
    → TargetOrders
    → AmmInfo
    → (total_pc total_coin : ℕ) → Result Totals
withdraw_totals target amm total_pc total_coin =
    if amm.status == Status.into_u64 AmmStatus.withdraw_only
    then (do
      x1 ← normalize_decimal_v2 total_pc amm.pc_decimals amm.sys_decimal_value
      y1 ← normalize_decimal_v2 total_coin amm.coin_decimals amm.sys_decimal_value
      ok (record {
        x1 = x1;
        y1 = y1;
        taken = record {
          delta_x = 0;
          delta_y = 0;
          amm = amm;
          total_pc = total_pc;
          total_coin = total_coin;
        };
      }))
    else take_totals target amm total_pc total_coin

unfoldable pub withdraw_amounts :
    ⦃u : Uint 128⦄ → (amount lp_amount total_coin total_pc : ℕ) → Result Withdrawn
withdraw_amounts amount lp_amount total_coin total_pc = do
  let invariant : InvariantPool = record { token_input = amount; token_total = lp_amount }
  coin_amount ← exchange_pool_to_token invariant total_coin floor
  pc_amount ← exchange_pool_to_token invariant total_pc floor
  err_if (amount == 0 || coin_amount == 0 || pc_amount == 0) invalid_input
  ok (record { coin_amount = coin_amount; pc_amount = pc_amount })

-- `coin_amount <= coin_vault + coin_more && pc_amount <= pc_vault + pc_more`
unfoldable pub covers : Withdrawn → (coin_vault coin_more pc_vault pc_more : ℕ) → Result Bool
covers m coin_vault coin_more pc_vault pc_more = do
  coin ← unwrap (Std.checked_add 64 coin_vault coin_more)
  if leb m.coin_amount coin
      then (do pc ← unwrap (Std.checked_add 64 pc_vault pc_more); ok (leb m.pc_amount pc))
      else ok false

-- Whether funds have to be settled before the payment: not if the vaults have enough.
unfoldable pub needs_settling : Withdrawn → (coin_vault pc_vault : ℕ) → OpenOrders → Result Bool
unfolding covers
needs_settling m coin_vault pc_vault o =
    if leb m.coin_amount coin_vault && leb m.pc_amount pc_vault then ok false else (do
      free ← covers m coin_vault o.native_coin_free pc_vault o.native_pc_free
      total ←
          (if free
            then ok true
            else covers m coin_vault o.native_coin_total pc_vault o.native_pc_total)
      if total then ok true else err (custom take_pnl_error))

-- the amounts that the next profit is measured from
unfoldable pub rest_calc_pnl :
    ⦃u : Uint 128⦄ → (x1 amount decimals sys_decimal_value delta : ℕ) → Result ℕ
rest_calc_pnl ⦃u⦄ x1 amount decimals sys_decimal_value delta = do
  normal ← normalize_decimal_v2 amount decimals sys_decimal_value
  difference ← unwrap (u.checked_sub x1 normal)
  rest ← unwrap (u.checked_sub difference delta)
  unwrap (u.as_u128 rest)
