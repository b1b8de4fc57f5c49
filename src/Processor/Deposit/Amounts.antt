-- ===== src/Processor/Deposit/Amounts.antt =====
-- program/src/processor.rs, `process_deposit`: what is deducted and minted, for the totals of the pool
-- after the profit is taken.
use solana_dex_amm.Result.{
  Result, err_if, exceeded_slippage, insufficient_funds, invalid_input, not_allow_zero_lp, ok,
  unwrap, ◌>>=◌, ◌>>◌,
}
use solana_dex_amm.Instruction.{DepositInstruction}
use solana_dex_amm.Math.Exchange.{
  ceiling, exchange_coin_to_pc, exchange_pc_to_coin, exchange_token_to_pool, floor,
}
use solana_dex_amm.Math.Decimal.{normalize_decimal_v2}
use solana_dex_amm.Words.{Uint}
use solana_dex_amm.Prelude.{if◌then◌else◌, ltb, ℕ, ◌==◌, ◌||◌}

pub record Deposited : Type 0 where
  pub deduct_coin_amount : ℕ
  pub deduct_pc_amount : ℕ
  pub mint_lp_amount : ℕ

module _ ⦃u : Uint 128⦄ where
  -- the branch with the coin amount as the base
  unfoldable pub deposit_base_coin :
      DepositInstruction → (total_coin total_pc lp_amount : ℕ) → Result Deposited
  deposit_base_coin args total_coin total_pc lp_amount = do
    deduct_pc_amount ←
        exchange_coin_to_pc (record { token_coin = total_coin; token_pc = total_pc })
          args.max_coin_amount ceiling
    err_if (ltb args.max_pc_amount deduct_pc_amount) exceeded_slippage
    mint_lp_amount ←
        exchange_token_to_pool
          (record { token_input = args.max_coin_amount; token_total = total_coin }) lp_amount floor
    ok (record {
      deduct_coin_amount = args.max_coin_amount;
      deduct_pc_amount = deduct_pc_amount;
      mint_lp_amount = mint_lp_amount;
    })

  -- the branch with the pc amount as the base
  unfoldable pub deposit_base_pc :
      DepositInstruction → (total_coin total_pc lp_amount : ℕ) → Result Deposited
  deposit_base_pc args total_coin total_pc lp_amount = do
    deduct_coin_amount ←
        exchange_pc_to_coin (record { token_coin = total_coin; token_pc = total_pc })
          args.max_pc_amount ceiling
    err_if (ltb args.max_coin_amount deduct_coin_amount) exceeded_slippage
    mint_lp_amount ←
        exchange_token_to_pool (record { token_input = args.max_pc_amount; token_total = total_pc })
          lp_amount floor
    ok (record {
      deduct_coin_amount = deduct_coin_amount;
      deduct_pc_amount = args.max_pc_amount;
      mint_lp_amount = mint_lp_amount;
    })

  unfoldable pub deposit_amounts :
      DepositInstruction → (total_coin total_pc lp_amount user_coin user_pc : ℕ) → Result Deposited
  deposit_amounts args total_coin total_pc lp_amount user_coin user_pc = do
    err_if (lp_amount == 0) not_allow_zero_lp
    m ←
        (if args.base_side == 0
          then deposit_base_coin args total_coin total_pc lp_amount
          else deposit_base_pc args total_coin total_pc lp_amount)
    err_if (ltb user_coin m.deduct_coin_amount || ltb user_pc m.deduct_pc_amount) insufficient_funds
    err_if (m.mint_lp_amount == 0 || m.deduct_coin_amount == 0 || m.deduct_pc_amount == 0)
        invalid_input
    ok m

  -- the amounts that the next profit is measured from
  unfoldable pub next_calc_pnl : (x1 amount decimals sys_decimal_value delta : ℕ) → Result ℕ
  next_calc_pnl x1 amount decimals sys_decimal_value delta = do
    normal ← normalize_decimal_v2 amount decimals sys_decimal_value
    sum ← unwrap (u.checked_add x1 normal)
    rest ← unwrap (u.checked_sub sum delta)
    unwrap (u.as_u128 rest)
