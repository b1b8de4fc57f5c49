-- ===== src/Processor/Swap.antt =====
-- program/src/processor.rs: the amounts of `process_swap_base_in` and `process_swap_base_out`, between
-- the totals of the pool and the transfers: the fee, the amount, and every check that refuses a swap.
pub mod Laws
pub mod Prepare
pub mod Settle
pub mod Product
pub mod Output
use solana_dex_amm.Words.Std
use solana_dex_amm.Result.{
  Result, err_if, exceeded_slippage, insufficient_funds, invalid_input, ok, unwrap, ◌>>=◌, ◌>>◌,
}
use solana_dex_amm.Instruction.{SwapInstructionBaseIn, SwapInstructionBaseOut}
use solana_dex_amm.Math.CeilDiv.{checked_ceil_div}
use solana_dex_amm.Math.Swap.{
  SwapDirection, coin2_pc, pc2_coin, swap_token_amount_base_in, swap_token_amount_base_out,
}
use solana_dex_amm.State.Fees.{Fees}
use solana_dex_amm.Words.{Uint}
use solana_dex_amm.Prelude.{leb, ltb, ℕ, ◌==◌, ◌||◌}

-- the fee that the pool keeps, what comes in and what goes out
pub record Amounts : Type 0 where
  pub swap_fee : ℕ
  pub amount_in : ℕ
  pub amount_out : ℕ

-- the pool's total of the token that goes out
unfoldable pub total_out : SwapDirection → ℕ → ℕ → ℕ
total_out coin2_pc total_pc total_coin = total_pc
total_out pc2_coin total_pc total_coin = total_coin

module _ ⦃u : Uint 128⦄ where
  unfoldable pub base_in_fee : Fees → ℕ → Result ℕ
  base_in_fee fees amount_in = do
    product ← unwrap (u.checked_mul amount_in fees.swap_fee_numerator)
    (fee, _) ← unwrap (checked_ceil_div product fees.swap_fee_denominator)
    ok fee

  -- the arguments behind the instruction are the user's balance, the totals of pc and coin
  unfoldable pub base_in_amounts :
      Fees → SwapInstructionBaseIn → ℕ → ℕ → ℕ → SwapDirection → Result Amounts
  unfolding total_out
  base_in_amounts fees swap user_source total_pc total_coin direction = do
    err_if (ltb user_source swap.amount_in) insufficient_funds
    fee ← base_in_fee fees swap.amount_in
    after_fee ← unwrap (u.checked_sub swap.amount_in fee)
    wide_out ← swap_token_amount_base_in after_fee total_pc total_coin direction
    amount_out ← unwrap (u.as_u64 wide_out)
    err_if (ltb amount_out swap.minimum_amount_out) exceeded_slippage
    err_if (amount_out == 0 || swap.amount_in == 0) invalid_input
    err_if (leb (total_out direction total_pc total_coin) amount_out) insufficient_funds
    ok (record { swap_fee = fee; amount_in = swap.amount_in; amount_out = amount_out })

  -- before_fee / (1 - fee), rounded
  unfoldable pub add_fee : Fees → ℕ → Result ℕ
  add_fee fees before_fee = do
    product ← unwrap (u.checked_mul before_fee fees.swap_fee_denominator)
    divisor ← unwrap (Std.checked_sub fees.swap_fee_denominator fees.swap_fee_numerator)
    (quotient, _) ← unwrap (checked_ceil_div product divisor)
    unwrap (u.as_u64 quotient)

  unfoldable pub base_out_amounts :
      Fees → SwapInstructionBaseOut → ℕ → ℕ → ℕ → SwapDirection → Result Amounts
  unfolding total_out
  base_out_amounts fees swap user_source total_pc total_coin direction = do
    before_fee ← swap_token_amount_base_out swap.amount_out total_pc total_coin direction
    after_fee ← add_fee fees before_fee
    narrow ← unwrap (u.as_u64 before_fee)
    fee ← unwrap (Std.checked_sub after_fee narrow)
    err_if (ltb user_source after_fee) insufficient_funds
    err_if (ltb swap.max_amount_in after_fee) exceeded_slippage
    err_if (after_fee == 0 || swap.amount_out == 0) invalid_input
    err_if (leb (total_out direction total_pc total_coin) swap.amount_out) insufficient_funds
    ok (record { swap_fee = fee; amount_in = after_fee; amount_out = swap.amount_out })
