-- ===== src/Math/Swap.antt =====
-- program/src/math.rs: `SwapDirection` and the two constant product swaps of `Calculator`.
pub mod Laws
pub mod BaseIn
pub mod BaseOut
use solana_dex_amm.Result.{Result, ok, unwrap, ◌>>=◌}
use solana_dex_amm.Math.CeilDiv.{checked_ceil_div}
use solana_dex_amm.Words.{Uint}
use solana_dex_amm.Prelude.{ℕ}

pub data SwapDirection : Type 0 where
  -- input token pc, output token coin
  pc2_coin : SwapDirection
  -- input token coin, output token pc
  coin2_pc : SwapDirection

module _ ⦃u : Uint 128⦄ where
  -- the arguments are amount_in, total_pc_without_take_pnl, total_coin_without_take_pnl
  unfoldable pub swap_token_amount_base_in : ℕ → ℕ → ℕ → SwapDirection → Result ℕ
  swap_token_amount_base_in amount_in total_pc total_coin coin2_pc = do
    denominator ← unwrap (u.checked_add total_coin amount_in)
    product ← unwrap (u.checked_mul total_pc amount_in)
    unwrap (u.checked_div product denominator)
  swap_token_amount_base_in amount_in total_pc total_coin pc2_coin = do
    denominator ← unwrap (u.checked_add total_pc amount_in)
    product ← unwrap (u.checked_mul total_coin amount_in)
    unwrap (u.checked_div product denominator)

  unfoldable pub swap_token_amount_base_out : ℕ → ℕ → ℕ → SwapDirection → Result ℕ
  swap_token_amount_base_out amount_out total_pc total_coin coin2_pc = do
    denominator ← unwrap (u.checked_sub total_pc amount_out)
    product ← unwrap (u.checked_mul total_coin amount_out)
    (quotient, _) ← unwrap (checked_ceil_div product denominator)
    ok quotient
  swap_token_amount_base_out amount_out total_pc total_coin pc2_coin = do
    denominator ← unwrap (u.checked_sub total_coin amount_out)
    product ← unwrap (u.checked_mul total_pc amount_out)
    (quotient, _) ← unwrap (checked_ceil_div product denominator)
    ok quotient
