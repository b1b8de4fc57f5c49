-- ===== src/Math/Exchange.antt =====
-- program/src/math.rs: `RoundDirection`, and the exchange rates of `InvariantToken` and `InvariantPool`.
-- The code returns `Some` of a value, or panics.
pub mod Laws
use solana_dex_amm.Result.{Result, unwrap, ◌>>=◌}
use solana_dex_amm.Math.CeilDiv.{checked_ceil_div}
use solana_dex_amm.Words.{Uint}
use solana_dex_amm.Prelude.{ℕ}

pub data RoundDirection : Type 0 where
  floor ceiling : RoundDirection

pub record InvariantToken : Type 0 where
  pub token_coin : ℕ
  pub token_pc : ℕ

pub record InvariantPool : Type 0 where
  pub token_input : ℕ
  pub token_total : ℕ

module _ ⦃u : Uint 128⦄ where
  -- amount * numerator / denominator, the expression of all four functions
  unfoldable pub exchange : ℕ → ℕ → ℕ → RoundDirection → Result ℕ
  exchange amount numerator denominator floor = do
    product ← unwrap (u.checked_mul amount numerator)
    quotient ← unwrap (u.checked_div product denominator)
    unwrap (u.as_u64 quotient)
  exchange amount numerator denominator ceiling = do
    product ← unwrap (u.checked_mul amount numerator)
    (quotient, _) ← unwrap (checked_ceil_div product denominator)
    unwrap (u.as_u64 quotient)

  unfoldable pub exchange_coin_to_pc : InvariantToken → ℕ → RoundDirection → Result ℕ
  unfolding exchange
  exchange_coin_to_pc self token_coin r = exchange token_coin self.token_pc self.token_coin r

  unfoldable pub exchange_pc_to_coin : InvariantToken → ℕ → RoundDirection → Result ℕ
  unfolding exchange
  exchange_pc_to_coin self token_pc r = exchange token_pc self.token_coin self.token_pc r

  unfoldable pub exchange_pool_to_token : InvariantPool → ℕ → RoundDirection → Result ℕ
  unfolding exchange
  exchange_pool_to_token self token_total_amount r =
      exchange token_total_amount self.token_input self.token_total r

  unfoldable pub exchange_token_to_pool : InvariantPool → ℕ → RoundDirection → Result ℕ
  unfolding exchange
  exchange_token_to_pool self pool_total_amount r =
      exchange pool_total_amount self.token_input self.token_total r
