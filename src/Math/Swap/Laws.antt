-- ===== src/Math/Swap/Laws.antt =====
-- What the two constant product swaps return, by the side that the tokens come in and go out.
use solana_dex_amm.Result.{ok, panic}
use solana_dex_amm.Math.Swap.{
  SwapDirection, coin2_pc, pc2_coin, swap_token_amount_base_in, swap_token_amount_base_out,
}
use solana_dex_amm.Math.CeilDiv.Laws.{checked_ceil_div-rounded, checked_ceil_div_lem, rounded}
use solana_dex_amm.Words.{Uint}
use solana_dex_amm.Words.Laws.{uint_laws}
use solana_dex_amm.Prelude.Arith.{div-lt, div-mul-le, le-div, mul-lt_u128, mul-sub-add}
use solana_dex_amm.Prelude.{arith, ℕ, ◌*◌, ◌+◌, ◌-◌, ◌/◌, ◌<◌, ◌^◌, ◌↔◌, ◌≡◌, ◌≤◌}
use native.Mathlib.Nat.{div-le_of_le-mul}

-- The pool's amount of the token that comes in, and of the token that goes out.
abbrev pub reserve_in : SwapDirection → ℕ → ℕ → ℕ
reserve_in coin2_pc pc coin = coin
reserve_in pc2_coin pc coin = pc

abbrev pub reserve_out : SwapDirection → ℕ → ℕ → ℕ
reserve_out coin2_pc pc coin = pc
reserve_out pc2_coin pc coin = coin

module _ ⦃u : Uint 128⦄ where
  pub base_in-eq :
      (Δ pc coin : ℕ) (d : SwapDirection)
      → Δ < 2 ^ 64
      → pc < 2 ^ 64
      → coin < 2 ^ 64
      → 0 < reserve_in d pc coin
      → swap_token_amount_base_in Δ pc coin d
        ≡ ok (reserve_out d pc coin * Δ / (reserve_in d pc coin + Δ))
  unfolding swap_token_amount_base_in
  base_in-eq Δ pc coin coin2_pc h hp hc p = simp uint_laws (ground (arith, mul-lt_u128 pc Δ))
  base_in-eq Δ pc coin pc2_coin h hp hc p = simp uint_laws (ground (arith, mul-lt_u128 coin Δ))

  pub base_out-eq :
      (out pc coin : ℕ) (d : SwapDirection)
      → pc < 2 ^ 64
      → coin < 2 ^ 64
      → out < reserve_out d pc coin
      → swap_token_amount_base_out out pc coin d
        ≡ ok (rounded (reserve_in d pc coin * out) (reserve_out d pc coin - out))
  unfolding swap_token_amount_base_out
  base_out-eq out pc coin coin2_pc hp hc h =
      simp uint_laws
        (ground (arith, mul-lt_u128 coin out, checked_ceil_div-rounded (coin * out) (pc - out)))
  base_out-eq out pc coin pc2_coin hp hc h =
      simp uint_laws
        (ground (arith, mul-lt_u128 pc out, checked_ceil_div-rounded (pc * out) (coin - out)))

  pub base_out-panic :
      (out pc coin : ℕ) (d : SwapDirection)
      → pc < 2 ^ 64
      → coin < 2 ^ 64
      → reserve_out d pc coin ≤ out
      → swap_token_amount_base_out out pc coin d ≡ panic
  unfolding swap_token_amount_base_out
  base_out-panic out pc coin coin2_pc hp hc h =
      simp uint_laws
        (ground (arith, mul-lt_u128 coin out, checked_ceil_div_lem (coin * out) (pc - out)))
  base_out-panic out pc coin pc2_coin hp hc h =
      simp uint_laws
        (ground (arith, mul-lt_u128 pc out, checked_ceil_div_lem (pc * out) (coin - out)))

-- The arithmetic of the constant product: `S` comes in, `T` goes out.
pub out-lt : (S T Δ : ℕ) → 0 < S → 0 < T → T * Δ / (S + Δ) < T
out-lt S T Δ p q = div-lt _ _ _ (omega arith) (grind arith)

pub out-le : (S T Δ : ℕ) → T * Δ / (S + Δ) ≤ T
out-le S T Δ = div-le_of_le-mul (S + Δ) (omega arith)

-- A payout keeps the product exactly if it is at most the fraction of the reserve that goes out that the
-- input is of the new source reserve.
pub product_kept_iff :
    (S T Δ out : ℕ) → out ≤ T → (S * T ≤ (S + Δ) * (T - out)) ↔ (out * (S + Δ) ≤ T * Δ)
product_kept_iff S T Δ out le =
    let split = mul-sub-add (S + Δ) T out le in (λ h. omega arith, λ h. omega arith)

pub product_kept : (S T Δ : ℕ) → S * T ≤ (S + Δ) * (T - T * Δ / (S + Δ))
product_kept S T Δ = (product_kept_iff S T Δ _ (out-le S T Δ)).1 (div-mul-le (T * Δ) (S + Δ))

pub out_best :
    (S T Δ out : ℕ) → 0 < S → out ≤ T → S * T ≤ (S + Δ) * (T - out) → out ≤ T * Δ / (S + Δ)
out_best S T Δ out p le h = le-div _ _ _ (omega arith) ((product_kept_iff S T Δ out le).0 h)
