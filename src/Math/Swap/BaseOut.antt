-- ===== src/Math/Swap/BaseOut.antt =====
-- `Calculator::swap_token_amount_base_out`: what the user has to put in for an amount that goes out.
use solana_dex_amm.Result.{ok, ok_injective, panic}
use solana_dex_amm.Math.Swap.{SwapDirection, swap_token_amount_base_out}
use solana_dex_amm.Math.Swap.Laws.{base_out-eq, base_out-panic, reserve_in, reserve_out}
use solana_dex_amm.Math.CeilDiv.Laws.{le-rounded-mul, rounded, rounded-eq_zero, rounded-mul-lt}
use solana_dex_amm.Words.{Uint}
use solana_dex_amm.Prelude.Arith.{mul-sub-add}
use solana_dex_amm.Prelude.{ap, arith, ℕ, ◌*◌, ◌+◌, ◌-◌, ◌<◌, ◌^◌, ◌↔◌, ◌≡◌, ◌≤◌}

-- The product after an input, in terms of the quotient that `checked_ceil_div` returns.
product_iff : (S T out q : ℕ) → out ≤ T → (S * T ≤ (S + q) * (T - out)) ↔ (S * out ≤ q * (T - out))
product_iff S T out q le =
    let split = mul-sub-add S T out le in (λ h. omega arith, λ h. omega arith)

module _ ⦃u : Uint 128⦄ (out pc coin : ℕ) (d : SwapDirection) where
  -- On reserves of 64 bits and an amount that is less than the reserve that goes out, where the
  -- exact price is half a unit or more, the input keeps the product of the reserves, and the
  -- product grows by less than what one more unit of the input adds.
  pub base_out_covers :
      pc < 2 ^ 64
      → coin < 2 ^ 64
      → out < reserve_out d pc coin
      → reserve_out d pc coin - out ≤ reserve_in d pc coin * out * 2
      → (in_amount : ℕ) × (swap_token_amount_base_out out pc coin d ≡ ok in_amount)
        × (reserve_in d pc coin * reserve_out d pc coin
            ≤ (reserve_in d pc coin + in_amount) * (reserve_out d pc coin - out))
        × ((reserve_in d pc coin + in_amount) * (reserve_out d pc coin - out)
            < reserve_in d pc coin * reserve_out d pc coin + (reserve_out d pc coin - out))
  base_out_covers hp hc h price =
      let S = reserve_in d pc coin in
      let T = reserve_out d pc coin in
      let b = T - out in
      let q = rounded (S * out) b in
      let enough = le-rounded-mul (S * out) b (omega arith) price in
      let least = rounded-mul-lt (S * out) b (omega arith) in
      (
        q,
        base_out-eq out pc coin d hp hc h,
        (product_iff S T out q (omega arith)).1 enough,
        omega (arith, mul-sub-add S T out (omega arith)),
      )

  -- On reserves of 64 bits and an amount that is less than the reserve that goes out, the input is
  -- 0 exactly if the exact price is less than half a unit.
  pub base_out_free_iff :
      pc < 2 ^ 64
      → coin < 2 ^ 64
      → out < reserve_out d pc coin
      → (swap_token_amount_base_out out pc coin d ≡ ok 0)
        ↔ (reserve_in d pc coin * out * 2 < reserve_out d pc coin - out)
  base_out_free_iff hp hc h =
      let zero_iff =
        rounded-eq_zero (reserve_in d pc coin * out) (reserve_out d pc coin - out) (omega arith) in
      rw (base_out-eq out pc coin d hp hc h)
        (λ e. zero_iff.0 (ok_injective e), λ small. ap ok (zero_iff.1 small))

  -- On reserves of 64 bits, an amount that is not less than the reserve that goes out is a panic.
  pub base_out_panics :
      pc < 2 ^ 64
      → coin < 2 ^ 64
      → reserve_out d pc coin ≤ out
      → swap_token_amount_base_out out pc coin d ≡ panic
  base_out_panics hp hc h = base_out-panic out pc coin d hp hc h
