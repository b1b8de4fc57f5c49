-- ===== src/Math/Swap/BaseIn.antt =====
-- `Calculator::swap_token_amount_base_in`: the constant product, its rounding, and a swap and back.
use solana_dex_amm.Result.{ok}
use solana_dex_amm.Math.Swap.{SwapDirection, coin2_pc, pc2_coin, swap_token_amount_base_in}
use solana_dex_amm.Math.Swap.Laws.{
  base_in-eq, out-le, out-lt, out_best, product_kept, reserve_in, reserve_out,
}
use solana_dex_amm.Words.{Uint}
use solana_dex_amm.Prelude.Arith.{div-mul-le}
use solana_dex_amm.Prelude.{arith, ℕ, ◌*◌, ◌+◌, ◌-◌, ◌/◌, ◌<◌, ◌^◌, ◌≡◌, ◌≤◌}
use native.Mathlib.Nat.{div-le_of_le-mul}

module _ ⦃u : Uint 128⦄ (Δ pc coin : ℕ) (d : SwapDirection) where
  -- On reserves and an amount of 64 bits, neither reserve empty, the swap returns an amount that is
  -- less than the reserve that goes out, and the product of the reserves does not fall.
  pub base_in_keeps_product :
      Δ < 2 ^ 64
      → pc < 2 ^ 64
      → coin < 2 ^ 64
      → 0 < reserve_in d pc coin
      → 0 < reserve_out d pc coin
      → (out : ℕ) × (swap_token_amount_base_in Δ pc coin d ≡ ok out)
        × (out < reserve_out d pc coin)
        × (reserve_in d pc coin * reserve_out d pc coin
            ≤ (reserve_in d pc coin + Δ) * (reserve_out d pc coin - out))
  base_in_keeps_product h hp hc p q = (
    reserve_out d pc coin * Δ / (reserve_in d pc coin + Δ),
    base_in-eq Δ pc coin d h hp hc p,
    out-lt _ _ Δ p q,
    product_kept (reserve_in d pc coin) (reserve_out d pc coin) Δ,
  )

  -- On reserves and an amount of 64 bits, the reserve that the input joins not empty, the user gets
  -- all that the product allows: an amount up to the reserve that goes out that keeps the product
  -- is at most what the swap returns.
  pub base_in_best :
      (best : ℕ)
      → Δ < 2 ^ 64
      → pc < 2 ^ 64
      → coin < 2 ^ 64
      → 0 < reserve_in d pc coin
      → best ≤ reserve_out d pc coin
      → reserve_in d pc coin * reserve_out d pc coin
        ≤ (reserve_in d pc coin + Δ) * (reserve_out d pc coin - best)
      → (out : ℕ) × (swap_token_amount_base_in Δ pc coin d ≡ ok out) × (best ≤ out)
  base_in_best best h hp hc p le keeps =
      (_, base_in-eq Δ pc coin d h hp hc p, out_best _ _ Δ best p le keeps)

abbrev pub flip : SwapDirection → SwapDirection
flip coin2_pc = pc2_coin
flip pc2_coin = coin2_pc

-- The reserves, pc and coin, after `Δ` came in and `out` went out.
abbrev pub pc_after : SwapDirection → ℕ → ℕ → ℕ → ℕ
pc_after coin2_pc Δ out pc = pc - out
pc_after pc2_coin Δ out pc = pc + Δ

abbrev pub coin_after : SwapDirection → ℕ → ℕ → ℕ → ℕ
coin_after coin2_pc Δ out coin = coin + Δ
coin_after pc2_coin Δ out coin = coin - out

back-le : (S T Δ : ℕ) → 0 < T → let out = T * Δ / (S + Δ) in (S + Δ) * out / (T - out + out) ≤ Δ
back-le S T Δ p =
    let le = out-le S T Δ in
    let small = div-mul-le (T * Δ) (S + Δ) in div-le_of_le-mul _ (grind arith)

-- On reserves that are not empty and with the input fit 64 bits, swapping and swapping the whole
-- result back at once, on the reserves that the first swap leaves, succeed and return at most the
-- amount that was put in.
pub swap_and_back :
    ⦃u : Uint 128⦄ (Δ pc coin : ℕ) (d : SwapDirection)
    → Δ < 2 ^ 64
    → 0 < pc
    → 0 < coin
    → pc + Δ < 2 ^ 64
    → coin + Δ < 2 ^ 64
    → (out back : ℕ) × (swap_token_amount_base_in Δ pc coin d ≡ ok out)
      × (swap_token_amount_base_in out (pc_after d Δ out pc) (coin_after d Δ out coin) (flip d)
          ≡ ok back)
      × (back ≤ Δ)
swap_and_back Δ pc coin coin2_pc h p q hp hc =
    let out = pc * Δ / (coin + Δ) in
    let less = out-lt coin pc Δ q p in
    (
      out,
      (coin + Δ) * out / (pc - out + out),
      base_in-eq Δ pc coin coin2_pc h (omega arith) (omega arith) q,
      base_in-eq out (pc - out) (coin + Δ) pc2_coin (omega arith) (omega arith) hc (omega arith),
      back-le coin pc Δ p,
    )
swap_and_back Δ pc coin pc2_coin h p q hp hc =
    let out = coin * Δ / (pc + Δ) in
    let less = out-lt pc coin Δ p q in
    (
      out,
      (pc + Δ) * out / (coin - out + out),
      base_in-eq Δ pc coin pc2_coin h (omega arith) (omega arith) p,
      base_in-eq out (pc + Δ) (coin - out) coin2_pc (omega arith) hp (omega arith) (omega arith),
      back-le pc coin Δ q,
    )
