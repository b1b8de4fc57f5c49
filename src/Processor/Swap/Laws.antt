-- ===== src/Processor/Swap/Laws.antt =====
-- What a swap with a fixed input that is not refused moves.
use solana_dex_amm.Result.{bind-eq-ok, err_if, insufficient_funds, ok, ok_injective, unwrap}
use solana_dex_amm.Instruction.{SwapInstructionBaseIn}
use solana_dex_amm.Math.Swap.{SwapDirection, coin2_pc, pc2_coin, swap_token_amount_base_in}
use solana_dex_amm.Math.Swap.BaseIn.{base_in_keeps_product}
use solana_dex_amm.Math.Swap.Laws.{reserve_in, reserve_out}
use solana_dex_amm.Processor.Swap.{Amounts, base_in_amounts, base_in_fee, total_out}
use solana_dex_amm.State.Fees.{Fees}
use solana_dex_amm.Words.{Uint}
use solana_dex_amm.Words.Laws.{uint_laws}
use solana_dex_amm.Prelude.{
  ap, arith, ltb, refl, subst, sym, ℕ, ◌*◌, ◌+◌, ◌-◌, ◌<◌, ◌^◌, ◌∙◌, ◌≡◌, ◌≤◌,
}

-- The amounts of a swap that keeps the pool's product.
pub record IsFair (user_source S T : ℕ) (a : Amounts) : Type 0 where
  pub affordable : a.amount_in ≤ user_source
  pub paid : 0 < a.amount_in
  pub received : 0 < a.amount_out
  pub remains : a.amount_out < T
  pub fee_le : a.swap_fee ≤ a.amount_in
  pub product : S * T ≤ (S + a.amount_in) * (T - a.amount_out)

pub total_out-eq : (d : SwapDirection) (pc coin : ℕ) → total_out d pc coin ≡ reserve_out d pc coin
unfolding total_out
total_out-eq coin2_pc pc coin = refl
total_out-eq pc2_coin pc coin = refl

-- A larger input keeps the product too.
pub more_kept : (S T x y r : ℕ) → x ≤ y → S * T ≤ (S + x) * r → S * T ≤ (S + y) * r
more_kept S T x y r le kept = grind arith

module _ ⦃u : Uint 128⦄ (fees : Fees) (user_source total_pc total_coin : ℕ)
    (d : SwapDirection) where
  base_in_checks :
      (swap : SwapInstructionBaseIn) (a : Amounts)
      → base_in_amounts fees swap user_source total_pc total_coin d ≡ ok a
      → (after_fee : ℕ) × (swap_token_amount_base_in after_fee total_pc total_coin d
          ≡ ok a.amount_out)
        × (after_fee + a.swap_fee ≡ swap.amount_in)
        × (a.amount_in ≡ swap.amount_in)
        × (swap.amount_in ≤ user_source)
        × (swap.minimum_amount_out ≤ a.amount_out)
        × (0 < a.amount_out)
        × (0 < swap.amount_in)
        × (a.amount_out < total_out d total_pc total_coin)
  unfolding base_in_amounts
  base_in_checks swap a e =
      let (_, balance, e1) =
        bind-eq-ok (err_if (ltb user_source swap.amount_in) insufficient_funds) _ e in
      let (fee, _, e2) = bind-eq-ok (base_in_fee fees swap.amount_in) _ e1 in
      let (after_fee, sub, e3) = bind-eq-ok (unwrap (u.checked_sub swap.amount_in fee)) _ e2 in
      let (wide, swapped, e4) =
        bind-eq-ok (swap_token_amount_base_in after_fee total_pc total_coin d) _ e3 in
      let sub' = simp uint_laws at sub in
      let e4' = simp uint_laws at e4 in
      let checks : (wide ≡ a.amount_out)
          × (after_fee + a.swap_fee ≡ swap.amount_in)
          × (a.amount_in ≡ swap.amount_in)
          × (swap.amount_in ≤ user_source)
          × (swap.minimum_amount_out ≤ a.amount_out)
          × (0 < a.amount_out)
          × (0 < swap.amount_in)
          × (a.amount_out < total_out d total_pc total_coin) =
        ground arith in
      (
        after_fee,
        swapped ∙ ap ok checks.0,
        checks.1,
        checks.2,
        checks.3,
        checks.4,
        checks.5,
        checks.6,
        checks.7,
      )

  -- Where a swap with a fixed input is not refused, on totals and an input of 64 bits with neither total
  -- empty: the user can pay, gets at least the minimum asked for, the fee is a part of the input, some
  -- but not all of the pool's token goes out, and the product of the totals does not fall.
  pub base_in_amounts-IsFair :
      (swap : SwapInstructionBaseIn) (a : Amounts)
      → swap.amount_in < 2 ^ 64
      → total_pc < 2 ^ 64
      → total_coin < 2 ^ 64
      → 0 < reserve_in d total_pc total_coin
      → 0 < reserve_out d total_pc total_coin
      → base_in_amounts fees swap user_source total_pc total_coin d ≡ ok a
      → (swap.minimum_amount_out ≤ a.amount_out)
        × (a.amount_in ≡ swap.amount_in)
        × IsFair user_source
            (reserve_in d total_pc total_coin)
            (reserve_out d total_pc total_coin)
            a
  base_in_amounts-IsFair swap a h hp hc p q e =
      let (after_fee, swapped, fee_eq, in_eq, affordable, minimum, out_pos, in_pos, remains) =
        base_in_checks swap a e in
      let S = reserve_in d total_pc total_coin in
      let T = reserve_out d total_pc total_coin in
      let (out, swapped', less, kept) =
        base_in_keeps_product after_fee total_pc total_coin d (omega (arith, fee_eq, h)) hp hc p
          q in
      let same : out ≡ a.amount_out = ok_injective (sym swapped' ∙ swapped) in
      let kept' : S * T ≤ (S + after_fee) * (T - a.amount_out) =
        subst (λ o. S * T ≤ (S + after_fee) * (T - o)) same kept in
      (
        minimum,
        in_eq,
        record {
          affordable = omega (arith, in_eq, affordable);
          paid = omega (arith, in_eq, in_pos);
          received = out_pos;
          remains = subst (λ o. o < T) same less;
          fee_le = omega (arith, in_eq, fee_eq);
          product =
              more_kept S T after_fee a.amount_in (T - a.amount_out) (omega (arith, in_eq, fee_eq))
                kept';
        },
      )
