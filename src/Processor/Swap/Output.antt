-- ===== src/Processor/Swap/Output.antt =====
-- What a swap with a fixed output that is not refused moves.
use solana_dex_amm.Result.{bind-eq-ok, ok, ok_injective}
use solana_dex_amm.Instruction.{SwapInstructionBaseOut}
use solana_dex_amm.Math.Swap.{SwapDirection, swap_token_amount_base_out}
use solana_dex_amm.Math.Swap.BaseOut.{base_out_covers, base_out_free_iff}
use solana_dex_amm.Math.Swap.Laws.{reserve_in, reserve_out}
use solana_dex_amm.Math.CeilDiv.Laws.{checked_ceil_div_lem}
use solana_dex_amm.Processor.Swap.{Amounts, add_fee, base_out_amounts, total_out}
use solana_dex_amm.Processor.Swap.Laws.{IsFair, more_kept, total_out-eq}
use solana_dex_amm.State.Fees.{Fees}
use solana_dex_amm.Words.{Uint}
use solana_dex_amm.Words.Laws.{uint_laws}
use solana_dex_amm.Prelude.{
  ==_iff, Bool-cases, ap, arith, inl, inr, leb, leb→le, not-leb→lt, subst, sym, ℕ, ◌*◌, ◌+◌, ◌-◌,
  ◌<◌, ◌==◌, ◌^◌, ◌∙◌, ◌≡◌, ◌≤◌,
}

module _ ⦃u : Uint 128⦄ (fees : Fees) (user_source total_pc total_coin : ℕ)
    (d : SwapDirection) where
  pub base_out_checks :
      (swap : SwapInstructionBaseOut) (a : Amounts)
      → base_out_amounts fees swap user_source total_pc total_coin d ≡ ok a
      → (before_fee : ℕ) × (swap_token_amount_base_out swap.amount_out total_pc total_coin d
          ≡ ok before_fee)
        × (add_fee fees before_fee ≡ ok a.amount_in)
        × (before_fee + a.swap_fee ≡ a.amount_in)
        × (a.amount_out ≡ swap.amount_out)
        × (a.amount_in ≤ user_source)
        × (a.amount_in ≤ swap.max_amount_in)
        × (0 < a.amount_in)
        × (0 < swap.amount_out)
        × (swap.amount_out < total_out d total_pc total_coin)
  unfolding base_out_amounts
  base_out_checks swap a e =
      let (before_fee, swapped, e1) =
        bind-eq-ok (swap_token_amount_base_out swap.amount_out total_pc total_coin d) _ e in
      let (after_fee, added, e2) = bind-eq-ok (add_fee fees before_fee) _ e1 in
      let e2' = simp uint_laws at e2 in
      let checks : (after_fee ≡ a.amount_in)
          × (before_fee + a.swap_fee ≡ a.amount_in)
          × (a.amount_out ≡ swap.amount_out)
          × (a.amount_in ≤ user_source)
          × (a.amount_in ≤ swap.max_amount_in)
          × (0 < a.amount_in)
          × (0 < swap.amount_out)
          × (swap.amount_out < total_out d total_pc total_coin) =
        ground arith in
      (
        before_fee,
        swapped,
        added ∙ ap ok checks.0,
        checks.1,
        checks.2,
        checks.3,
        checks.4,
        checks.5,
        checks.6,
        checks.7,
      )

  add_fee_zero : {x : ℕ} → add_fee fees 0 ≡ ok x → x ≡ 0
  unfolding add_fee
  add_fee_zero e =
      let divisor = fees.swap_fee_denominator - fees.swap_fee_numerator in
      let e' = simp uint_laws at e in ground (arith, checked_ceil_div_lem 0 divisor)

  -- A swap that is paid for has an exact price of half a unit or more.
  priced :
      (out before_fee : ℕ)
      → total_pc < 2 ^ 64
      → total_coin < 2 ^ 64
      → out < reserve_out d total_pc total_coin
      → swap_token_amount_base_out out total_pc total_coin d ≡ ok before_fee
      → 0 < before_fee
      → reserve_out d total_pc total_coin - out ≤ reserve_in d total_pc total_coin * out * 2
  priced out before_fee hp hc less e pos =
      let free = base_out_free_iff out total_pc total_coin d hp hc less in
      elim (Bool-cases (
        leb (reserve_out d total_pc total_coin - out)
          (reserve_in d total_pc total_coin * out * 2))) [
            | inl enough ↦ leb→le _ _ enough
            | inr cheap ↦
                let zero_eq : before_fee ≡ 0 =
                  ok_injective (sym e ∙ free.1 (not-leb→lt _ _ cheap)) in
                absurd (omega (arith, zero_eq, pos))
          ]

  -- Where a swap with a fixed output is not refused, on totals of 64 bits: the user can pay, pays at most
  -- the maximum, the fee is a part of the input, some but not all of the pool's token goes out, and the
  -- product of the totals does not fall. So an output whose price is rounded to 0 is refused.
  pub base_out_amounts-IsFair :
      (swap : SwapInstructionBaseOut) (a : Amounts)
      → total_pc < 2 ^ 64
      → total_coin < 2 ^ 64
      → base_out_amounts fees swap user_source total_pc total_coin d ≡ ok a
      → (a.amount_in ≤ swap.max_amount_in)
        × (a.amount_out ≡ swap.amount_out)
        × IsFair user_source
            (reserve_in d total_pc total_coin)
            (reserve_out d total_pc total_coin)
            a
  base_out_amounts-IsFair swap a hp hc e =
      let (before_fee, swapped, added, fee_eq, out_eq, affordable, most, in_pos, out_pos, remains) =
        base_out_checks swap a e in
      let S = reserve_in d total_pc total_coin in
      let T = reserve_out d total_pc total_coin in
      let less : swap.amount_out < T =
        subst (λ t. swap.amount_out < t) (total_out-eq d total_pc total_coin) remains in
      let before_pos : 0 < before_fee = elim (Bool-cases (before_fee == 0)) [
        | inl nothing ↦
            let free = add_fee_zero (
              subst (λ b. add_fee fees b ≡ ok a.amount_in) ((==_iff before_fee 0).0 nothing)
                added) in
            absurd (omega (arith, free, in_pos))
        | inr something ↦ ground arith
      ] in
      let price = priced swap.amount_out before_fee hp hc less swapped before_pos in
      let (cost, swapped', kept, _) =
        base_out_covers swap.amount_out total_pc total_coin d hp hc less price in
      let same : cost ≡ before_fee = ok_injective (sym swapped' ∙ swapped) in
      let kept' : S * T ≤ (S + before_fee) * (T - swap.amount_out) =
        subst (λ c. S * T ≤ (S + c) * (T - swap.amount_out)) same kept in
      let more =
        more_kept S T before_fee a.amount_in (T - swap.amount_out) (omega (arith, fee_eq)) kept' in
      (
        most,
        out_eq,
        record {
          affordable = affordable;
          paid = in_pos;
          received = omega (arith, out_eq, out_pos);
          remains = subst (λ o. o < T) (sym out_eq) less;
          fee_le = omega (arith, fee_eq);
          product = subst (λ o. S * T ≤ (S + a.amount_in) * (T - o)) (sym out_eq) more;
        },
      )
