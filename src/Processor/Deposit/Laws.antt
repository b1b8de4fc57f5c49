-- ===== src/Processor/Deposit/Laws.antt =====
-- What a deposit that is not refused takes and mints.
-- The amounts of a deposit that no holder of LP tokens loses by.
use solana_dex_amm.Result.{bind-eq-ok, err_if, exceeded_slippage, not_allow_zero_lp, ok}
use solana_dex_amm.Instruction.{DepositInstruction}
use solana_dex_amm.Math.Exchange.{
  ceiling, exchange, exchange_coin_to_pc, exchange_pc_to_coin, exchange_token_to_pool, floor,
}
use solana_dex_amm.Math.CeilDiv.Laws.{le-rounded-mul, rounded-eq_zero}
use solana_dex_amm.Math.Exchange.Laws.{
  deposit_keeps_share, exchange_ceiling_lem, exchange_floor_lem,
}
use solana_dex_amm.Processor.Deposit.Amounts.{
  Deposited, deposit_amounts, deposit_base_coin, deposit_base_pc,
}
use solana_dex_amm.Words.{Uint}
use solana_dex_amm.Prelude.{
  Bool-cases, arith, if◌then◌else◌, inl, inr, ltb, subst, ℕ, ◌*◌, ◌+◌, ◌<◌, ◌==◌, ◌^◌, ◌≡◌, ◌≤◌,
}
use solana_dex_amm.Prelude.Arith.{div-mul-le, le_of_mul, mul-le_right}

pub record IsFairDeposit (args : DepositInstruction) (C P lp_amount user_coin user_pc : ℕ)
    (m : Deposited) : Type 0 where
  pub coin_pos : 0 < m.deduct_coin_amount
  pub pc_pos : 0 < m.deduct_pc_amount
  pub mint_pos : 0 < m.mint_lp_amount
  pub coin_le_max : m.deduct_coin_amount ≤ args.max_coin_amount
  pub pc_le_max : m.deduct_pc_amount ≤ args.max_pc_amount
  pub coin_affordable : m.deduct_coin_amount ≤ user_coin
  pub pc_affordable : m.deduct_pc_amount ≤ user_pc
  pub coin_kept : C * (lp_amount + m.mint_lp_amount) ≤ (C + m.deduct_coin_amount) * lp_amount
  pub pc_kept : P * (lp_amount + m.mint_lp_amount) ≤ (P + m.deduct_pc_amount) * lp_amount

-- What is paid of the other token covers its share too.
other_kept :
    (b B O lp pay mint : ℕ)
    → 0 < B
    → mint * B ≤ lp * b
    → b * O ≤ pay * B
    → O * (lp + mint) ≤ (O + pay) * lp
other_kept b B O lp pay mint p h k =
    let share = mul-le_right O (mint * B) (lp * b) h in
    let cover = mul-le_right lp (b * O) (pay * B) k in
    let both : O * mint * B ≤ pay * lp * B = omega (arith, share, cover) in
    omega (arith, le_of_mul (O * mint) (pay * lp) B p both)

module _ ⦃u : Uint 128⦄ (b B O lp : ℕ) where
  -- The share is kept for both tokens, where something is paid of the other one.
  base_kept :
      {pay mint : ℕ}
      → b < 2 ^ 64
      → B < 2 ^ 64
      → O < 2 ^ 64
      → lp < 2 ^ 64
      → exchange b O B ceiling ≡ ok pay
      → exchange_token_to_pool (record { token_input = b; token_total = B }) lp floor ≡ ok mint
      → 0 < pay
      → (B * (lp + mint) ≤ (B + b) * lp) × (O * (lp + mint) ≤ (O + pay) * lp)
  unfolding exchange_token_to_pool
  base_kept {pay = pay} {mint = mint} hb hB hO hl e1 e2 pos =
      let (B_pos, pay_eq, _) = exchange_ceiling_lem b O B hb hO hB e1 in
      let (_, mint_eq, _) = exchange_floor_lem lp b B hl hb e2 in
      let minted : mint * B ≤ lp * b = rw mint_eq (div-mul-le (lp * b) B) in
      let enough : b * O ≤ pay * B =
        ground (arith, rounded-eq_zero (b * O) B B_pos, le-rounded-mul (b * O) B B_pos) in
      (deposit_keeps_share b B lp hb hl e2, other_kept b B O lp pay mint B_pos minted enough)

module _ ⦃u : Uint 128⦄ (args : DepositInstruction) (C P lp user_coin user_pc : ℕ) where
  deposit_base_coin-kept :
      {m : Deposited}
      → args.max_coin_amount < 2 ^ 64
      → C < 2 ^ 64
      → P < 2 ^ 64
      → lp < 2 ^ 64
      → deposit_base_coin args C P lp ≡ ok m
      → 0 < m.deduct_pc_amount
      → (m.deduct_coin_amount ≤ args.max_coin_amount)
        × (m.deduct_pc_amount ≤ args.max_pc_amount)
        × (C * (lp + m.mint_lp_amount) ≤ (C + m.deduct_coin_amount) * lp)
        × (P * (lp + m.mint_lp_amount) ≤ (P + m.deduct_pc_amount) * lp)
  unfolding deposit_base_coin exchange_coin_to_pc
  deposit_base_coin-kept {m = m} hm hC hP hl e pos =
      let (pay, e1, r1) = bind-eq-ok (exchange args.max_coin_amount P C ceiling) _ e in
      let (_, le, r2) = bind-eq-ok (err_if (ltb args.max_pc_amount pay) exceeded_slippage) _ r1 in
      let (mint, e2, r3) =
        bind-eq-ok
          (exchange_token_to_pool (record { token_input = args.max_coin_amount; token_total = C })
            lp floor)
          _ r2 in
      let fields : (m.deduct_coin_amount ≡ args.max_coin_amount)
          × (m.deduct_pc_amount ≡ pay)
          × (m.mint_lp_amount ≡ mint)
          × (pay ≤ args.max_pc_amount) =
        ground arith in
      let kept =
        base_kept args.max_coin_amount C P lp hm hC hP hl e1 e2 (omega (arith, fields.1, pos)) in
      ground arith

  deposit_base_pc-kept :
      {m : Deposited}
      → args.max_pc_amount < 2 ^ 64
      → C < 2 ^ 64
      → P < 2 ^ 64
      → lp < 2 ^ 64
      → deposit_base_pc args C P lp ≡ ok m
      → 0 < m.deduct_coin_amount
      → (m.deduct_coin_amount ≤ args.max_coin_amount)
        × (m.deduct_pc_amount ≤ args.max_pc_amount)
        × (C * (lp + m.mint_lp_amount) ≤ (C + m.deduct_coin_amount) * lp)
        × (P * (lp + m.mint_lp_amount) ≤ (P + m.deduct_pc_amount) * lp)
  unfolding deposit_base_pc exchange_pc_to_coin
  deposit_base_pc-kept {m = m} hm hC hP hl e pos =
      let (pay, e1, r1) = bind-eq-ok (exchange args.max_pc_amount C P ceiling) _ e in
      let (_, le, r2) = bind-eq-ok (err_if (ltb args.max_coin_amount pay) exceeded_slippage) _ r1 in
      let (mint, e2, r3) =
        bind-eq-ok
          (exchange_token_to_pool (record { token_input = args.max_pc_amount; token_total = P }) lp
            floor)
          _ r2 in
      let fields : (m.deduct_pc_amount ≡ args.max_pc_amount)
          × (m.deduct_coin_amount ≡ pay)
          × (m.mint_lp_amount ≡ mint)
          × (pay ≤ args.max_coin_amount) =
        ground arith in
      let kept =
        base_kept args.max_pc_amount P C lp hm hP hC hl e1 e2 (omega (arith, fields.1, pos)) in
      ground arith

  -- A deposit that is not refused, on amounts of 64 bits, takes something of both tokens, of each at most
  -- the maximum that is given and at most what the user has, mints something, and makes no LP token that
  -- exists worth less of either token.
  pub deposit_amounts-IsFairDeposit :
      (m : Deposited)
      → args.max_coin_amount < 2 ^ 64
      → args.max_pc_amount < 2 ^ 64
      → C < 2 ^ 64
      → P < 2 ^ 64
      → lp < 2 ^ 64
      → deposit_amounts args C P lp user_coin user_pc ≡ ok m
      → IsFairDeposit args C P lp user_coin user_pc m
  unfolding deposit_amounts
  deposit_amounts-IsFairDeposit m hmc hmp hC hP hl e =
      let (_, _, r1) = bind-eq-ok (err_if (lp == 0) not_allow_zero_lp) _ e in
      let (m', base, r2) =
        bind-eq-ok
          (if args.base_side == 0
            then deposit_base_coin args C P lp
            else deposit_base_pc args C P lp)
          _ r1 in
      let checks : (m' ≡ m)
          × (0 < m.deduct_coin_amount)
          × (0 < m.deduct_pc_amount)
          × (0 < m.mint_lp_amount)
          × (m.deduct_coin_amount ≤ user_coin)
          × (m.deduct_pc_amount ≤ user_pc) =
        ground arith in
      let base' =
        subst
          (λ x.
            (if args.base_side == 0
              then deposit_base_coin args C P lp
              else deposit_base_pc args C P lp)
            ≡ ok x)
          checks.0 base in
      let kept : (m.deduct_coin_amount ≤ args.max_coin_amount)
          × (m.deduct_pc_amount ≤ args.max_pc_amount)
          × (C * (lp + m.mint_lp_amount) ≤ (C + m.deduct_coin_amount) * lp)
          × (P * (lp + m.mint_lp_amount) ≤ (P + m.deduct_pc_amount) * lp) =
        elim (Bool-cases (args.base_side == 0)) [
          | inl coin ↦ deposit_base_coin-kept hmc hC hP hl (rw coin at base') checks.2
          | inr pc ↦ deposit_base_pc-kept hmp hC hP hl (rw pc at base') checks.1
        ] in
      record {
        coin_pos = checks.1;
        pc_pos = checks.2;
        mint_pos = checks.3;
        coin_le_max = kept.0;
        pc_le_max = kept.1;
        coin_affordable = checks.4;
        pc_affordable = checks.5;
        coin_kept = kept.2;
        pc_kept = kept.3;
      }
