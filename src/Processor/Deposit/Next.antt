-- ===== src/Processor/Deposit/Next.antt =====
-- What a deposit books in the pool and in its target orders.
use solana_dex_amm.Words.Std
use solana_dex_amm.Result.{bind-eq-ok, ok, ok_injective, unwrap}
use solana_dex_amm.Math.Decimal.{normalize_decimal_v2}
use solana_dex_amm.Processor.Deposit.Amounts.{Deposited, next_calc_pnl}
use solana_dex_amm.Processor.Deposit.Handler.{Totals, book_deposit}
use solana_dex_amm.State.Target.{TargetOrders}
use solana_dex_amm.State.Amm.{AmmInfo}
use solana_dex_amm.Words.{Uint}
use solana_dex_amm.Words.Laws.{uint_laws}
use solana_dex_amm.Prelude.{ap, arith, subst, sym, ℕ, ◌+◌, ◌∙◌, ◌≡◌}

-- What the next profit is measured from, after a deposit of an amount: `x1` and the amount in the system's
-- decimals, less the profit that was taken.
pub record IsNext ⦃u : Uint 128⦄ (x1 amount decimals sys delta calc_pnl : ℕ) : Type 0 where
  pub normal : ℕ
  pub normal_eq : normalize_decimal_v2 amount decimals sys ≡ ok normal
  pub sum : calc_pnl + delta ≡ x1 + normal

module _ ⦃u : Uint 128⦄ where
  next_calc_pnl-IsNext :
      (x1 amount decimals sys delta : ℕ) {calc_pnl : ℕ}
      → next_calc_pnl x1 amount decimals sys delta ≡ ok calc_pnl
      → IsNext x1 amount decimals sys delta calc_pnl
  unfolding next_calc_pnl
  next_calc_pnl-IsNext x1 amount decimals sys delta e =
      let (normal, normal_eq, rest) = bind-eq-ok (normalize_decimal_v2 amount decimals sys) _ e in
      let rest' = simp uint_laws at rest in
      record { normal = normal; normal_eq = normal_eq; sum = ground arith }

  -- What `book_deposit` leaves, all but the LP amount of the pool being the same.
  pub book_deposit_lem :
      (amm : AmmInfo) (target : TargetOrders) (t : Totals) (m : Deposited)
      (r : AmmInfo × TargetOrders)
      → book_deposit amm target t m ≡ ok r
      → (r.0.lp_amount ≡ amm.lp_amount + m.mint_lp_amount)
        × (r.0.state_data ≡ amm.state_data)
        × (r.0.status ≡ amm.status)
        × (r.0.state ≡ amm.state)
        × IsNext t.x1 m.deduct_pc_amount amm.pc_decimals amm.sys_decimal_value t.taken.delta_x
            r.1.calc_pnl_x
        × IsNext t.y1 m.deduct_coin_amount amm.coin_decimals amm.sys_decimal_value t.taken.delta_y
            r.1.calc_pnl_y
  unfolding book_deposit
  book_deposit_lem amm target t m r e =
      let (lp, e1, r1) =
        bind-eq-ok (unwrap (Std.checked_add 64 amm.lp_amount m.mint_lp_amount)) _ e in
      let (x, ex, r2) =
        bind-eq-ok
          (next_calc_pnl t.x1 m.deduct_pc_amount amm.pc_decimals amm.sys_decimal_value
            t.taken.delta_x)
          _ r1 in
      let (y, ey, r3) =
        bind-eq-ok
          (next_calc_pnl t.y1 m.deduct_coin_amount amm.coin_decimals amm.sys_decimal_value
            t.taken.delta_y)
          _ r2 in
      let same = ok_injective r3 in
      let pool = ap (λ z. z.0) same in
      let sum : lp ≡ amm.lp_amount + m.mint_lp_amount = ground arith in
      (
        ap (λ z. z.lp_amount) (sym pool) ∙ sum,
        ap (λ z. z.state_data) (sym pool),
        ap (λ z. z.status) (sym pool),
        ap (λ z. z.state) (sym pool),
        subst
            (λ z.
              IsNext t.x1 m.deduct_pc_amount amm.pc_decimals amm.sys_decimal_value t.taken.delta_x
                z.1.calc_pnl_x)
            same (next_calc_pnl-IsNext _ _ _ _ _ ex),
        subst
            (λ z.
              IsNext t.y1 m.deduct_coin_amount amm.coin_decimals amm.sys_decimal_value
                t.taken.delta_y z.1.calc_pnl_y)
            same (next_calc_pnl-IsNext _ _ _ _ _ ey),
      )
