-- ===== src/Processor/TakePnl/Laws.antt =====
-- What `calc_take_pnl` takes, and that it moves value without making or losing any.
use solana_dex_amm.Result.{Ensures, bind-eq-ok, if-Ensures, ok, step, unwrap}
use solana_dex_amm.Math.Power.{calc_x_power, calc_x_power_lem}
use solana_dex_amm.Processor.TakePnl.{Taken, calc_take_pnl, pnl_diffs, take_diff}
use solana_dex_amm.Processor.TakePnl.Share.{
  IsAtMost, IsMoved, IsShared, IsShared-IsAtMost, take_diff-Ensures,
}
use solana_dex_amm.State.Target.{TargetOrders}
use solana_dex_amm.State.Amm.{AmmInfo}
use solana_dex_amm.Words.{Uint}
use solana_dex_amm.Words.Laws.{uint256_laws}
use solana_dex_amm.Prelude.{arith, leb, refl, subst, ℕ, ◌*◌, ◌+◌, ◌-◌, ◌/◌, ◌<◌, ◌≡◌, ◌≤◌}

-- The amounts `x2` and `y2` that keep the last product `last_k` at the price of `x1` to `y1`.
pub record IsTarget (last_k x1 y1 x2 y2 : ℕ) : Type 0 where
  pub root_le : x2 * x2 ≤ last_k * x1 / y1
  pub lt_root : last_k * x1 / y1 < (x2 + 1) * (x2 + 1)
  pub partner : y2 ≡ x2 * y1 / x1
  pub x_le : x2 ≤ x1
  pub y_le : y2 ≤ y1

-- What a successful `calc_take_pnl` promises.
pub record IsTaken (target : TargetOrders) (amm : AmmInfo) (total_pc total_coin x1 y1 : ℕ)
    (t : Taken) : Type 0 where
  pub grown : target.calc_pnl_x * target.calc_pnl_y ≤ x1 * y1
  pub x2 : ℕ
  pub y2 : ℕ
  pub kept : IsTarget (target.calc_pnl_x * target.calc_pnl_y) x1 y1 x2 y2
  pub shared : IsShared amm total_pc total_coin (x1 - x2) (y1 - y2) t
  pub pc_at_most : IsAtMost amm (x1 - x2) amm.pc_decimals (total_pc - t.total_pc)
  pub coin_at_most : IsAtMost amm (y1 - y2) amm.coin_decimals (total_coin - t.total_coin)
  pub moved : IsMoved amm total_pc total_coin t

module _ ⦃u : Uint 128⦄ ⦃v : Uint 256⦄ (target : TargetOrders) (x1 y1 : ℕ) where
  -- The differences that are shared lead from the current amounts to such a pair.
  pub pnl_diffs_lem :
      {d : ℕ × ℕ}
      → pnl_diffs target x1 y1 ≡ ok d
      → (x2 y2 : ℕ) × IsTarget (target.calc_pnl_x * target.calc_pnl_y) x1 y1 x2 y2
        × (d.0 ≡ x1 - x2)
        × (d.1 ≡ y1 - y2)
        × (0 < x1)
        × (0 < y1)
  unfolding pnl_diffs
  pnl_diffs_lem {d = d} e =
      let (p, power, rest) =
        bind-eq-ok (calc_x_power target.calc_pnl_x target.calc_pnl_y x1 y1) _ e in
      let (y_pos, p_eq, fits) = calc_x_power_lem target.calc_pnl_x target.calc_pnl_y x1 y1 power in
      let x2 = v.integer_sqrt p in
      let rest' = simp uint256_laws at rest in
      let facts : (x2 ≤ x1)
          × (x2 * y1 / x1 ≤ y1)
          × (d.0 ≡ x1 - x2)
          × (d.1 ≡ y1 - x2 * y1 / x1)
          × (0 < x1) =
        ground arith in
      (
        x2,
        x2 * y1 / x1,
        record {
          root_le = rw (← p_eq) (v.integer_sqrt-le p fits);
          lt_root = rw (← p_eq) (v.lt-integer_sqrt p fits);
          partner = refl;
          x_le = facts.0;
          y_le = facts.1;
        },
        facts.2,
        facts.3,
        facts.4,
        y_pos,
      )

module _ ⦃u : Uint 128⦄ ⦃v : Uint 256⦄ where
  diffs_step :
      (target : TargetOrders) (amm : AmmInfo) (total_pc total_coin x1 y1 : ℕ)
      → target.calc_pnl_x * target.calc_pnl_y ≤ x1 * y1
      → (d : ℕ × ℕ) → pnl_diffs target x1 y1 ≡ ok d
      → Ensures
          (IsTaken target amm total_pc total_coin x1 y1)
          (take_diff amm total_pc total_coin d.0 d.1)
  diffs_step target amm total_pc total_coin x1 y1 grown d e = record {
    holds = λ t taken.
        let (x2, y2, kept, dx, dy, _, _) = pnl_diffs_lem target x1 y1 e in
        let (moved, found) = (take_diff-Ensures amm total_pc total_coin d.0 d.1).holds t taken in
        let shared =
          subst (λ x. IsShared amm total_pc total_coin x (y1 - y2) t) dx
            (subst (λ y. IsShared amm total_pc total_coin d.0 y t) dy found) in
        let (pc_at_most, coin_at_most) = IsShared-IsAtMost amm total_pc total_coin _ _ t shared in
        record {
          grown = grown;
          x2 = x2;
          y2 = y2;
          kept = kept;
          shared = shared;
          pc_at_most = pc_at_most;
          coin_at_most = coin_at_most;
          moved = moved;
        };
  }

  calc_take_pnl-Ensures :
      (target : TargetOrders) (amm : AmmInfo) (total_pc total_coin x1 y1 : ℕ)
      → Ensures
          (IsTaken target amm total_pc total_coin x1 y1)
          (calc_take_pnl target amm total_pc total_coin x1 y1)
  unfolding calc_take_pnl
  calc_take_pnl-Ensures target amm total_pc total_coin x1 y1 =
      step (unwrap (v.checked_mul x1 y1)) _ λ current_k current.
        step (unwrap (v.checked_mul target.calc_pnl_x target.calc_pnl_y)) _ λ last_k last.
          let current' = simp uint256_laws at current in
          let last' = simp uint256_laws at last in
          if-Ensures (leb last_k current_k)
            (λ less.
              step (pnl_diffs target x1 y1) _
                (diffs_step target amm total_pc total_coin x1 y1 (ground arith)))
            (λ _. record { holds = λ t e. cc })

  -- Where `calc_take_pnl` succeeds, the product of the amounts is not below that of the last booking. What
  -- exceeds the last product at the present price is shared: exactly the pnl share of it, converted to each
  -- token's units and rounded down, goes off the totals and is added to the profit to be taken, unless it
  -- is nothing for one of the tokens, when nothing changes. So never more than the share is booked. The
  -- pool's LP amount, status, state and fees stay.
  pub calc_take_pnl-IsTaken :
      (target : TargetOrders) (amm : AmmInfo) (total_pc total_coin x1 y1 : ℕ) (t : Taken)
      → calc_take_pnl target amm total_pc total_coin x1 y1 ≡ ok t
      → IsTaken target amm total_pc total_coin x1 y1 t
  calc_take_pnl-IsTaken target amm total_pc total_coin x1 y1 t e =
      (calc_take_pnl-Ensures target amm total_pc total_coin x1 y1).holds t e
