-- ===== src/Processor/TakePnl/Share.antt =====
-- What `take_diff` of `calc_take_pnl` books: the share of the two differences, exactly.
use solana_dex_amm.Result.{Ensures, if-Ensures, ok, ok-Ensures, step, unwrap}
use solana_dex_amm.Math.Decimal.{restore_decimal}
use solana_dex_amm.Processor.TakePnl.{Taken, book_pnl, pnl_share, take_diff}
use solana_dex_amm.State.Amm.{AmmInfo}
use solana_dex_amm.State.Fees.{Fees}
use solana_dex_amm.Words.{Uint}
use solana_dex_amm.Words.Laws.{uint_laws}
use solana_dex_amm.Prelude.{
  ap, arith, if◌then◌else◌, not, refl, ℕ, ◌&&◌, ◌*◌, ◌+◌, ◌-◌, ◌/◌, ◌<◌, ◌==◌, ◌^◌, ◌∙◌, ◌≡◌, ◌≤◌,
  ◌⊎◌,
}
use solana_dex_amm.Prelude.Arith.{div-mul-le, mul-le_right}

-- a difference in the system's decimals, in units of a token
abbrev pub in_token : AmmInfo → (diff decimals : ℕ) → ℕ
in_token amm diff decimals = diff * 10 ^ decimals / amm.sys_decimal_value

-- the share of the profit that the fees name
abbrev pub share_of : Fees → ℕ → ℕ
share_of f n = n * f.pnl_numerator / f.pnl_denominator

-- What is booked as profit to be taken goes off the totals, and nothing else of the pool changes.
pub record IsMoved (amm : AmmInfo) (total_pc total_coin : ℕ) (t : Taken) : Type 0 where
  pub pc_kept :
      t.total_pc + t.amm.state_data.need_take_pnl_pc ≡ total_pc + amm.state_data.need_take_pnl_pc
  pub coin_kept :
      t.total_coin + t.amm.state_data.need_take_pnl_coin
      ≡ total_coin + amm.state_data.need_take_pnl_coin
  pub pc_le : t.total_pc ≤ total_pc
  pub coin_le : t.total_coin ≤ total_coin
  pub lp_same : t.amm.lp_amount ≡ amm.lp_amount
  pub status_same : t.amm.status ≡ amm.status
  pub state_same : t.amm.state ≡ amm.state
  pub fees_same : t.amm.fees ≡ amm.fees

-- The share of both differences is booked, or neither if one of them is nothing in the token's units.
pub data IsShared (amm : AmmInfo) (total_pc total_coin diff_x diff_y : ℕ) (t : Taken) : Type 0 where
  booked :
      t.delta_x ≡ share_of amm.fees diff_x
      → t.delta_y ≡ share_of amm.fees diff_y
      → 0 < share_of amm.fees (in_token amm diff_x amm.pc_decimals)
      → 0 < share_of amm.fees (in_token amm diff_y amm.coin_decimals)
      → total_pc ≡ t.total_pc + share_of amm.fees (in_token amm diff_x amm.pc_decimals)
      → total_coin ≡ t.total_coin + share_of amm.fees (in_token amm diff_y amm.coin_decimals)
      → t.amm.state_data.total_pnl_pc
        ≡ amm.state_data.total_pnl_pc + in_token amm diff_x amm.pc_decimals
      → t.amm.state_data.total_pnl_coin
        ≡ amm.state_data.total_pnl_coin + in_token amm diff_y amm.coin_decimals
      → IsShared amm total_pc total_coin diff_x diff_y t
  untouched :
      (share_of amm.fees (in_token amm diff_x amm.pc_decimals) ≡ 0)
        ⊎ (share_of amm.fees (in_token amm diff_y amm.coin_decimals) ≡ 0)
      → t.delta_x ≡ 0
      → t.delta_y ≡ 0
      → t.total_pc ≡ total_pc
      → t.total_coin ≡ total_coin
      → t.amm ≡ amm
      → IsShared amm total_pc total_coin diff_x diff_y t

-- An amount of a token that is at most the pnl share of a difference in the system's decimals.
pub record IsAtMost (amm : AmmInfo) (diff decimals amount : ℕ) : Type 0 where
  pub share_le :
      amount * (amm.sys_decimal_value * amm.fees.pnl_denominator)
      ≤ diff * 10 ^ decimals * amm.fees.pnl_numerator

share-IsAtMost :
    (amm : AmmInfo) (diff decimals : ℕ)
    → IsAtMost amm diff decimals (share_of amm.fees (in_token amm diff decimals))
share-IsAtMost amm diff decimals =
    let sys = amm.sys_decimal_value in
    let whole = diff * 10 ^ decimals in
    let num = amm.fees.pnl_numerator in
    let den = amm.fees.pnl_denominator in
    let token : whole / sys * sys ≤ whole = div-mul-le whole sys in
    let share : whole / sys * num / den * den ≤ whole / sys * num =
      div-mul-le (whole / sys * num) den in
    let wide = mul-le_right sys _ _ share in
    let narrow = mul-le_right num _ _ token in record { share_le = grind arith }

pub IsShared-IsAtMost :
    (amm : AmmInfo) (total_pc total_coin diff_x diff_y : ℕ) (t : Taken)
    → IsShared amm total_pc total_coin diff_x diff_y t
    → IsAtMost amm diff_x amm.pc_decimals (total_pc - t.total_pc)
      × IsAtMost amm diff_y amm.coin_decimals (total_coin - t.total_coin)
IsShared-IsAtMost amm total_pc total_coin diff_x diff_y t (booked _ _ _ _ pc coin _ _) =
    let pc_eq : total_pc - t.total_pc ≡ _ = omega (arith, pc) in
    let coin_eq : total_coin - t.total_coin ≡ _ = omega (arith, coin) in
    (
      rw pc_eq (share-IsAtMost amm diff_x amm.pc_decimals),
      rw coin_eq (share-IsAtMost amm diff_y amm.coin_decimals),
    )
IsShared-IsAtMost amm total_pc total_coin diff_x diff_y t (untouched _ _ _ pc coin _) =
    let pc_eq : total_pc - t.total_pc ≡ 0 = omega (arith, pc) in
    let coin_eq : total_coin - t.total_coin ≡ 0 = omega (arith, coin) in
    (record { share_le = rw pc_eq (omega arith) }, record { share_le = rw coin_eq (omega arith) })

module _ ⦃u : Uint 128⦄ where
  pnl_share_lem : (f : Fees) (diff : ℕ) {s : ℕ} → pnl_share f diff ≡ ok s → s ≡ share_of f diff
  unfolding pnl_share
  pnl_share_lem f diff e = ground (arith, simp uint_laws at e)

  restore_decimal_lem :
      (amm : AmmInfo) (diff decimals : ℕ) {r : ℕ}
      → restore_decimal diff decimals amm.sys_decimal_value ≡ ok r
      → r ≡ in_token amm diff decimals
  unfolding restore_decimal
  restore_decimal_lem amm diff decimals e = ground (arith, simp uint_laws at e)

  as_u128_lem : (n : ℕ) {m : ℕ} → unwrap (u.as_u128 n) ≡ ok m → m ≡ n
  as_u128_lem n e = ground (arith, simp uint_laws at e)

  as_u64_lem : (n : ℕ) {m : ℕ} → unwrap (u.as_u64 n) ≡ ok m → m ≡ n
  as_u64_lem n e = ground (arith, simp uint_laws at e)

  -- the sums and differences of `book_pnl`
  book_pnl_sums :
      (amm : AmmInfo) (total_pc total_coin delta_x delta_y diff_pc diff_coin pc_pnl coin_pnl : ℕ)
      {t : Taken}
      → book_pnl amm total_pc total_coin delta_x delta_y diff_pc diff_coin pc_pnl coin_pnl ≡ ok t
      → (t.delta_x ≡ delta_x)
        × (t.delta_y ≡ delta_y)
        × (total_pc ≡ t.total_pc + pc_pnl)
        × (total_coin ≡ t.total_coin + coin_pnl)
        × (t.amm.state_data.total_pnl_pc ≡ amm.state_data.total_pnl_pc + diff_pc)
        × (t.amm.state_data.total_pnl_coin ≡ amm.state_data.total_pnl_coin + diff_coin)
  unfolding book_pnl
  book_pnl_sums amm total_pc total_coin delta_x delta_y diff_pc diff_coin pc_pnl coin_pnl e =
      let e' = simp uint_laws at e in ground arith

  book_pnl-IsMoved :
      (amm : AmmInfo) (total_pc total_coin delta_x delta_y diff_pc diff_coin pc_pnl coin_pnl : ℕ)
      {t : Taken}
      → book_pnl amm total_pc total_coin delta_x delta_y diff_pc diff_coin pc_pnl coin_pnl ≡ ok t
      → IsMoved amm total_pc total_coin t
  unfolding book_pnl
  book_pnl-IsMoved amm total_pc total_coin delta_x delta_y diff_pc diff_coin pc_pnl coin_pnl e =
      ground arith

  IsMoved-same :
      (amm : AmmInfo) (total_pc total_coin : ℕ) {x y : ℕ}
      → IsMoved amm total_pc total_coin (record {
        delta_x = x;
        delta_y = y;
        amm = amm;
        total_pc = total_pc;
        total_coin = total_coin;
      })
  IsMoved-same amm total_pc total_coin = record {
    pc_kept = refl;
    coin_kept = refl;
    pc_le = omega arith;
    coin_le = omega arith;
    lp_same = refl;
    status_same = refl;
    state_same = refl;
    fees_same = refl;
  }

  -- The end of `take_diff`, on the shares that it has computed.
  book_or_not :
      (amm : AmmInfo) (total_pc total_coin diff_x diff_y delta_x delta_y : ℕ)
      (diff_pc diff_coin pc_pnl coin_pnl : ℕ)
      → delta_x ≡ share_of amm.fees diff_x
      → delta_y ≡ share_of amm.fees diff_y
      → diff_pc ≡ in_token amm diff_x amm.pc_decimals
      → diff_coin ≡ in_token amm diff_y amm.coin_decimals
      → pc_pnl ≡ share_of amm.fees diff_pc
      → coin_pnl ≡ share_of amm.fees diff_coin
      → Ensures
          (λ t.
            IsMoved amm total_pc total_coin t × IsShared amm total_pc total_coin diff_x diff_y t)
          (if not (pc_pnl == 0) && not (coin_pnl == 0)
            then book_pnl amm total_pc total_coin delta_x delta_y diff_pc diff_coin pc_pnl coin_pnl
            else ok (record {
              delta_x = 0;
              delta_y = 0;
              amm = amm;
              total_pc = total_pc;
              total_coin = total_coin;
            }))
  book_or_not amm total_pc total_coin diff_x diff_y delta_x delta_y diff_pc diff_coin pc_pnl
        coin_pnl x_eq y_eq pc_eq coin_eq pc_share coin_share =
      let pc_all = pc_share ∙ ap (share_of amm.fees) pc_eq in
      let coin_all = coin_share ∙ ap (share_of amm.fees) coin_eq in
      if-Ensures (not (pc_pnl == 0) && not (coin_pnl == 0))
        (λ more. record {
          holds = λ t e.
              let (x, y, pc, coin, sum_pc, sum_coin) =
                book_pnl_sums amm total_pc total_coin delta_x delta_y diff_pc diff_coin pc_pnl
                  coin_pnl e in
              let positive : (0 < pc_pnl) × (0 < coin_pnl) = ground arith in
              (
                book_pnl-IsMoved amm total_pc total_coin delta_x delta_y diff_pc diff_coin pc_pnl
                    coin_pnl e,
                booked (x ∙ x_eq) (y ∙ y_eq) (rw (← pc_all) positive.0) (rw (← coin_all) positive.1)
                    (pc ∙ ap (λ n. t.total_pc + n) pc_all)
                    (coin ∙ ap (λ n. t.total_coin + n) coin_all)
                    (sum_pc ∙ ap (λ n. amm.state_data.total_pnl_pc + n) pc_eq)
                    (sum_coin ∙ ap (λ n. amm.state_data.total_pnl_coin + n) coin_eq),
              );
        })
        (λ one.
          let empty : (pc_pnl ≡ 0) ⊎ (coin_pnl ≡ 0) = ground arith in
          ok-Ensures _ (
            IsMoved-same amm total_pc total_coin,
            untouched (rw (← pc_all, ← coin_all) empty) refl refl refl refl refl,
          ))

  pub take_diff-Ensures :
      (amm : AmmInfo) (total_pc total_coin diff_x diff_y : ℕ)
      → Ensures
          (λ t.
            IsMoved amm total_pc total_coin t × IsShared amm total_pc total_coin diff_x diff_y t)
          (take_diff amm total_pc total_coin diff_x diff_y)
  unfolding take_diff
  take_diff-Ensures amm total_pc total_coin diff_x diff_y =
      step (pnl_share amm.fees diff_x) _ λ delta_x ex.
        step (unwrap (u.as_u128 delta_x)) _ λ delta_x' fx.
          step (pnl_share amm.fees diff_y) _ λ delta_y ey.
            step (unwrap (u.as_u128 delta_y)) _ λ delta_y' fy.
              step (restore_decimal diff_x amm.pc_decimals amm.sys_decimal_value) _ λ diff_pc rx.
                step (restore_decimal diff_y amm.coin_decimals amm.sys_decimal_value) _
                  λ diff_coin ry. step (pnl_share amm.fees diff_pc) _ λ pc_share sx.
                    step (unwrap (u.as_u64 pc_share)) _ λ pc_pnl gx.
                      step (pnl_share amm.fees diff_coin) _ λ coin_share sy.
                        step (unwrap (u.as_u64 coin_share)) _ λ coin_pnl gy.
                          book_or_not amm total_pc total_coin diff_x diff_y delta_x' delta_y'
                            diff_pc diff_coin pc_pnl coin_pnl
                            (as_u128_lem delta_x fx ∙ pnl_share_lem amm.fees diff_x ex)
                            (as_u128_lem delta_y fy ∙ pnl_share_lem amm.fees diff_y ey)
                            (restore_decimal_lem amm diff_x amm.pc_decimals rx)
                            (restore_decimal_lem amm diff_y amm.coin_decimals ry)
                            (as_u64_lem pc_share gx ∙ pnl_share_lem amm.fees diff_pc sx)
                            (as_u64_lem coin_share gy ∙ pnl_share_lem amm.fees diff_coin sy)
