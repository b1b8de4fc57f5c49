-- ===== src/Processor/TakePnl.antt =====
-- program/src/processor.rs: `Processor::calc_take_pnl`. The pool and the two totals that the code changes
-- in place are returned.
pub mod Share
pub mod Laws
use solana_dex_amm.Words.Std
use solana_dex_amm.Result.{Result, calc_pnl_error, custom, err, ok, unwrap, ◌>>=◌}
use solana_dex_amm.Math.Power.{calc_x_power}
use solana_dex_amm.Math.Decimal.{restore_decimal}
use solana_dex_amm.State.Target.{TargetOrders}
use solana_dex_amm.State.Amm.{AmmInfo}
use solana_dex_amm.State.Fees.{Fees}
use solana_dex_amm.Words.{Uint}
use solana_dex_amm.Prelude.{if◌then◌else◌, leb, not, ℕ, ◌&&◌, ◌==◌}

pub record Taken : Type 0 where
  pub delta_x : ℕ
  pub delta_y : ℕ
  pub amm : AmmInfo
  pub total_pc : ℕ
  pub total_coin : ℕ

module _ ⦃u : Uint 128⦄ where
  -- diff * pnl_numerator / pnl_denominator
  unfoldable pub pnl_share : Fees → ℕ → Result ℕ
  pnl_share fees diff = do
    product ← unwrap (u.checked_mul diff fees.pnl_numerator)
    unwrap (u.checked_div product fees.pnl_denominator)

  -- step 2 and 3: the profit is booked, and taken off the totals
  unfoldable pub book_pnl :
      AmmInfo
      → (total_pc total_coin delta_x delta_y : ℕ) → (diff_pc diff_coin pc_pnl coin_pnl : ℕ)
      → Result Taken
  book_pnl amm total_pc total_coin delta_x delta_y diff_pc diff_coin pc_pnl coin_pnl = do
    diff_pc' ← unwrap (u.as_u64 diff_pc)
    total_pnl_pc ← unwrap (Std.checked_add 64 amm.state_data.total_pnl_pc diff_pc')
    diff_coin' ← unwrap (u.as_u64 diff_coin)
    total_pnl_coin ← unwrap (Std.checked_add 64 amm.state_data.total_pnl_coin diff_coin')
    need_take_pnl_pc ← unwrap (Std.checked_add 64 amm.state_data.need_take_pnl_pc pc_pnl)
    need_take_pnl_coin ← unwrap (Std.checked_add 64 amm.state_data.need_take_pnl_coin coin_pnl)
    total_pc' ← unwrap (Std.checked_sub total_pc pc_pnl)
    total_coin' ← unwrap (Std.checked_sub total_coin coin_pnl)
    ok (record {
      delta_x = delta_x;
      delta_y = delta_y;
      amm = record amm {
        state_data = record (amm.state_data) {
          total_pnl_pc = total_pnl_pc;
          total_pnl_coin = total_pnl_coin;
          need_take_pnl_pc = need_take_pnl_pc;
          need_take_pnl_coin = need_take_pnl_coin;
        };
      };
      total_pc = total_pc';
      total_coin = total_coin';
    })

  -- the profit of the two differences, in the system's decimals
  unfoldable pub take_diff : AmmInfo → (total_pc total_coin diff_x diff_y : ℕ) → Result Taken
  take_diff amm total_pc total_coin diff_x diff_y = do
    delta_x ← pnl_share amm.fees diff_x
    delta_x' ← unwrap (u.as_u128 delta_x)
    delta_y ← pnl_share amm.fees diff_y
    delta_y' ← unwrap (u.as_u128 delta_y)
    diff_pc ← restore_decimal diff_x amm.pc_decimals amm.sys_decimal_value
    diff_coin ← restore_decimal diff_y amm.coin_decimals amm.sys_decimal_value
    pc_share ← pnl_share amm.fees diff_pc
    pc_pnl ← unwrap (u.as_u64 pc_share)
    coin_share ← pnl_share amm.fees diff_coin
    coin_pnl ← unwrap (u.as_u64 coin_share)
    if not (pc_pnl == 0) && not (coin_pnl == 0)
        then book_pnl amm total_pc total_coin delta_x' delta_y' diff_pc diff_coin pc_pnl coin_pnl
        else ok (record {
          delta_x = 0;
          delta_y = 0;
          amm = amm;
          total_pc = total_pc;
          total_coin = total_coin;
        })

module _ ⦃u : Uint 128⦄ ⦃v : Uint 256⦄ where
  -- x1 - x2 and y1 - y2, where x2 and y2 have the last product at the current price
  unfoldable pub pnl_diffs : TargetOrders → (x1 y1 : ℕ) → Result (ℕ × ℕ)
  pnl_diffs target x1 y1 = do
    x2_power ← calc_x_power target.calc_pnl_x target.calc_pnl_y x1 y1
    let x2 = v.integer_sqrt x2_power
    product ← unwrap (v.checked_mul x2 y1)
    y2 ← unwrap (v.checked_div product x1)
    dx ← unwrap (v.checked_sub x1 x2)
    diff_x ← unwrap (v.as_u128 dx)
    dy ← unwrap (v.checked_sub y1 y2)
    diff_y ← unwrap (v.as_u128 dy)
    ok (diff_x, diff_y)

  unfoldable pub calc_take_pnl :
      TargetOrders → AmmInfo → (total_pc total_coin x1 y1 : ℕ) → Result Taken
  calc_take_pnl target amm total_pc total_coin x1 y1 = do
    current_k ← unwrap (v.checked_mul x1 y1)
    last_k ← unwrap (v.checked_mul target.calc_pnl_x target.calc_pnl_y)
    if leb last_k current_k
        then (do
          (diff_x, diff_y) ← pnl_diffs target x1 y1
          take_diff amm total_pc total_coin diff_x diff_y)
        else err (custom calc_pnl_error)
