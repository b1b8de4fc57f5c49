-- ===== src/Math/Power.antt =====
-- program/src/math.rs: `Calculator::calc_x_power`, in 256 bits.
use solana_dex_amm.Result.{Result, ok, unwrap, ◌>>=◌}
use solana_dex_amm.Words.{Uint}
use solana_dex_amm.Prelude.Arith.{div-le_self}
use solana_dex_amm.Prelude.{arith, ℕ, ◌*◌, ◌/◌, ◌<◌, ◌^◌, ◌≡◌}

unfoldable pub calc_x_power : ⦃v : Uint 256⦄ → ℕ → ℕ → ℕ → ℕ → Result ℕ
calc_x_power ⦃v⦄ last_x last_y current_x current_y = do
  last_k ← unwrap (v.checked_mul last_x last_y)
  product ← unwrap (v.checked_mul last_k current_x)
  unwrap (v.checked_div product current_y)

-- Where it does not panic, the power is the last product at the current price, and it fits 256 bits.
pub calc_x_power_lem :
    ⦃v : Uint 256⦄ (last_x last_y x y : ℕ) {p : ℕ}
    → calc_x_power last_x last_y x y ≡ ok p
    → (0 < y) × (p ≡ last_x * last_y * x / y) × (p < 2 ^ 256)
unfolding calc_x_power
calc_x_power_lem ⦃v⦄ last_x last_y x y e = ground (
  arith,
  v.checked_mul_lem last_x last_y,
  v.checked_mul_lem (last_x * last_y) x,
  v.checked_div_lem (last_x * last_y * x) y,
  div-le_self (last_x * last_y * x) y,
)
