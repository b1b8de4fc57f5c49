-- ===== src/Math/Decimal/Laws.antt =====
-- The decimal conversions: rounding, and the way there and back.
use solana_dex_amm.Result.{ok, unwrap_ok, ◌>>=◌}
use solana_dex_amm.Math.Decimal.{normalize_decimal, normalize_decimal_v2, restore_decimal, to_u64}
use solana_dex_amm.Words.{Uint}
use solana_dex_amm.Words.Laws.{uint_laws}
use solana_dex_amm.Prelude.Arith.{
  div-le_self, div-mul-le, le_of_mul, lt-div-mul-add, mul-lt_u128, pow10-pos,
}
use solana_dex_amm.Prelude.{arith, ℕ, ◌*◌, ◌+◌, ◌/◌, ◌<◌, ◌^◌, ◌≡◌, ◌≤◌}

module _ ⦃u : Uint 128⦄ (val dec sys : ℕ) where
  pub normalize_decimal_v2-eq :
      val < 2 ^ 64
      → sys < 2 ^ 64
      → 10 ^ dec < 2 ^ 128
      → normalize_decimal_v2 val dec sys ≡ ok (val * sys / 10 ^ dec)
  unfolding normalize_decimal_v2
  normalize_decimal_v2-eq h k s =
      simp uint_laws (ground (arith, mul-lt_u128 val sys, pow10-pos dec))

  -- On a value and a system scale of 64 bits, and a scale of the token of 128 bits, the narrow
  -- conversion is the wide one, or a panic where the result does not fit 64 bits.
  pub normalize_decimal-eq :
      val < 2 ^ 64
      → sys < 2 ^ 64
      → 10 ^ dec < 2 ^ 128
      → normalize_decimal val dec sys
        ≡ normalize_decimal_v2 val dec sys >>= λ x. unwrap_ok (to_u64 x)
  unfolding normalize_decimal normalize_decimal_v2 to_u64
  normalize_decimal-eq h k s =
      simp uint_laws
        (ground (arith, mul-lt_u128 val sys, pow10-pos dec, div-le_self (val * sys) (10 ^ dec)))

pub restore_decimal-eq :
    ⦃u : Uint 128⦄ (x dec sys : ℕ)
    → 10 ^ dec < 2 ^ 128
    → x * 10 ^ dec < 2 ^ 128
    → 0 < sys
    → restore_decimal x dec sys ≡ ok (x * 10 ^ dec / sys)
unfolding restore_decimal
restore_decimal-eq x dec sys s h p = simp uint_laws (ground arith)

-- With `P` for the scale and `s` for the system's: down by one rounding, back by another.
there_and_back :
    (v s P : ℕ) → 0 < s → 0 < P → let y = v * s / P * P / s in (y ≤ v) × (v * s < y * s + s + P)
there_and_back v s P p q =
    let down = div-mul-le (v * s) P in
    let back = div-mul-le (v * s / P * P) s in
    (
      le_of_mul _ v s p (omega arith),
      omega (arith, lt-div-mul-add (v * s) P q, lt-div-mul-add (v * s / P * P) s p),
    )

-- On a value and a system scale of 64 bits, the latter not 0, and a scale of the token of 128 bits,
-- normalising and restoring succeed, give at most the value, and lose less than one unit of each of
-- the two scales.
pub restore-normalize :
    ⦃u : Uint 128⦄ (val dec sys : ℕ)
    → val < 2 ^ 64
    → sys < 2 ^ 64
    → 10 ^ dec < 2 ^ 128
    → 0 < sys
    → (x y : ℕ) × (normalize_decimal_v2 val dec sys ≡ ok x)
      × (restore_decimal x dec sys ≡ ok y)
      × (y ≤ val)
      × (val * sys < y * sys + sys + 10 ^ dec)
restore-normalize val dec sys h k s p =
    let P = 10 ^ dec in
    let (most, least) = there_and_back val sys P p (pow10-pos dec) in
    (
      val * sys / P,
      val * sys / P * P / sys,
      normalize_decimal_v2-eq val dec sys h k s,
      restore_decimal-eq _ dec sys s
          (omega (arith, mul-lt_u128 val sys h k, div-mul-le (val * sys) P)) p,
      most,
      least,
    )
