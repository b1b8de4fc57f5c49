-- ===== src/Words/Instance.antt =====
-- The documented behaviour of the crate `uint` can be met: its operations by those of the standard
-- library, and the integer square root digit by digit in base 4.
use solana_dex_amm.Words.Std
use solana_dex_amm.Words.Std.{
  checked_add, checked_div, checked_mul, checked_pow, checked_rem, checked_sub, saturating_sub,
}
use solana_dex_amm.Words.Crate.{Uint}
use solana_dex_amm.Prelude.{
  Bool-cases, arith, if◌then◌else◌, inl, inr, leb, leb→le, not-leb→lt, refl, suc, zero, ℕ, ◌*◌, ◌+◌,
  ◌/◌, ◌<◌, ◌^◌, ◌≤◌,
}
use native.Mathlib.Nat.{pow-suc}

sqrt_digit : ℕ → ℕ → ℕ
sqrt_digit r n = if leb ((2 * r + 1) * (2 * r + 1)) n then 2 * r + 1 else 2 * r

unfoldable pub sqrt : ℕ → ℕ → ℕ
unfolding sqrt_digit
sqrt zero n = 0
sqrt (suc k) n = sqrt_digit (sqrt k (n / 4)) n

abbrev IsSqrt : ℕ → ℕ → Type 0
IsSqrt r n = (r * r ≤ n) × (n < (r + 1) * (r + 1))

sqrt_digit-IsSqrt : (r n : ℕ) → IsSqrt r (n / 4) → IsSqrt (sqrt_digit r n) n
unfolding sqrt_digit
sqrt_digit-IsSqrt r n h = elim (Bool-cases (leb ((2 * r + 1) * (2 * r + 1)) n)) [
  | inl fits ↦ rw fits (omega (arith, leb→le _ n fits))
  | inr big ↦ rw big (omega (arith, not-leb→lt _ n big))
]

sqrt-IsSqrt : (k n : ℕ) → n < 2 ^ k → IsSqrt (sqrt k n) n
unfolding sqrt
sqrt-IsSqrt zero n h = omega arith
sqrt-IsSqrt (suc k) n h =
    sqrt_digit-IsSqrt (sqrt k (n / 4)) n (sqrt-IsSqrt k (n / 4) (omega (arith, pow-suc 2 k)))

pub sqrt-le : (w n : ℕ) → n < 2 ^ w → sqrt w n * sqrt w n ≤ n
sqrt-le w n h = (sqrt-IsSqrt w n h).0

pub lt-sqrt : (w n : ℕ) → n < 2 ^ w → n < (sqrt w n + 1) * (sqrt w n + 1)
lt-sqrt w n h = (sqrt-IsSqrt w n h).1

abbrev pub std_uint : (w : ℕ) → Uint w
std_uint w = record {
  checked_add = Std.checked_add w;
  checked_sub = Std.checked_sub;
  checked_mul = Std.checked_mul w;
  checked_div = Std.checked_div;
  checked_rem = Std.checked_rem;
  checked_pow = Std.checked_pow w;
  saturating_sub = Std.saturating_sub;
  mul = Std.checked_mul w;
  div = Std.checked_div;
  as_u64 = Std.fit 64;
  as_u128 = Std.fit 128;
  integer_sqrt = sqrt w;
  checked_add_lem = λ a b. refl;
  checked_sub_lem = λ a b. refl;
  checked_mul_lem = λ a b. refl;
  checked_div_lem = λ a b. refl;
  checked_rem_lem = λ a b. refl;
  checked_pow_lem = λ a n. refl;
  saturating_sub_lem = λ a b. refl;
  mul_lem = λ a b. refl;
  div_lem = λ a b. refl;
  as_u64_lem = λ a. refl;
  as_u128_lem = λ a. refl;
  integer_sqrt-le = sqrt-le w;
  lt-integer_sqrt = lt-sqrt w;
}
