-- ===== src/Words/Crate.antt =====
-- The crate `uint` as the program uses it: the operations of a type made by `construct_uint!`, of
-- `w` bits, with what their documentation says.
use solana_dex_amm.Prelude.{ℕ, ◌+◌, ◌*◌, ◌^◌, ◌≤◌, ◌<◌, ◌≡◌, Option}
use solana_dex_amm.Words.Std

pub record Uint (w : ℕ) : Type 0 where
  pub checked_add : ℕ → ℕ → Option ℕ
  pub checked_sub : ℕ → ℕ → Option ℕ
  pub checked_mul : ℕ → ℕ → Option ℕ
  pub checked_div : ℕ → ℕ → Option ℕ
  pub checked_rem : ℕ → ℕ → Option ℕ
  pub checked_pow : ℕ → ℕ → Option ℕ
  pub saturating_sub : ℕ → ℕ → ℕ
  -- The operators `*` and `/` panic, `none`, on an overflow and on the divisor 0.
  pub mul : ℕ → ℕ → Option ℕ
  pub div : ℕ → ℕ → Option ℕ
  -- The casts panic, `none`, on a value that does not fit.
  pub as_u64 : ℕ → Option ℕ
  pub as_u128 : ℕ → Option ℕ
  pub integer_sqrt : ℕ → ℕ
  pub checked_add_lem : (a b : ℕ) → checked_add a b ≡ Std.checked_add w a b
  pub checked_sub_lem : (a b : ℕ) → checked_sub a b ≡ Std.checked_sub a b
  pub checked_mul_lem : (a b : ℕ) → checked_mul a b ≡ Std.checked_mul w a b
  pub checked_div_lem : (a b : ℕ) → checked_div a b ≡ Std.checked_div a b
  pub checked_rem_lem : (a b : ℕ) → checked_rem a b ≡ Std.checked_rem a b
  pub checked_pow_lem : (a n : ℕ) → checked_pow a n ≡ Std.checked_pow w a n
  pub saturating_sub_lem : (a b : ℕ) → saturating_sub a b ≡ Std.saturating_sub a b
  pub mul_lem : (a b : ℕ) → mul a b ≡ Std.checked_mul w a b
  pub div_lem : (a b : ℕ) → div a b ≡ Std.checked_div a b
  pub as_u64_lem : (a : ℕ) → as_u64 a ≡ Std.fit 64 a
  pub as_u128_lem : (a : ℕ) → as_u128 a ≡ Std.fit 128 a
  -- The largest number whose square is at most the value.
  pub integer_sqrt-le : (n : ℕ) → n < 2 ^ w → integer_sqrt n * integer_sqrt n ≤ n
  pub lt-integer_sqrt : (n : ℕ) → n < 2 ^ w → n < (integer_sqrt n + 1) * (integer_sqrt n + 1)
