-- ===== src/Words/Laws.antt =====
-- U128 code in terms of the standard library's operations, as a rule set for `simp`.
use solana_dex_amm.Words.Std
use solana_dex_amm.Words.Crate.{Uint}
use solana_dex_amm.Prelude.{ℕ, ◌≡◌}

module _ ⦃u : Uint 128⦄ where
  pub add_std : (a b : ℕ) → u.checked_add a b ≡ Std.checked_add 128 a b
  add_std = u.checked_add_lem

  pub sub_std : (a b : ℕ) → u.checked_sub a b ≡ Std.checked_sub a b
  sub_std = u.checked_sub_lem

  pub mul_std : (a b : ℕ) → u.checked_mul a b ≡ Std.checked_mul 128 a b
  mul_std = u.checked_mul_lem

  pub div_std : (a b : ℕ) → u.checked_div a b ≡ Std.checked_div a b
  div_std = u.checked_div_lem

  pub rem_std : (a b : ℕ) → u.checked_rem a b ≡ Std.checked_rem a b
  rem_std = u.checked_rem_lem

  pub pow_std : (a n : ℕ) → u.checked_pow a n ≡ Std.checked_pow 128 a n
  pow_std = u.checked_pow_lem

  pub saturating_sub_std : (a b : ℕ) → u.saturating_sub a b ≡ Std.saturating_sub a b
  saturating_sub_std = u.saturating_sub_lem

  pub op_mul_std : (a b : ℕ) → u.mul a b ≡ Std.checked_mul 128 a b
  op_mul_std = u.mul_lem

  pub op_div_std : (a b : ℕ) → u.div a b ≡ Std.checked_div a b
  op_div_std = u.div_lem

  pub as_u64_std : (a : ℕ) → u.as_u64 a ≡ Std.fit 64 a
  as_u64_std = u.as_u64_lem

  pub as_u128_std : (a : ℕ) → u.as_u128 a ≡ Std.fit 128 a
  as_u128_std = u.as_u128_lem

pub ruleset uint_laws = (
  add_std, sub_std, mul_std, div_std, rem_std, pow_std, saturating_sub_std, op_mul_std, op_div_std,
  as_u64_std, as_u128_std,
)

-- The same for U256.
module _ ⦃v : Uint 256⦄ where
  pub sub_std256 : (a b : ℕ) → v.checked_sub a b ≡ Std.checked_sub a b
  sub_std256 = v.checked_sub_lem

  pub mul_std256 : (a b : ℕ) → v.checked_mul a b ≡ Std.checked_mul 256 a b
  mul_std256 = v.checked_mul_lem

  pub div_std256 : (a b : ℕ) → v.checked_div a b ≡ Std.checked_div a b
  div_std256 = v.checked_div_lem

  pub as_u128_std256 : (a : ℕ) → v.as_u128 a ≡ Std.fit 128 a
  as_u128_std256 = v.as_u128_lem

pub ruleset uint256_laws = (sub_std256, mul_std256, div_std256, as_u128_std256)
