-- ===== src/Math/CeilDiv/Laws.antt =====
-- The two instances of `CheckedCeilDiv` agree, and what they return.
use solana_dex_amm.Math.CeilDiv.{
  checked_ceil_div, checked_ceil_div_u128, new_divisor_u128, round_up_u128,
}
use solana_dex_amm.Words.Instance.{std_uint}
use solana_dex_amm.Words.{Uint}
use solana_dex_amm.Words.Laws.{uint_laws}
use solana_dex_amm.Prelude.{
  Bool-cases, arith, if◌then◌else◌, inl, inr, leb, ltb, ltb→lt, none, some, sym, ℕ, ◌%◌, ◌*◌, ◌+◌,
  ◌-◌, ◌/◌, ◌<◌, ◌==◌, ◌^◌, ◌↔◌, ◌∙◌, ◌≡◌, ◌≤◌,
}
use solana_dex_amm.Prelude.Arith.{
  ceil, ceil-div_exact, ceil-mul-lt, ceil-pos, ceil_of_mod_pos, ceil_of_mod_zero, div-le_self,
  div_unique, le-ceil-mul, le-div,
}
use native.Mathlib.Nat.{div-eq_of_lt}

-- On U128 and on `u128` the division is the same function.
pub checked_ceil_div-eq-u128 :
    ⦃u : Uint 128⦄ (a b : ℕ) → checked_ceil_div a b ≡ checked_ceil_div_u128 a b
unfolding checked_ceil_div checked_ceil_div_u128
checked_ceil_div-eq-u128 ⦃u⦄ a b = simp uint_laws

new_divisor-eq : (a q : ℕ) → 0 < q → a < 2 ^ 128 → new_divisor_u128 a q ≡ some (q, ceil a q)
unfolding new_divisor_u128
new_divisor-eq a q p h = elim (Bool-cases (ltb 0 (a % q))) [
  | inl more ↦ rw (ceil_of_mod_pos a q p (ltb→lt 0 _ more)) (ground (arith, div-le_self a q))
  | inr exact ↦ rw (ceil_of_mod_zero a q p (ground arith)) (ground arith)
]

round_up-eq :
    (a b : ℕ)
    → 0 < b
    → b ≤ a
    → a < 2 ^ 128
    → round_up_u128 a b (a / b) ≡ some (ceil a b, ceil a (ceil a b))
unfolding round_up_u128
round_up-eq a b p le h = elim (Bool-cases (ltb 0 (a % b))) [
  | inl more ↦
      rw (ceil_of_mod_pos a b p (ltb→lt 0 _ more))
        (ground (arith, div-le_self a b, new_divisor-eq a (a / b + 1)))
  | inr exact ↦
      rw (ceil_of_mod_zero a b p (ground arith), ceil-div_exact a b p le (ground arith))
        (ground arith)
]

-- On a dividend of 128 bits, the division fails for the divisor 0; it gives the quotient rounded up
-- and the least divisor that belongs to it, where the divisor is at most the dividend; and below
-- that it gives 1 or 0, the nearer one, and fails if twice the dividend overflows.
pub checked_ceil_div_lem :
    ⦃u : Uint 128⦄ (a b : ℕ)
    → a < 2 ^ 128
    → checked_ceil_div a b ≡ (
        if b == 0
        then none
        else if leb b a
        then some (ceil a b, ceil a (ceil a b))
        else if leb (2 ^ 128) (a * 2)
        then none
        else some ((if leb b (a * 2) then 1 else 0), 0))
unfolding checked_ceil_div_u128
checked_ceil_div_lem a b h = rw (checked_ceil_div-eq-u128 a b) (elim (Bool-cases (leb b a)) [
  | inl le ↦ ground (arith, round_up-eq a b, le-div a b 1)
  | inr small ↦ ground (arith, div-eq_of_lt {n = a} {m = b})
])

-- The quotient for a divisor that is not 0.
abbrev pub rounded : ℕ → ℕ → ℕ
rounded a b = if leb b a then ceil a b else if leb b (a * 2) then 1 else 0

-- It is 0 or the quotient rounded up, and 0 exactly if the dividend is less than half the divisor.
pub rounded-eq_zero : (a b : ℕ) → 0 < b → (rounded a b ≡ 0) ↔ (a * 2 < b)
rounded-eq_zero a b p = ground (arith, ceil-pos a b)

pub le-rounded-mul : (a b : ℕ) → 0 < b → b ≤ a * 2 → a ≤ rounded a b * b
le-rounded-mul a b p h = ground (arith, le-ceil-mul a b)

pub rounded-mul-lt : (a b : ℕ) → 0 < b → rounded a b * b < a + b
rounded-mul-lt a b p = ground (arith, ceil-mul-lt a b)

abbrev pub rounded_divisor : ℕ → ℕ → ℕ
rounded_divisor a b = if leb b a then ceil a (ceil a b) else 0

-- The division does not fail for a divisor that is not 0, of at most 127 bits.
pub checked_ceil_div-rounded :
    ⦃u : Uint 128⦄ (a b : ℕ)
    → a < 2 ^ 128
    → 0 < b
    → b ≤ 2 ^ 127
    → checked_ceil_div a b ≡ some (rounded a b, rounded_divisor a b)
checked_ceil_div-rounded a b h p k = rw (checked_ceil_div_lem a b h) (ground arith)

-- From half the divisor on, the quotient is rounded up.
pub rounded-eq-ceil : (a b : ℕ) → 0 < b → b ≤ a * 2 → rounded a b ≡ ceil a b
rounded-eq-ceil a b p h = ground (arith, div_unique (a + b - 1) b 1)

pub checked_ceil_div_u128-rounded :
    (a b : ℕ)
    → a < 2 ^ 128
    → 0 < b
    → b ≤ 2 ^ 127
    → checked_ceil_div_u128 a b ≡ some (rounded a b, rounded_divisor a b)
checked_ceil_div_u128-rounded a b h p k =
    sym (checked_ceil_div-eq-u128 ⦃u = std_uint 128⦄ a b)
    ∙ checked_ceil_div-rounded ⦃u = std_uint 128⦄ a b h p k
