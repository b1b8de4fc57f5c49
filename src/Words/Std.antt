-- ===== src/Words/Std.antt =====
-- `checked_add` and its kin on the primitive unsigned integers of `w` bits.
use solana_dex_amm.Prelude.{
  ℕ, ◌+◌, ◌-◌, ◌*◌, ◌/◌, ◌%◌, ◌^◌, Option, none, some, ltb, leb, ◌==◌, if◌then◌else◌,
}

abbrev pub fit : ℕ → ℕ → Option ℕ
fit w n = if ltb n (2 ^ w) then some n else none

abbrev pub checked_add : ℕ → ℕ → ℕ → Option ℕ
checked_add w a b = fit w (a + b)

abbrev pub checked_sub : ℕ → ℕ → Option ℕ
checked_sub a b = if leb b a then some (a - b) else none

abbrev pub checked_mul : ℕ → ℕ → ℕ → Option ℕ
checked_mul w a b = fit w (a * b)

abbrev pub checked_div : ℕ → ℕ → Option ℕ
checked_div a b = if b == 0 then none else some (a / b)

abbrev pub checked_rem : ℕ → ℕ → Option ℕ
checked_rem a b = if b == 0 then none else some (a % b)

abbrev pub checked_pow : ℕ → ℕ → ℕ → Option ℕ
checked_pow w a n = fit w (a ^ n)

-- `saturating_sub` is the subtraction of ℕ.
abbrev pub saturating_sub : ℕ → ℕ → ℕ
saturating_sub a b = a - b

abbrev pub u64_max : ℕ
u64_max = 2 ^ 64 - 1
