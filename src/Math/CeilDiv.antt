-- ===== src/Math/CeilDiv.antt =====
-- program/src/math.rs, `trait CheckedCeilDiv` and its instances for U128 and `u128`.
pub mod Laws
use solana_dex_amm.Words.Std
use solana_dex_amm.Prelude.OptionMonad.{◌>>=◌}
use solana_dex_amm.Words.{Uint}
use solana_dex_amm.Prelude.{Option, if◌then◌else◌, leb, ltb, some, ℕ, ◌==◌}

-- `impl CheckedCeilDiv for U128`; a quotient of zero
round_small : ⦃u : Uint 128⦄ → ℕ → ℕ → Option (ℕ × ℕ)
round_small ⦃u⦄ self rhs = do
  twice ← u.checked_mul self 2
  if leb rhs twice then some (1, 0) else some (0, 0)

-- the divisor that belongs to the quotient, rounded up too
new_divisor : ⦃u : Uint 128⦄ → ℕ → ℕ → Option (ℕ × ℕ)
new_divisor ⦃u⦄ self quotient = do
  rhs ← u.checked_div self quotient
  remainder ← u.checked_rem self quotient
  rhs' ← if ltb 0 remainder then u.checked_add rhs 1 else some rhs
  some (quotient, rhs')

-- a quotient that is not zero
round_up : ⦃u : Uint 128⦄ → ℕ → ℕ → ℕ → Option (ℕ × ℕ)
unfolding new_divisor
round_up ⦃u⦄ self rhs quotient = do
  remainder ← u.checked_rem self rhs
  if ltb 0 remainder
      then (do quotient' ← u.checked_add quotient 1; new_divisor self quotient')
      else some (quotient, rhs)

unfoldable pub checked_ceil_div : ⦃u : Uint 128⦄ → ℕ → ℕ → Option (ℕ × ℕ)
unfolding round_small round_up
checked_ceil_div ⦃u⦄ self rhs = do
  quotient ← u.checked_div self rhs
  if quotient == 0 then round_small self rhs else round_up self rhs quotient

-- `impl CheckedCeilDiv for u128`; a quotient of zero
round_small_u128 : ℕ → ℕ → Option (ℕ × ℕ)
round_small_u128 self rhs = do
  twice ← Std.checked_mul 128 self 2
  if leb rhs twice then some (1, 0) else some (0, 0)

new_divisor_u128 : ℕ → ℕ → Option (ℕ × ℕ)
new_divisor_u128 self quotient = do
  rhs ← Std.checked_div self quotient
  remainder ← Std.checked_rem self quotient
  rhs' ← if ltb 0 remainder then Std.checked_add 128 rhs 1 else some rhs
  some (quotient, rhs')

round_up_u128 : ℕ → ℕ → ℕ → Option (ℕ × ℕ)
unfolding new_divisor_u128
round_up_u128 self rhs quotient = do
  remainder ← Std.checked_rem self rhs
  if ltb 0 remainder
      then (do quotient' ← Std.checked_add 128 quotient 1; new_divisor_u128 self quotient')
      else some (quotient, rhs)

unfoldable pub checked_ceil_div_u128 : ℕ → ℕ → Option (ℕ × ℕ)
unfolding round_small_u128 round_up_u128
checked_ceil_div_u128 self rhs = do
  quotient ← Std.checked_div self rhs
  if quotient == 0 then round_small_u128 self rhs else round_up_u128 self rhs quotient
