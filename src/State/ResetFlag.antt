-- ===== src/State/ResetFlag.antt =====
-- program/src/state.rs: `AmmResetFlag` and its numbers. An unknown number is a panic (`unreachable!`).
use solana_dex_amm.Result.{Result, ok, panic}
use solana_dex_amm.Prelude.{arith, if◌then◌else◌, refl, ℕ, ◌==◌, ◌≡◌}

pub data AmmResetFlag : Type 0 where
  reset_yes reset_no : AmmResetFlag

unfoldable pub into_u64 : AmmResetFlag → ℕ
into_u64 AmmResetFlag.reset_yes = 0
into_u64 AmmResetFlag.reset_no = 1

unfoldable pub from_u64 : ℕ → Result AmmResetFlag
from_u64 n =
    if n == 0 then ok AmmResetFlag.reset_yes else if n == 1 then ok AmmResetFlag.reset_no else panic

pub from_u64-into_u64 : (v : AmmResetFlag) → from_u64 (into_u64 v) ≡ ok v
unfolding from_u64 into_u64
from_u64-into_u64 AmmResetFlag.reset_yes = refl
from_u64-into_u64 AmmResetFlag.reset_no = refl

pub into_u64_of_from_u64 : (n : ℕ) (v : AmmResetFlag) → from_u64 n ≡ ok v → into_u64 v ≡ n
unfolding from_u64 into_u64
into_u64_of_from_u64 n v h = ground arith
