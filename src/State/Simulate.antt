-- ===== src/State/Simulate.antt =====
-- program/src/state.rs: `SimulateParams` and its numbers. An unknown number is a panic (`unreachable!`).
use solana_dex_amm.Result.{Result, ok, panic}
use solana_dex_amm.Prelude.{arith, if◌then◌else◌, refl, ℕ, ◌==◌, ◌≡◌}

pub data SimulateParams : Type 0 where
  pool_info swap_base_in_info swap_base_out_info run_crank_info : SimulateParams

unfoldable pub into_u64 : SimulateParams → ℕ
into_u64 SimulateParams.pool_info = 0
into_u64 SimulateParams.swap_base_in_info = 1
into_u64 SimulateParams.swap_base_out_info = 2
into_u64 SimulateParams.run_crank_info = 3

unfoldable pub from_u64 : ℕ → Result SimulateParams
from_u64 n =
    if n == 0
    then ok SimulateParams.pool_info
    else if n == 1
    then ok SimulateParams.swap_base_in_info
    else if n == 2
    then ok SimulateParams.swap_base_out_info
    else if n == 3
    then ok SimulateParams.run_crank_info
    else panic

pub from_u64-into_u64 : (v : SimulateParams) → from_u64 (into_u64 v) ≡ ok v
unfolding from_u64 into_u64
from_u64-into_u64 SimulateParams.pool_info = refl
from_u64-into_u64 SimulateParams.swap_base_in_info = refl
from_u64-into_u64 SimulateParams.swap_base_out_info = refl
from_u64-into_u64 SimulateParams.run_crank_info = refl

pub into_u64_of_from_u64 : (n : ℕ) (v : SimulateParams) → from_u64 n ≡ ok v → into_u64 v ≡ n
unfolding from_u64 into_u64
into_u64_of_from_u64 n v h = ground arith
