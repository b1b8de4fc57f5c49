-- ===== src/State/Machine.antt =====
-- program/src/state.rs: `AmmState` and its numbers. An unknown number is a panic (`unreachable!`).
use solana_dex_amm.Result.{Result, ok, panic}
use solana_dex_amm.Prelude.{Bool, arith, if◌then◌else◌, refl, ℕ, ◌==◌, ◌||◌, ◌≡◌}

pub data AmmState : Type 0 where
  invlid_state idle_state cancel_all_orders_state plan_orders_state : AmmState
  cancel_order_state place_orders_state purge_order_state : AmmState

unfoldable pub into_u64 : AmmState → ℕ
into_u64 AmmState.invlid_state = 0
into_u64 AmmState.idle_state = 1
into_u64 AmmState.cancel_all_orders_state = 2
into_u64 AmmState.plan_orders_state = 3
into_u64 AmmState.cancel_order_state = 4
into_u64 AmmState.place_orders_state = 5
into_u64 AmmState.purge_order_state = 6

unfoldable pub from_u64 : ℕ → Result AmmState
from_u64 n =
    if n == 0
    then ok AmmState.invlid_state
    else if n == 1
    then ok AmmState.idle_state
    else if n == 2
    then ok AmmState.cancel_all_orders_state
    else if n == 3
    then ok AmmState.plan_orders_state
    else if n == 4
    then ok AmmState.cancel_order_state
    else if n == 5
    then ok AmmState.place_orders_state
    else if n == 6
    then ok AmmState.purge_order_state
    else panic

unfoldable pub valid_state : ℕ → Bool
valid_state n = n == 0 || n == 1 || n == 2 || n == 3 || n == 4 || n == 5 || n == 6

pub from_u64-into_u64 : (v : AmmState) → from_u64 (into_u64 v) ≡ ok v
unfolding from_u64 into_u64
from_u64-into_u64 AmmState.invlid_state = refl
from_u64-into_u64 AmmState.idle_state = refl
from_u64-into_u64 AmmState.cancel_all_orders_state = refl
from_u64-into_u64 AmmState.plan_orders_state = refl
from_u64-into_u64 AmmState.cancel_order_state = refl
from_u64-into_u64 AmmState.place_orders_state = refl
from_u64-into_u64 AmmState.purge_order_state = refl

pub into_u64_of_from_u64 : (n : ℕ) (v : AmmState) → from_u64 n ≡ ok v → into_u64 v ≡ n
unfolding from_u64 into_u64
into_u64_of_from_u64 n v h = ground arith
