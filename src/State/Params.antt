-- ===== src/State/Params.antt =====
-- program/src/state.rs: `AmmParams` and its numbers. An unknown number is a panic (`unreachable!`).
use solana_dex_amm.Result.{Result, ok, panic}
use solana_dex_amm.Prelude.{arith, if◌then◌else◌, refl, ℕ, ◌==◌, ◌≡◌}

pub data AmmParams : Type 0 where
  status state order_num depth amount_wave min_price_multiplier : AmmParams
  max_price_multiplier min_size vol_max_cut_ratio fees amm_owner set_open_time : AmmParams
  last_order_distance init_order_depth set_switch_time clear_open_time seperate : AmmParams
  update_open_order : AmmParams

unfoldable pub into_u64 : AmmParams → ℕ
into_u64 AmmParams.status = 0
into_u64 AmmParams.state = 1
into_u64 AmmParams.order_num = 2
into_u64 AmmParams.depth = 3
into_u64 AmmParams.amount_wave = 4
into_u64 AmmParams.min_price_multiplier = 5
into_u64 AmmParams.max_price_multiplier = 6
into_u64 AmmParams.min_size = 7
into_u64 AmmParams.vol_max_cut_ratio = 8
into_u64 AmmParams.fees = 9
into_u64 AmmParams.amm_owner = 10
into_u64 AmmParams.set_open_time = 11
into_u64 AmmParams.last_order_distance = 12
into_u64 AmmParams.init_order_depth = 13
into_u64 AmmParams.set_switch_time = 14
into_u64 AmmParams.clear_open_time = 15
into_u64 AmmParams.seperate = 16
into_u64 AmmParams.update_open_order = 17

unfoldable pub from_u64 : ℕ → Result AmmParams
from_u64 n =
    if n == 0
    then ok AmmParams.status
    else if n == 1
    then ok AmmParams.state
    else if n == 2
    then ok AmmParams.order_num
    else if n == 3
    then ok AmmParams.depth
    else if n == 4
    then ok AmmParams.amount_wave
    else if n == 5
    then ok AmmParams.min_price_multiplier
    else if n == 6
    then ok AmmParams.max_price_multiplier
    else if n == 7
    then ok AmmParams.min_size
    else if n == 8
    then ok AmmParams.vol_max_cut_ratio
    else if n == 9
    then ok AmmParams.fees
    else if n == 10
    then ok AmmParams.amm_owner
    else if n == 11
    then ok AmmParams.set_open_time
    else if n == 12
    then ok AmmParams.last_order_distance
    else if n == 13
    then ok AmmParams.init_order_depth
    else if n == 14
    then ok AmmParams.set_switch_time
    else if n == 15
    then ok AmmParams.clear_open_time
    else if n == 16
    then ok AmmParams.seperate
    else if n == 17
    then ok AmmParams.update_open_order
    else panic

pub from_u64-into_u64 : (v : AmmParams) → from_u64 (into_u64 v) ≡ ok v
unfolding from_u64 into_u64
from_u64-into_u64 AmmParams.status = refl
from_u64-into_u64 AmmParams.state = refl
from_u64-into_u64 AmmParams.order_num = refl
from_u64-into_u64 AmmParams.depth = refl
from_u64-into_u64 AmmParams.amount_wave = refl
from_u64-into_u64 AmmParams.min_price_multiplier = refl
from_u64-into_u64 AmmParams.max_price_multiplier = refl
from_u64-into_u64 AmmParams.min_size = refl
from_u64-into_u64 AmmParams.vol_max_cut_ratio = refl
from_u64-into_u64 AmmParams.fees = refl
from_u64-into_u64 AmmParams.amm_owner = refl
from_u64-into_u64 AmmParams.set_open_time = refl
from_u64-into_u64 AmmParams.last_order_distance = refl
from_u64-into_u64 AmmParams.init_order_depth = refl
from_u64-into_u64 AmmParams.set_switch_time = refl
from_u64-into_u64 AmmParams.clear_open_time = refl
from_u64-into_u64 AmmParams.seperate = refl
from_u64-into_u64 AmmParams.update_open_order = refl

pub into_u64_of_from_u64 : (n : ℕ) (v : AmmParams) → from_u64 n ≡ ok v → into_u64 v ≡ n
unfolding from_u64 into_u64
into_u64_of_from_u64 n v h = ground arith
