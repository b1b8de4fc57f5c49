-- ===== src/Tests/State.antt =====
-- Runs of program/src/state.rs.
use solana_dex_amm.State.Fees as Fee
use solana_dex_amm.State.Fees.Laws as FeeLaws
use solana_dex_amm.Result.{already_in_use, custom, err, invalid_fee, ok, ◌>>=◌}
use solana_dex_amm.Tests.Data.{pool, targets}
use solana_dex_amm.State.Target.{check_init, check_init_once}
use solana_dex_amm.State.Amm.{incr_client_order_id}
use solana_dex_amm.State.Fees.{pack_into_slice, unpack_from_slice}
use solana_dex_amm.State.Amm.Laws.{incr_client_order_id_bounds}
use solana_dex_amm.State.Fees.Laws.{
  IsWords, uneven, unpack_from_slice-pack_into_slice, validate_iff,
}
use solana_dex_amm.Prelude.{arith, replicate, ◌<◌, ◌^◌, ◌↔◌, ◌≡◌, ◌≢◌, ◌⊎◌}

validate_iff_example :
    ((Fee.validate Fee.initialize ≡ ok tt) ↔ FeeLaws.IsValid Fee.initialize)
    × ((Fee.validate Fee.initialize ≡ ok tt)
        ⊎ (Fee.validate Fee.initialize ≡ err (custom invalid_fee)))
    × (Fee.validate uneven ≡ ok tt)
    × (uneven.trade_fee_denominator ≢ uneven.min_separate_denominator)
validate_iff_example = validate_iff Fee.initialize

initial-IsWords : IsWords Fee.initialize
unfolding Fee.initialize
initial-IsWords = omega arith

unpack_from_slice-pack_into_slice_example :
    (pack_into_slice Fee.initialize (replicate 64 0) >>= unpack_from_slice) ≡ ok Fee.initialize
unpack_from_slice-pack_into_slice_example =
    unpack_from_slice-pack_into_slice Fee.initialize (replicate 64 0) initial-IsWords

incr_client_order_id_bounds_example :
    let (next, id) = incr_client_order_id pool in
    (0 < id) × (id < 2 ^ 64) × (next.client_order_id ≡ id) × (id ≢ 41)
incr_client_order_id_bounds_example = incr_client_order_id_bounds pool (omega arith)

check_init_once_example :
    (check_init 0 (record targets { owner = 0 }) 1 2 6 >>= λ t'. check_init 0 t' 3 4 8)
    ≡ err (custom already_in_use)
check_init_once_example =
    check_init_once 0 (record targets { owner = 0 }) 1 2 6 3 4 8 (λ e. absurd (omega (arith, e)))
