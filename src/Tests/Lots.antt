-- ===== src/Tests/Lots.antt =====
-- Runs of the lots and the distances of program/src/math.rs.
use solana_dex_amm.Result.{ok}
use solana_dex_amm.Math.Lots.{fibonacci}
use solana_dex_amm.Math.Lots.Laws.{fib_list, fibonacci-eq}
use solana_dex_amm.Prelude.{arith, ◌≡◌}

fibonacci-eq_example : fibonacci 7 ≡ ok (fib_list 7)
fibonacci-eq_example = fibonacci-eq 7 (omega arith)
