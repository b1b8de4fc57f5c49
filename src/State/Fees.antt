-- ===== src/State/Fees.antt =====
-- program/src/state.rs: `Fees`, its validation, its initial values and its 64 packed bytes.
pub mod Laws
use solana_dex_amm.Result.{Result, custom, err, invalid_fee, ok, panic, ◌>>=◌, ◌>>◌}
use solana_dex_amm.Bytes.{from_le_bytes, to_le_bytes}
use solana_dex_amm.Prelude.{List, drop, if◌then◌else◌, leb, length, take, ℕ, ◌++◌, ◌==◌, ◌||◌}

abbrev pub ten_thousand : ℕ
ten_thousand = 10000

pub record Fees : Type 0 where
  pub min_separate_numerator : ℕ
  pub min_separate_denominator : ℕ
  pub trade_fee_numerator : ℕ
  pub trade_fee_denominator : ℕ
  pub pnl_numerator : ℕ
  pub pnl_denominator : ℕ
  pub swap_fee_numerator : ℕ
  pub swap_fee_denominator : ℕ

unfoldable pub validate_fraction : ℕ → ℕ → Result (Unit {0})
validate_fraction numerator denominator =
    if leb denominator numerator || denominator == 0 then err (custom invalid_fee) else ok tt

unfoldable pub validate : Fees → Result (Unit {0})
unfolding validate_fraction
validate self = do
  validate_fraction self.min_separate_numerator self.min_separate_denominator
  validate_fraction self.trade_fee_numerator self.trade_fee_denominator
  validate_fraction self.pnl_numerator self.pnl_denominator
  validate_fraction self.swap_fee_numerator self.swap_fee_denominator

-- It writes every field, so the old value does not matter.
unfoldable pub initialize : Fees
initialize = record {
  min_separate_numerator = 5;
  min_separate_denominator = ten_thousand;
  trade_fee_numerator = 25;
  trade_fee_denominator = ten_thousand;
  pnl_numerator = 12;
  pnl_denominator = 100;
  swap_fee_numerator = 25;
  swap_fee_denominator = ten_thousand;
}

-- `Fees::LEN`
abbrev pub len : ℕ
len = 64

unfoldable pub packed : Fees → List ℕ
packed self =
    to_le_bytes 8 self.min_separate_numerator
    ++ (to_le_bytes 8 self.min_separate_denominator
        ++ (to_le_bytes 8 self.trade_fee_numerator
            ++ (to_le_bytes 8 self.trade_fee_denominator
                ++ (to_le_bytes 8 self.pnl_numerator
                    ++ (to_le_bytes 8 self.pnl_denominator
                        ++ (to_le_bytes 8 self.swap_fee_numerator
                            ++ to_le_bytes 8 self.swap_fee_denominator))))))

-- `array_mut_ref!` panics on an output that is too short, and the bytes behind stay.
unfoldable pub pack_into_slice : Fees → List ℕ → Result (List ℕ)
unfolding packed
pack_into_slice self output =
    if leb len (length output) then ok (packed self ++ drop len output) else panic

-- the number in the eight bytes from a position
word_at : ℕ → List ℕ → ℕ
word_at i bs = from_le_bytes (take 8 (drop i bs))

unfoldable pub unpack_from_slice : List ℕ → Result Fees
unfolding word_at
unpack_from_slice bs =
    if leb len (length bs)
    then ok (record {
      min_separate_numerator = word_at 0 bs;
      min_separate_denominator = word_at 8 bs;
      trade_fee_numerator = word_at 16 bs;
      trade_fee_denominator = word_at 24 bs;
      pnl_numerator = word_at 32 bs;
      pnl_denominator = word_at 40 bs;
      swap_fee_numerator = word_at 48 bs;
      swap_fee_denominator = word_at 56 bs;
    })
    else panic
