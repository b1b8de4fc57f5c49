-- ===== src/State/Fees/Laws.antt =====
-- Which fees are valid, and the round trip through their bytes.
use solana_dex_amm.State.Fees
use solana_dex_amm.Result.{custom, err, invalid_fee, ok, panic, ◌>>=◌}
use solana_dex_amm.Bytes.{from_le_bytes, from_le_bytes-to_le_bytes, to_le_bytes}
use solana_dex_amm.State.Fees.{Fees, pack_into_slice, packed, unpack_from_slice}
use solana_dex_amm.Prelude.{
  List, arith, drop, if◌then◌else◌, leb, length, le→leb, refl, ℕ, ◌++◌, ◌+◌, ◌<◌, ◌^◌, ◌↔◌, ◌≡◌,
  ◌≢◌, ◌⊎◌,
}

-- A fraction below one, with a denominator.
abbrev pub IsProper : ℕ → ℕ → Type 0
IsProper numerator denominator = numerator < denominator

pub record IsValid (f : Fees) : Type 0 where
  pub min_separate : IsProper f.min_separate_numerator f.min_separate_denominator
  pub trade_fee : IsProper f.trade_fee_numerator f.trade_fee_denominator
  pub pnl : IsProper f.pnl_numerator f.pnl_denominator
  pub swap_fee : IsProper f.swap_fee_numerator f.swap_fee_denominator

pub validate-IsValid : (f : Fees) → Fees.validate f ≡ ok tt → IsValid f
unfolding Fees.validate
validate-IsValid f h = ground arith

pub IsValid-validate : (f : Fees) → IsValid f → Fees.validate f ≡ ok tt
unfolding Fees.validate
IsValid-validate f v = ground arith

-- fees whose trade fee has another denominator than the least separation
abbrev pub uneven : Fees
uneven = record Fees.initialize {
  min_separate_numerator = 500;
  trade_fee_numerator = 1;
  trade_fee_denominator = 400;
}

-- `validate` accepts the fees exactly if each of the four is a fraction below one, and any other fees
-- are refused as InvalidFee. It does not ask that the trade fee and the least separation have the same
-- denominator, which the documentation of `Fees` demands: it accepts fees where they differ.
pub validate_iff :
    (f : Fees)
    → ((Fees.validate f ≡ ok tt) ↔ IsValid f)
      × ((Fees.validate f ≡ ok tt) ⊎ (Fees.validate f ≡ err (custom invalid_fee)))
      × (Fees.validate uneven ≡ ok tt)
      × (uneven.trade_fee_denominator ≢ uneven.min_separate_denominator)
unfolding Fees.validate Fees.initialize
validate_iff f =
    ((validate-IsValid f, IsValid-validate f), ground arith, refl, λ e. absurd (omega (arith, e)))

-- The initial fees are valid.
pub initialize-IsValid : IsValid Fees.initialize
unfolding Fees.initialize
initialize-IsValid = omega arith

-- Every field fits 64 bits.
pub record IsWords (f : Fees) : Type 0 where
  pub min_separate_numerator : f.min_separate_numerator < 2 ^ 64
  pub min_separate_denominator : f.min_separate_denominator < 2 ^ 64
  pub trade_fee_numerator : f.trade_fee_numerator < 2 ^ 64
  pub trade_fee_denominator : f.trade_fee_denominator < 2 ^ 64
  pub pnl_numerator : f.pnl_numerator < 2 ^ 64
  pub pnl_denominator : f.pnl_denominator < 2 ^ 64
  pub swap_fee_numerator : f.swap_fee_numerator < 2 ^ 64
  pub swap_fee_denominator : f.swap_fee_denominator < 2 ^ 64

pub length-packed : (f : Fees) (rest : List ℕ) → length (packed f ++ rest) ≡ 64 + length rest
unfolding packed to_le_bytes
length-packed f rest = omega arith

word : (n : ℕ) → n < 2 ^ 64 → from_le_bytes (to_le_bytes 8 n) ≡ n
word n h = from_le_bytes-to_le_bytes 8 n (omega arith)

-- The eight words are read back, whatever bytes follow.
pub unpack_from_slice-packed :
    (f : Fees) (rest : List ℕ) → IsWords f → unpack_from_slice (packed f ++ rest) ≡ ok f
unfolding unpack_from_slice packed to_le_bytes
unpack_from_slice-packed f rest w =
    rw (le→leb 64 (length (packed f ++ rest)) (omega (arith, length-packed f rest))) λ i.
      ok (record {
        min_separate_numerator = word f.min_separate_numerator w.min_separate_numerator i;
        min_separate_denominator = word f.min_separate_denominator w.min_separate_denominator i;
        trade_fee_numerator = word f.trade_fee_numerator w.trade_fee_numerator i;
        trade_fee_denominator = word f.trade_fee_denominator w.trade_fee_denominator i;
        pnl_numerator = word f.pnl_numerator w.pnl_numerator i;
        pnl_denominator = word f.pnl_denominator w.pnl_denominator i;
        swap_fee_numerator = word f.swap_fee_numerator w.swap_fee_numerator i;
        swap_fee_denominator = word f.swap_fee_denominator w.swap_fee_denominator i;
      })

-- Packing fees of 64-bit words into a slice of 64 bytes or more and unpacking the slice gives the
-- same fees; a shorter slice is a panic.
pub unpack_from_slice-pack_into_slice :
    (f : Fees) (output : List ℕ)
    → IsWords f
    → (pack_into_slice f output >>= unpack_from_slice)
      ≡ (if leb 64 (length output) then ok f else panic)
unfolding pack_into_slice
unpack_from_slice-pack_into_slice f output w =
    ground (arith, unpack_from_slice-packed f (drop 64 output) w)
