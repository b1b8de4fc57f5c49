-- ===== src/Instruction/Read.antt =====
-- program/src/instruction.rs: `unpack_u8`, `unpack_u16` and `unpack_u64`, which read a number from the
-- front of a byte string.
use solana_dex_amm.Result.{Result, err, invalid_instruction_data, ok}
use solana_dex_amm.Bytes.{
  drop-append, from_le_bytes, from_le_bytes-to_le_bytes, length-to_le_bytes, take-append,
  to_le_bytes,
}
use solana_dex_amm.Prelude.{
  List, arith, drop, if◌then◌else◌, leb, length, length-append, le→leb, take, true, ℕ, ◌++◌, ◌<◌,
  ◌^◌, ◌∷◌, ◌≡◌,
}

-- the number in the first `k` bytes, and the bytes behind them
unfoldable pub unpack_le : ℕ → List ℕ → Result (ℕ × List ℕ)
unpack_le k input =
    if leb k (length input)
    then ok (from_le_bytes (take k input), drop k input)
    else err invalid_instruction_data

unfoldable pub unpack_u8 : List ℕ → Result (ℕ × List ℕ)
unfolding unpack_le
unpack_u8 input = unpack_le 1 input

unfoldable pub unpack_u16 : List ℕ → Result (ℕ × List ℕ)
unfolding unpack_le
unpack_u16 input = unpack_le 2 input

unfoldable pub unpack_u64 : List ℕ → Result (ℕ × List ℕ)
unfolding unpack_le
unpack_u64 input = unpack_le 8 input

unpack_le-to_le_bytes :
    (k n : ℕ) (rest : List ℕ) → n < 256 ^ k → unpack_le k (to_le_bytes k n ++ rest) ≡ ok (n, rest)
unfolding unpack_le
unpack_le-to_le_bytes k n rest small =
    let len = length-to_le_bytes k n in
    let all_there : leb k (length (to_le_bytes k n ++ rest)) ≡ true =
      le→leb k (length (to_le_bytes k n ++ rest))
        (omega (arith, len, length-append (to_le_bytes k n) rest)) in
    rw (
      all_there,
      take-append (to_le_bytes k n) rest k len,
      drop-append (to_le_bytes k n) rest k len,
      from_le_bytes-to_le_bytes k n small,
    )

pub unpack_u64-to_le_bytes :
    (n : ℕ) (rest : List ℕ) → n < 2 ^ 64 → unpack_u64 (to_le_bytes 8 n ++ rest) ≡ ok (n, rest)
unfolding unpack_u64
unpack_u64-to_le_bytes n rest small = unpack_le-to_le_bytes 8 n rest (omega arith)

pub unpack_u16-to_le_bytes :
    (n : ℕ) (rest : List ℕ) → n < 2 ^ 16 → unpack_u16 (to_le_bytes 2 n ++ rest) ≡ ok (n, rest)
unfolding unpack_u16
unpack_u16-to_le_bytes n rest small = unpack_le-to_le_bytes 2 n rest (omega arith)

pub unpack_u8-cons : (n : ℕ) (rest : List ℕ) → unpack_u8 (n ∷ rest) ≡ ok (n, rest)
unfolding unpack_u8 from_le_bytes
unpack_u8-cons n rest = ground arith
