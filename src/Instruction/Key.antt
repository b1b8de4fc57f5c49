-- ===== src/Instruction/Key.antt =====
-- `Pubkey` of the crate solana_program, as program/src/instruction.rs uses it: an array of 32 bytes.
use solana_dex_amm.Bytes.{from_le_bytes}
use solana_dex_amm.Prelude.{Bool, List, length, refl, ℕ, ◌==◌, ◌≡◌}

-- The operations on keys, with what the crate documents of them. `IsKey` says that a value is a key.
pub record Keys (P : Type 0) : Type 1 where
  pub IsKey : P → Type 0
  pub new_from_array : List ℕ → P
  pub to_bytes : P → List ℕ
  pub is_default : P → Bool
  pub length-to_bytes : (k : P) → IsKey k → length (to_bytes k) ≡ 32
  pub new_from_array-to_bytes : (k : P) → IsKey k → new_from_array (to_bytes k) ≡ k

-- The keys that are lists of 32 bytes, the default one all zeros.
instance pub byte_keys : Keys (List ℕ)
byte_keys = record {
  IsKey = λ k. length k ≡ 32;
  new_from_array = λ bs. bs;
  to_bytes = λ k. k;
  is_default = λ k. from_le_bytes k == 0;
  length-to_bytes = λ k h. h;
  new_from_array-to_bytes = λ k h. refl;
}
