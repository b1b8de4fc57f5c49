-- ===== src/Instruction/Panics.antt =====
-- On which inputs `unpack` aborts instead of returning an error.
use solana_dex_amm.Result.{panic}
use solana_dex_amm.Bytes.{from_le_bytes}
use solana_dex_amm.Instruction.Key.{Keys}
use solana_dex_amm.Instruction.Arguments.{
  unpack_base_in, unpack_base_out, unpack_config_fee, unpack_config_owner,
}
use solana_dex_amm.Instruction.Read.{unpack_u16, unpack_u64, unpack_u8}
use solana_dex_amm.Instruction.Unpack.{
  unpack, unpack_deposit, unpack_initialize, unpack_initialize2, unpack_monitor_step, unpack_tag,
  unpack_update_config,
}
use solana_dex_amm.Prelude.{List, arith, length, ℕ, ◌<◌, ◌↔◌, ◌∷◌, ◌≡◌, ◌≢◌, ◌≤◌}

module _ {P : Type 0} ⦃keys : Keys P⦄ where
  -- The tags whose arguments depend on a parameter, 6, 12 and 15, are the only ones on which `unpack` can
  -- abort.
  pub unpack-no_panic :
      (tag : ℕ) (rest : List ℕ)
      → tag ≢ 6
      → tag ≢ 12
      → tag ≢ 15
      → unpack {P = P} (tag ∷ rest) ≢ panic
  unfolding unpack unpack_tag unpack_initialize unpack_initialize2 unpack_monitor_step
      unpack_deposit unpack_u8 unpack_u16 unpack_u64 unpack_base_in unpack_base_out
  unpack-no_panic tag rest h6 h12 h15 = ground arith

  -- `UpdateConfigAccount` with a parameter of an owner aborts exactly if fewer than 32 bytes follow.
  pub unpack-config_panic :
      (param : ℕ) (rest : List ℕ)
      → (unpack {P = P} (15 ∷ param ∷ rest) ≡ panic) ↔ ((param ≤ 1) × (length rest < 32))
  unfolding unpack unpack_tag unpack_update_config unpack_config_owner unpack_config_fee unpack_u8
      unpack_u64 from_le_bytes
  unpack-config_panic param rest = ground arith
