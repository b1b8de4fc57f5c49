-- ===== src/Tests/Instruction.antt =====
-- Runs of program/src/instruction.rs.
use solana_dex_amm.Result.{ok, panic, ◌>>=◌}
use solana_dex_amm.Instruction.{AmmInstruction, update_config_account}
use solana_dex_amm.Instruction.Packable.{pool_fee}
use solana_dex_amm.Instruction.Key.{byte_keys}
use solana_dex_amm.Instruction.Pack.{pack}
use solana_dex_amm.Instruction.Panics.{unpack-config_panic, unpack-no_panic}
use solana_dex_amm.Instruction.Unpack.{unpack}
use solana_dex_amm.Instruction.Roundtrip.{unpack-pack}
use solana_dex_amm.Prelude.{List, [], arith, none, refl, some, ℕ, ◌<◌, ◌↔◌, ◌∷◌, ◌≡◌, ◌≢◌, ◌≤◌}

abbrev fee_change : AmmInstruction (List ℕ)
fee_change =
    update_config_account (record { param = 2; owner = none; create_pool_fee = some 400000000 })

unpack-pack_example :
    (pack ⦃keys = byte_keys⦄ fee_change >>= unpack ⦃keys = byte_keys⦄) ≡ ok fee_change
unpack-pack_example =
    unpack-pack ⦃keys = byte_keys⦄ fee_change (pool_fee 400000000, refl, omega arith)

unpack-no_panic_example : unpack ⦃keys = byte_keys⦄ (9 ∷ 1 ∷ 2 ∷ []) ≢ panic
unpack-no_panic_example =
    unpack-no_panic ⦃keys = byte_keys⦄ 9 (1 ∷ 2 ∷ []) (λ e. absurd (omega (arith, e)))
      (λ e. absurd (omega (arith, e))) (λ e. absurd (omega (arith, e)))

unpack-config_panic_example :
    (unpack ⦃keys = byte_keys⦄ (15 ∷ 0 ∷ 1 ∷ 2 ∷ []) ≡ panic) ↔ ((0 ≤ 1) × (2 < 32))
unpack-config_panic_example = unpack-config_panic ⦃keys = byte_keys⦄ 0 (1 ∷ 2 ∷ [])
