-- ===== src/Instruction/Roundtrip.antt =====
-- What `pack` writes, `unpack` reads back.
mod Setting
use solana_dex_amm.State.Simulate as Simulate
use solana_dex_amm.Result.{ok, ◌>>=◌}
use solana_dex_amm.Bytes.{to_le_bytes}
use solana_dex_amm.Instruction.{
  AmmInstruction, DepositInstruction, InitializeInstruction, InitializeInstruction2,
  MonitorStepInstruction, SwapInstructionBaseIn, SwapInstructionBaseOut, admin_cancel_orders,
  create_config_account, deposit, initialize2, initialize_pool, migrate_to_open_book, monitor_step,
  owner_withdraw, pre_initialize, set_params, simulate_info, swap_base_in, swap_base_out,
  update_config_account, withdraw, withdraw_pnl, withdraw_srm,
}
use solana_dex_amm.Instruction.Packable.{
  ConfigChange, IsBaseIn, IsBaseOut, IsConfigChange, IsPackable, IsSimulation, Simulation,
  cancel_owner, config_arguments, of_base_in, of_base_out, of_crank, of_pool, pnl_owner, pool_fee,
  simulation_arguments,
}
use solana_dex_amm.Instruction.Key.{Keys}
use solana_dex_amm.Instruction.Arguments.{
  unpack_base_in, unpack_base_out, unpack_config_fee, unpack_config_owner, unpack_simulation,
}
use solana_dex_amm.Instruction.Pack.{
  pack, pack_base_in, pack_base_out, pack_config, pack_config_fee, pack_config_owner,
  pack_simulation,
}
use solana_dex_amm.Instruction.Read.{
  unpack_u16, unpack_u16-to_le_bytes, unpack_u64-to_le_bytes, unpack_u8-cons,
}
use solana_dex_amm.Instruction.Unpack.{
  unpack, unpack_deposit, unpack_initialize, unpack_initialize2, unpack_monitor_step,
  unpack_simulate, unpack_tag, unpack_update_config,
}
use solana_dex_amm.Instruction.Roundtrip.Setting.{
  IsReread, last_u64, leb-to_bytes, setting-round, take-to_bytes,
}
use solana_dex_amm.Prelude.{[], append-nil, refl, subst, ℕ, ◌<◌, ◌^◌, ◌≡◌}

last_u16 : (n : ℕ) → n < 2 ^ 16 → unpack_u16 (to_le_bytes 2 n) ≡ ok (n, [])
last_u16 n h = rw (← append-nil (to_le_bytes 2 n)) (unpack_u16-to_le_bytes n [] h)

base_in : (s : SwapInstructionBaseIn) → IsBaseIn s → unpack_base_in (pack_base_in s) ≡ ok s
unfolding pack_base_in unpack_base_in
base_in s (h1, h2) = rw (
  unpack_u64-to_le_bytes s.amount_in (to_le_bytes 8 s.minimum_amount_out) h1,
  last_u64 s.minimum_amount_out h2,
)

base_out : (s : SwapInstructionBaseOut) → IsBaseOut s → unpack_base_out (pack_base_out s) ≡ ok s
unfolding pack_base_out unpack_base_out
base_out s (h1, h2) = rw (
  unpack_u64-to_le_bytes s.max_amount_in (to_le_bytes 8 s.amount_out) h1,
  last_u64 s.amount_out h2,
)

module _ {P : Type 0} ⦃keys : Keys P⦄ where
  initialize2_round :
      (i : InitializeInstruction2)
      → IsPackable {P = P} (initialize2 i)
      → IsReread {P = P} (initialize2 i)
  unfolding pack unpack unpack_tag unpack_initialize2
  initialize2_round i (h1, h2, h3, h4) = rw (
    unpack_u8-cons i.nonce _,
    unpack_u64-to_le_bytes i.open_time _ h2,
    unpack_u64-to_le_bytes i.init_pc_amount _ h3,
    last_u64 i.init_coin_amount h4,
  )

  initialize_round :
      (i : InitializeInstruction)
      → IsPackable {P = P} (initialize_pool i)
      → IsReread {P = P} (initialize_pool i)
  unfolding pack unpack unpack_tag unpack_initialize
  initialize_round i (h1, h2) = rw (unpack_u8-cons i.nonce _, last_u64 i.open_time h2)

  monitor_step_round :
      (i : MonitorStepInstruction)
      → IsPackable {P = P} (monitor_step i)
      → IsReread {P = P} (monitor_step i)
  unfolding pack unpack unpack_tag unpack_monitor_step
  monitor_step_round i (h1, h2, h3) = rw (
    unpack_u16-to_le_bytes i.plan_order_limit _ h1,
    unpack_u16-to_le_bytes i.place_order_limit _ h2,
    last_u16 i.cancel_order_limit h3,
  )

  deposit_round :
      (i : DepositInstruction) → IsPackable {P = P} (deposit i) → IsReread {P = P} (deposit i)
  unfolding pack unpack unpack_tag unpack_deposit
  deposit_round i (h1, h2, h3) = rw (
    unpack_u64-to_le_bytes i.max_coin_amount _ h1,
    unpack_u64-to_le_bytes i.max_pc_amount _ h2,
    last_u64 i.base_side h3,
  )

  simulation_round :
      (a : Simulation) → IsSimulation a → IsReread {P = P} (simulate_info (simulation_arguments a))
  unfolding pack unpack unpack_tag unpack_simulate unpack_simulation pack_simulation
      Simulate.from_u64
  simulation_round of_pool h = rw (unpack_u8-cons 0 [])
  simulation_round of_crank h = rw (unpack_u8-cons 3 [])
  simulation_round (of_base_in swap) h = rw (unpack_u8-cons 1 (pack_base_in swap), base_in swap h)
  simulation_round (of_base_out swap) h =
      rw (unpack_u8-cons 2 (pack_base_out swap), base_out swap h)

  config_round :
      (a : ConfigChange P)
      → IsConfigChange a
      → IsReread {P = P} (update_config_account (config_arguments a))
  unfolding pack unpack unpack_tag unpack_update_config pack_config pack_config_owner
      pack_config_fee unpack_config_owner unpack_config_fee
  config_round (pnl_owner k) (key, h) = rw (
    h,
    unpack_u8-cons 0 (keys.to_bytes k),
    leb-to_bytes k key,
    take-to_bytes k key,
    keys.new_from_array-to_bytes k key,
  )
  config_round (cancel_owner k) (key, h) = rw (
    h,
    unpack_u8-cons 1 (keys.to_bytes k),
    leb-to_bytes k key,
    take-to_bytes k key,
    keys.new_from_array-to_bytes k key,
  )
  config_round (pool_fee n) h = rw (unpack_u8-cons 2 (to_le_bytes 8 n), last_u64 n h)

  -- An instruction whose numbers fit their widths and whose optional arguments are exactly those that its
  -- parameter asks for is packed without an error, and unpacking the bytes gives it back.
  pub unpack-pack : (i : AmmInstruction P) → IsPackable i → (pack i >>= unpack) ≡ ok i
  unfolding pack unpack unpack_tag
  unpack-pack (initialize_pool i) h = initialize_round i h
  unpack-pack (initialize2 i) h = initialize2_round i h
  unpack-pack (monitor_step i) h = monitor_step_round i h
  unpack-pack (deposit i) h = deposit_round i h
  unpack-pack (withdraw i) h = rw (last_u64 i.amount h)
  unpack-pack migrate_to_open_book h = refl
  unpack-pack (set_params s) (a, e, h) =
      subst (λ s. IsReread {P = P} (set_params s)) e (setting-round a h)
  unpack-pack withdraw_pnl h = refl
  unpack-pack (withdraw_srm i) h = rw (last_u64 i.amount h)
  unpack-pack (swap_base_in swap) h = rw (base_in swap h)
  unpack-pack (pre_initialize i) h = rw (unpack_u8-cons i.nonce [])
  unpack-pack (swap_base_out swap) h = rw (base_out swap h)
  unpack-pack (simulate_info s) (a, e, h) =
      subst (λ s. IsReread {P = P} (simulate_info s)) e (simulation_round a h)
  unpack-pack (admin_cancel_orders i) h = rw (last_u16 i.limit h)
  unpack-pack create_config_account h = refl
  unpack-pack (update_config_account args) (a, e, h) =
      subst (λ s. IsReread {P = P} (update_config_account s)) e (config_round a h)
  unpack-pack owner_withdraw h = refl
