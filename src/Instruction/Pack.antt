-- ===== src/Instruction/Pack.antt =====
-- program/src/instruction.rs: `AmmInstruction::pack`. A missing argument is an error.
use solana_dex_amm.State.Params as Params
use solana_dex_amm.State.Simulate as Simulate
use solana_dex_amm.State.Fees as Fees
use solana_dex_amm.Result.{Result, err, invalid_instruction_data, ok, ◌>>=◌}
use solana_dex_amm.Bytes.{to_le_bytes}
use solana_dex_amm.Instruction.{
  AmmInstruction, ConfigArgs, SetParamsInstruction, SimulateInstruction, SwapInstructionBaseIn,
  SwapInstructionBaseOut, admin_cancel_orders, create_config_account, deposit, initialize2,
  initialize_pool, migrate_to_open_book, monitor_step, owner_withdraw, pre_initialize, set_params,
  simulate_info, swap_base_in, swap_base_out, update_config_account, withdraw, withdraw_pnl,
  withdraw_srm,
}
use solana_dex_amm.State.Simulate.{SimulateParams}
use solana_dex_amm.State.Params.{AmmParams}
use solana_dex_amm.State.Fees.{Fees}
use solana_dex_amm.Instruction.Key.{Keys}
use solana_dex_amm.Prelude.{
  List, Option, [], if◌then◌else◌, none, replicate, some, ℕ, ◌++◌, ◌==◌, ◌||◌, ◌∷◌,
}

-- `match option { Some(a) => a, None => return Err(InvalidInstructionData) }`
abbrev pub some_or_invalid : {A : Type 0} → Option A → Result A
some_or_invalid none = err invalid_instruction_data
some_or_invalid (some a) = ok a

unfoldable pub pack_base_in : SwapInstructionBaseIn → List ℕ
pack_base_in swap = to_le_bytes 8 swap.amount_in ++ to_le_bytes 8 swap.minimum_amount_out

unfoldable pub pack_base_out : SwapInstructionBaseOut → List ℕ
pack_base_out swap = to_le_bytes 8 swap.max_amount_in ++ to_le_bytes 8 swap.amount_out

unfoldable pub pack_simulation : SimulateParams → SimulateInstruction → Result (List ℕ)
unfolding pack_base_in pack_base_out
pack_simulation SimulateParams.pool_info s = ok []
pack_simulation SimulateParams.run_crank_info s = ok []
pack_simulation SimulateParams.swap_base_in_info s = do
  swap ← some_or_invalid s.swap_base_in_value
  ok (pack_base_in swap)
pack_simulation SimulateParams.swap_base_out_info s = do
  swap ← some_or_invalid s.swap_base_out_value
  ok (pack_base_out swap)

module _ {P : Type 0} ⦃keys : Keys P⦄ where
  unfoldable pub pack_setting : AmmParams → SetParamsInstruction P → Result (List ℕ)
  pack_setting AmmParams.amm_owner s = do
    new_pubkey ← some_or_invalid s.new_pubkey
    ok (keys.to_bytes new_pubkey)
  pack_setting AmmParams.fees s = do
    fees ← some_or_invalid s.fees
    Fees.pack_into_slice fees (replicate Fees.len 0)
  pack_setting AmmParams.last_order_distance s = do
    distance ← some_or_invalid s.last_order_distance
    ok (
        to_le_bytes 8 distance.last_order_numerator
        ++ to_le_bytes 8 distance.last_order_denominator)
  pack_setting _ s = do value ← some_or_invalid s.value; ok (to_le_bytes 8 value)

  unfoldable pub pack_config_owner : ConfigArgs P → Result (List ℕ)
  pack_config_owner args = do
    owner ← some_or_invalid args.owner
    if keys.is_default owner then err invalid_instruction_data else ok (keys.to_bytes owner)

  unfoldable pub pack_config_fee : ConfigArgs P → Result (List ℕ)
  pack_config_fee args = do
    create_pool_fee ← some_or_invalid args.create_pool_fee
    ok (to_le_bytes 8 create_pool_fee)

  unfoldable pub pack_config : ConfigArgs P → Result (List ℕ)
  unfolding pack_config_owner pack_config_fee
  pack_config args =
      if args.param == 0 || args.param == 1
      then pack_config_owner args
      else if args.param == 2
      then pack_config_fee args
      else err invalid_instruction_data

  unfoldable pub pack : AmmInstruction P → Result (List ℕ)
  pack (initialize_pool i) = ok (0 ∷ i.nonce ∷ to_le_bytes 8 i.open_time)
  pack (initialize2 i) = ok (
      1
      ∷ i.nonce
      ∷ (to_le_bytes 8 i.open_time
          ++ (to_le_bytes 8 i.init_pc_amount ++ to_le_bytes 8 i.init_coin_amount)))
  pack (monitor_step i) = ok (
      2
      ∷ (to_le_bytes 2 i.plan_order_limit
          ++ (to_le_bytes 2 i.place_order_limit ++ to_le_bytes 2 i.cancel_order_limit)))
  pack (deposit i) = ok (
      3
      ∷ (to_le_bytes 8 i.max_coin_amount
          ++ (to_le_bytes 8 i.max_pc_amount ++ to_le_bytes 8 i.base_side)))
  pack (withdraw i) = ok (4 ∷ to_le_bytes 8 i.amount)
  pack migrate_to_open_book = ok (5 ∷ [])
  pack (set_params s) = do
    which ← Params.from_u64 s.param
    arguments ← pack_setting which s
    ok (6 ∷ s.param ∷ arguments)
  pack withdraw_pnl = ok (7 ∷ [])
  pack owner_withdraw = ok (16 ∷ [])
  pack (withdraw_srm i) = ok (8 ∷ to_le_bytes 8 i.amount)
  pack (swap_base_in swap) = ok (9 ∷ pack_base_in swap)
  pack (pre_initialize i) = ok (10 ∷ i.nonce ∷ [])
  pack (swap_base_out swap) = ok (11 ∷ pack_base_out swap)
  pack (simulate_info s) = do
    which ← Simulate.from_u64 s.param
    arguments ← pack_simulation which s
    ok (12 ∷ s.param ∷ arguments)
  pack (admin_cancel_orders i) = ok (13 ∷ to_le_bytes 2 i.limit)
  pack create_config_account = ok (14 ∷ [])
  pack (update_config_account args) = do
    arguments ← pack_config args
    ok (15 ∷ args.param ∷ arguments)
