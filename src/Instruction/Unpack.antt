-- ===== src/Instruction/Unpack.antt =====
-- program/src/instruction.rs: `AmmInstruction::unpack`, one function for each tag that carries data.
use solana_dex_amm.State.Params as Params
use solana_dex_amm.State.Simulate as Simulate
use solana_dex_amm.Result.{Result, err, invalid_instruction_data, ok, ◌>>=◌}
use solana_dex_amm.Instruction.{
  AmmInstruction, admin_cancel_orders, create_config_account, deposit, initialize2, initialize_pool,
  migrate_to_open_book, monitor_step, owner_withdraw, pre_initialize, set_params, simulate_info,
  swap_base_in, swap_base_out, update_config_account, withdraw, withdraw_pnl, withdraw_srm,
}
use solana_dex_amm.Instruction.Key.{Keys}
use solana_dex_amm.Instruction.Arguments.{
  unpack_base_in, unpack_base_out, unpack_config_fee, unpack_config_owner, unpack_setting,
  unpack_simulation,
}
use solana_dex_amm.Instruction.Read.{unpack_u16, unpack_u64, unpack_u8}
use solana_dex_amm.Prelude.{List, [], if◌then◌else◌, ℕ, ◌==◌, ◌||◌, ◌∷◌}

module _ {P : Type 0} where
  unfoldable pub unpack_initialize : List ℕ → Result (AmmInstruction P)
  unpack_initialize rest = do
    (nonce, rest1) ← unpack_u8 rest
    (open_time, _) ← unpack_u64 rest1
    ok (initialize_pool (record { nonce = nonce; open_time = open_time }))

  unfoldable pub unpack_initialize2 : List ℕ → Result (AmmInstruction P)
  unpack_initialize2 rest = do
    (nonce, rest1) ← unpack_u8 rest
    (open_time, rest2) ← unpack_u64 rest1
    (init_pc_amount, rest3) ← unpack_u64 rest2
    (init_coin_amount, _) ← unpack_u64 rest3
    ok (
        initialize2 (record {
          nonce = nonce;
          open_time = open_time;
          init_pc_amount = init_pc_amount;
          init_coin_amount = init_coin_amount;
        }))

  unfoldable pub unpack_monitor_step : List ℕ → Result (AmmInstruction P)
  unpack_monitor_step rest = do
    (plan_order_limit, rest1) ← unpack_u16 rest
    (place_order_limit, rest2) ← unpack_u16 rest1
    (cancel_order_limit, _) ← unpack_u16 rest2
    ok (
        monitor_step (record {
          plan_order_limit = plan_order_limit;
          place_order_limit = place_order_limit;
          cancel_order_limit = cancel_order_limit;
        }))

  unfoldable pub unpack_deposit : List ℕ → Result (AmmInstruction P)
  unpack_deposit rest = do
    (max_coin_amount, rest1) ← unpack_u64 rest
    (max_pc_amount, rest2) ← unpack_u64 rest1
    (base_side, _) ← unpack_u64 rest2
    ok (
        deposit (record {
          max_coin_amount = max_coin_amount;
          max_pc_amount = max_pc_amount;
          base_side = base_side;
        }))

module _ {P : Type 0} ⦃keys : Keys P⦄ where
  unfoldable pub unpack_set_params : List ℕ → Result (AmmInstruction P)
  unfolding unpack_setting
  unpack_set_params rest = do
    (param, rest1) ← unpack_u8 rest
    which ← Params.from_u64 param
    arguments ← unpack_setting which param rest1
    ok (set_params arguments)

  unfoldable pub unpack_simulate : List ℕ → Result (AmmInstruction P)
  unpack_simulate rest = do
    (param, rest1) ← unpack_u8 rest
    which ← Simulate.from_u64 param
    arguments ← unpack_simulation which param rest1
    ok (simulate_info arguments)

  unfoldable pub unpack_update_config : List ℕ → Result (AmmInstruction P)
  unpack_update_config rest = do
    (param, rest1) ← unpack_u8 rest
    arguments ←
        (if param == 0 || param == 1
          then unpack_config_owner param rest1
          else if param == 2
          then unpack_config_fee param rest1
          else err invalid_instruction_data)
    ok (update_config_account arguments)

  -- the match on the tag
  unfoldable pub unpack_tag : ℕ → List ℕ → Result (AmmInstruction P)
  unpack_tag tag rest =
      if tag == 0
      then unpack_initialize rest
      else if tag == 1
      then unpack_initialize2 rest
      else if tag == 2
      then unpack_monitor_step rest
      else if tag == 3
      then unpack_deposit rest
      else if tag == 4
      then unpack_u64 rest >>= (λ (amount, _). ok (withdraw (record { amount = amount })))
      else if tag == 5
      then ok migrate_to_open_book
      else if tag == 6
      then unpack_set_params rest
      else if tag == 7
      then ok withdraw_pnl
      else if tag == 8
      then unpack_u64 rest >>= (λ (amount, _). ok (withdraw_srm (record { amount = amount })))
      else if tag == 9
      then unpack_base_in rest >>= (λ swap. ok (swap_base_in swap))
      else if tag == 10
      then unpack_u8 rest >>= (λ (nonce, _). ok (pre_initialize (record { nonce = nonce })))
      else if tag == 11
      then unpack_base_out rest >>= (λ swap. ok (swap_base_out swap))
      else if tag == 12
      then unpack_simulate rest
      else if tag == 13
      then unpack_u16 rest >>= (λ (limit, _). ok (admin_cancel_orders (record { limit = limit })))
      else if tag == 14
      then ok create_config_account
      else if tag == 15
      then unpack_update_config rest
      else if tag == 16
      then ok owner_withdraw
      else err invalid_instruction_data

  unfoldable pub unpack : List ℕ → Result (AmmInstruction P)
  unfolding unpack_tag
  unpack [] = err invalid_instruction_data
  unpack (tag ∷ rest) = unpack_tag tag rest
