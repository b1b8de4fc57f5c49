-- ===== src/Instruction/Arguments.antt =====
-- program/src/instruction.rs: the parts of `AmmInstruction::unpack` whose arguments depend on a parameter.
use solana_dex_amm.State.Fees as Fees
use solana_dex_amm.Result.{Result, err, invalid_instruction_data, ok, panic, ◌>>=◌}
use solana_dex_amm.Instruction.{
  ConfigArgs, SetParamsInstruction, SimulateInstruction, SwapInstructionBaseIn,
  SwapInstructionBaseOut,
}
use solana_dex_amm.State.Simulate.{SimulateParams}
use solana_dex_amm.State.Params.{AmmParams}
use solana_dex_amm.State.Fees.{Fees}
use solana_dex_amm.Instruction.Key.{Keys}
use solana_dex_amm.Instruction.Read.{unpack_u64}
use solana_dex_amm.Prelude.{List, if◌then◌else◌, leb, length, none, some, take, ℕ}

unfoldable pub unpack_base_in : List ℕ → Result SwapInstructionBaseIn
unpack_base_in rest = do
  (amount_in, rest1) ← unpack_u64 rest
  (minimum_amount_out, _) ← unpack_u64 rest1
  ok (record { amount_in = amount_in; minimum_amount_out = minimum_amount_out })

unfoldable pub unpack_base_out : List ℕ → Result SwapInstructionBaseOut
unpack_base_out rest = do
  (max_amount_in, rest1) ← unpack_u64 rest
  (amount_out, _) ← unpack_u64 rest1
  ok (record { max_amount_in = max_amount_in; amount_out = amount_out })

unfoldable pub unpack_simulation : SimulateParams → ℕ → List ℕ → Result SimulateInstruction
unpack_simulation SimulateParams.pool_info param rest =
    ok (record { param = param; swap_base_in_value = none; swap_base_out_value = none })
unpack_simulation SimulateParams.run_crank_info param rest =
    ok (record { param = param; swap_base_in_value = none; swap_base_out_value = none })
unpack_simulation SimulateParams.swap_base_in_info param rest = do
  swap ← unpack_base_in rest
  ok (record { param = param; swap_base_in_value = some swap; swap_base_out_value = none })
unpack_simulation SimulateParams.swap_base_out_info param rest = do
  swap ← unpack_base_out rest
  ok (record { param = param; swap_base_in_value = none; swap_base_out_value = some swap })

module _ {P : Type 0} where
  -- the argument of `SetParams`, which depends on the parameter that is set
  unfoldable pub unpack_value : ℕ → List ℕ → Result (SetParamsInstruction P)
  unpack_value param rest = do
    (value, _) ← unpack_u64 rest
    ok (record {
      param = param;
      value = some value;
      new_pubkey = none;
      fees = none;
      last_order_distance = none;
    })

  unfoldable pub unpack_fees : ℕ → List ℕ → Result (SetParamsInstruction P)
  unpack_fees param rest =
      if leb Fees.len (length rest)
      then (do
        fees ← Fees.unpack_from_slice (take Fees.len rest)
        ok (record {
          param = param;
          value = none;
          new_pubkey = none;
          fees = some fees;
          last_order_distance = none;
        }))
      else err invalid_instruction_data

  unfoldable pub unpack_distance : ℕ → List ℕ → Result (SetParamsInstruction P)
  unpack_distance param rest =
      if leb 16 (length rest)
      then (do
        (last_order_numerator, rest1) ← unpack_u64 rest
        (last_order_denominator, _) ← unpack_u64 rest1
        ok (record {
          param = param;
          value = none;
          new_pubkey = none;
          fees = none;
          last_order_distance = some (record {
            last_order_numerator = last_order_numerator;
            last_order_denominator = last_order_denominator;
          });
        }))
      else err invalid_instruction_data

module _ {P : Type 0} ⦃keys : Keys P⦄ where
  unfoldable pub unpack_owner : ℕ → List ℕ → Result (SetParamsInstruction P)
  unpack_owner param rest =
      if leb 32 (length rest)
      then ok (record {
        param = param;
        value = none;
        new_pubkey = some (keys.new_from_array (take 32 rest));
        fees = none;
        last_order_distance = none;
      })
      else err invalid_instruction_data

  unfoldable pub unpack_setting : AmmParams → ℕ → List ℕ → Result (SetParamsInstruction P)
  unfolding unpack_owner unpack_fees unpack_distance unpack_value
  unpack_setting AmmParams.amm_owner param rest = unpack_owner param rest
  unpack_setting AmmParams.fees param rest = unpack_fees param rest
  unpack_setting AmmParams.last_order_distance param rest = unpack_distance param rest
  unpack_setting _ param rest =
      if leb 8 (length rest) then unpack_value param rest else err invalid_instruction_data

  -- `array_ref!` panics on fewer than 32 bytes
  unfoldable pub unpack_config_owner : ℕ → List ℕ → Result (ConfigArgs P)
  unpack_config_owner param rest =
      if leb 32 (length rest)
      then ok (record {
        param = param;
        owner = some (keys.new_from_array (take 32 rest));
        create_pool_fee = none;
      })
      else panic

  unfoldable pub unpack_config_fee : ℕ → List ℕ → Result (ConfigArgs P)
  unpack_config_fee param rest = do
    (create_pool_fee, _) ← unpack_u64 rest
    ok (record { param = param; owner = none; create_pool_fee = some create_pool_fee })
