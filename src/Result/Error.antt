-- ===== src/Result/Error.antt =====
-- program/src/error.rs: the program's errors, and the `ProgramError` that a handler returns.
pub data AmmError : Type 0 where
  already_in_use invalid_program_address expected_mint expected_account : AmmError
  invalid_coin_vault invalid_pc_vault invalid_token_lp invalid_dest_token_coin : AmmError
  invalid_dest_token_pc invalid_pool_mint invalid_open_orders invalid_market : AmmError
  invalid_market_program invalid_target_orders account_need_writeable : AmmError
  account_need_read_only invalid_coin_mint invalid_pc_mint invalid_owner : AmmError
  invalid_supply invalid_delegate invalid_sign_account invalid_status : AmmError
  invalid_instruction wrong_accounts_number invalid_target_account_owner : AmmError
  invalid_target_owner invalid_amm_account_owner invalid_params_set invalid_input : AmmError
  exceeded_slippage calculation_ex_rate_failure checked_sub_overflow : AmmError
  checked_add_overflow checked_mul_overflow checked_div_overflow checked_empty_funds : AmmError
  calc_pnl_error invalid_spl_token_program take_pnl_error insufficient_funds : AmmError
  conversion_failure invalid_user_token invalid_srm_mint invalid_srm_token : AmmError
  too_many_open_orders order_at_slot_is_placed invalid_sys_program_address : AmmError
  invalid_fee repeat_create_amm not_allow_zero_lp invalid_close_authority : AmmError
  invalid_freeze_authority invalid_refer_pc_mint invalid_config_account : AmmError
  repeat_create_config_account market_lot_size_is_too_large init_lp_amount_too_less : AmmError
  unknown_amm_error : AmmError

-- `From<AmmError> for ProgramError` is `custom`. The other constructors are those of solana_program's
-- type that the modelled code returns itself.
pub data ProgramError : Type 0 where
  custom : AmmError → ProgramError
  invalid_instruction_data not_enough_account_keys : ProgramError
