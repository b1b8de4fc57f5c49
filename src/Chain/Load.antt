-- ===== src/Chain/Load.antt =====
-- The loading of accounts: program/src/state.rs, `load_mut_checked`, and program/src/processor.rs,
-- `unpack_token_account`, `unpack_mint`, `load_serum_market_order` and `authority_id`.
use solana_dex_amm.State.Status
use solana_dex_amm.Result.{
  Result, custom, err, err_if, expected_account, expected_mint, invalid_amm_account_owner,
  invalid_market, invalid_open_orders, invalid_owner, invalid_program_address,
  invalid_spl_token_program, invalid_status, invalid_target_account_owner, invalid_target_owner, ok,
  ok_or, ◌>>=◌, ◌>>◌,
}
use solana_dex_amm.Chain.{AccountInfo, Chain, Mint, TokenAccount}
use solana_dex_amm.Serum.{MarketState, OpenOrders}
use solana_dex_amm.State.Target.{TargetOrders}
use solana_dex_amm.State.Amm.{AmmInfo}
use solana_dex_amm.State.Config.{AmmConfig}
use solana_dex_amm.State.Status.{AmmStatus}
use solana_dex_amm.Prelude.{Bool, List, if◌then◌else◌, not, ℕ, ◌==◌}

module _ {W : Type 0} ⦃c : Chain W⦄ (w : W) where
  -- `AmmInfo::load_mut_checked`; `load_checked` differs in the borrow only
  unfoldable pub load_amm_checked : AccountInfo → ℕ → Result AmmInfo
  load_amm_checked account program_id = do
    err_if (not (account.owner == program_id)) invalid_amm_account_owner
    amm ← ok_or (c.amm_info w account.key) expected_account
    err_if (amm.status == Status.into_u64 AmmStatus.uninitialized) invalid_status
    ok amm

  -- `TargetOrders::load_mut_checked`
  unfoldable pub load_target_checked : AccountInfo → ℕ → ℕ → Result TargetOrders
  load_target_checked account program_id owner = do
    err_if (not (account.owner == program_id)) invalid_target_account_owner
    target ← ok_or (c.target_orders w account.key) expected_account
    err_if (not (target.owner == owner)) invalid_target_owner
    ok target

  -- `AmmConfig::load_checked`
  unfoldable pub load_config_checked : AccountInfo → ℕ → Result AmmConfig
  load_config_checked account program_id = do
    err_if (not (account.owner == program_id)) invalid_owner
    ok_or (c.amm_config w account.key) expected_account

  unfoldable pub unpack_token_account : AccountInfo → ℕ → Result TokenAccount
  unpack_token_account account_info token_program_id =
      if not (account_info.owner == token_program_id)
      then err (custom invalid_spl_token_program)
      else ok_or (c.token_account w account_info.key) expected_account

  unfoldable pub unpack_mint : AccountInfo → ℕ → Result Mint
  unpack_mint account_info token_program_id =
      if not (account_info.owner == token_program_id)
      then err (custom invalid_spl_token_program)
      else ok_or (c.mint w account_info.key) expected_mint

  unfoldable pub load_serum_market_order :
      (market_acc open_orders_acc authority_acc : AccountInfo)
      → AmmInfo
      → Bool
      → Result (MarketState × OpenOrders)
  load_serum_market_order market_acc open_orders_acc authority_acc amm allow_disabled = do
    market_state ← c.load_market w market_acc amm.market_program allow_disabled
    open_orders ← c.load_orders_mut w market_state open_orders_acc authority_acc amm.market_program
    err_if (not (open_orders.market == market_acc.key)) invalid_market
    err_if (not (open_orders.owner == authority_acc.key)) invalid_owner
    err_if (not (open_orders_acc.key == amm.open_orders)) invalid_open_orders
    ok (market_state, open_orders)

  -- `Processor::authority_id`
  unfoldable pub authority_id : ℕ → List ℕ → ℕ → Result ℕ
  authority_id program_id amm_seed nonce =
      ok_or (c.create_program_address w (record { amm_seed = amm_seed; nonce = nonce }) program_id)
        invalid_program_address
