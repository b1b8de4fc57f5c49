-- ===== src/Processor/Deposit/Accounts.antt =====
-- program/src/processor.rs, `process_deposit`: the accounts and their checks.
use solana_dex_amm.State.Status
use solana_dex_amm.Result.{
  Result, err_if, invalid_coin_mint, invalid_coin_vault, invalid_input, invalid_market,
  invalid_pc_mint, invalid_pc_vault, invalid_pool_mint, invalid_program_address,
  invalid_sign_account, invalid_spl_token_program, invalid_status, invalid_target_orders, ok,
  wrong_accounts_number, ◌>>=◌, ◌>>◌,
}
use solana_dex_amm.Chain.{
  AccountInfo, Chain, TokenAccount, authority_amm, check_assert_eq, next_account_info,
}
use solana_dex_amm.Serum.{MarketState}
use solana_dex_amm.Instruction.{DepositInstruction}
use solana_dex_amm.State.Amm.{AmmInfo}
use solana_dex_amm.State.Status.{deposit_permission}
use solana_dex_amm.Prelude.{List, length, not, ℕ, ◌%◌, ◌&&◌, ◌==◌, ◌^◌, ◌||◌}
use solana_dex_amm.Chain.Load.{authority_id}

pub record DepositAccounts : Type 0 where
  pub token_program : AccountInfo
  pub amm_info : AccountInfo
  pub amm_authority : AccountInfo
  pub amm_open_orders : AccountInfo
  pub amm_target_orders : AccountInfo
  pub amm_lp_mint : AccountInfo
  pub amm_coin_vault : AccountInfo
  pub amm_pc_vault : AccountInfo
  pub market : AccountInfo
  pub user_source_coin : AccountInfo
  pub user_source_pc : AccountInfo
  pub user_dest_lp : AccountInfo
  pub source_owner : AccountInfo
  pub market_event_queue : AccountInfo

unfoldable pub deposit_accounts : List AccountInfo → Result DepositAccounts
unfolding next_account_info
deposit_accounts accounts = do
  err_if (not (length accounts == 14) && not (length accounts == 15)) wrong_accounts_number
  (a0, s0) ← next_account_info accounts
  (a1, s1) ← next_account_info s0
  (a2, s2) ← next_account_info s1
  (a3, s3) ← next_account_info s2
  (a4, s4) ← next_account_info s3
  (a5, s5) ← next_account_info s4
  (a6, s6) ← next_account_info s5
  (a7, s7) ← next_account_info s6
  (a8, s8) ← next_account_info s7
  (a9, s9) ← next_account_info s8
  (a10, s10) ← next_account_info s9
  (a11, s11) ← next_account_info s10
  (a12, s12) ← next_account_info s11
  (a13, _) ← next_account_info s12
  ok (record {
    token_program = a0;
    amm_info = a1;
    amm_authority = a2;
    amm_open_orders = a3;
    amm_target_orders = a4;
    amm_lp_mint = a5;
    amm_coin_vault = a6;
    amm_pc_vault = a7;
    market = a8;
    user_source_coin = a9;
    user_source_pc = a10;
    user_dest_lp = a11;
    source_owner = a12;
    market_event_queue = a13;
  })

-- the mints of the vault and of the user's account are the market's
unfoldable pub check_mints :
    MarketState → (coin_vault pc_vault user_coin user_pc : TokenAccount) → Result (Unit {0})
check_mints market_state coin_vault pc_vault user_coin user_pc = do
  err_if
      (not (market_state.coin_mint == coin_vault.mint)
        || not (market_state.coin_mint == user_coin.mint))
      invalid_coin_mint
  err_if (not (market_state.pc_mint == pc_vault.mint) || not (market_state.pc_mint == user_pc.mint))
      invalid_pc_mint

module _ {W : Type 0} ⦃c : Chain W⦄ (w : W) where
  unfoldable pub check_deposit :
      ℕ → DepositAccounts → AmmInfo → DepositInstruction → Result (Unit {0})
  unfolding check_assert_eq
  check_deposit program_id a amm args = do
    err_if (args.max_coin_amount == 0 || args.max_pc_amount == 0) invalid_input
    err_if (not a.source_owner.is_signer) invalid_sign_account
    status ← Status.from_u64 amm.status
    err_if (not (deposit_permission status)) invalid_status
    authority ← authority_id w program_id authority_amm (amm.nonce % 2 ^ 8)
    err_if (not (a.amm_authority.key == authority)) invalid_program_address
    check_assert_eq a.token_program.key c.spl_token_id invalid_spl_token_program
    check_assert_eq a.market.key amm.market invalid_market
    err_if
        (not (a.amm_coin_vault.key == amm.coin_vault) || a.user_source_coin.key == amm.coin_vault)
        invalid_coin_vault
    err_if (not (a.amm_pc_vault.key == amm.pc_vault) || a.user_source_pc.key == amm.pc_vault)
        invalid_pc_vault
    check_assert_eq a.amm_lp_mint.key amm.lp_mint invalid_pool_mint
    check_assert_eq a.amm_target_orders.key amm.target_orders invalid_target_orders
