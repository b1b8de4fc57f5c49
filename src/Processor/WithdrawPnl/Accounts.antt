-- ===== src/Processor/WithdrawPnl/Accounts.antt =====
-- program/src/processor.rs, `process_withdrawpnl`: the accounts and their checks.
use solana_dex_amm.State.Status
use solana_dex_amm.Result.{
  Result, err_if, invalid_coin_mint, invalid_coin_vault, invalid_config_account, invalid_market,
  invalid_market_program, invalid_open_orders, invalid_owner, invalid_pc_mint, invalid_pc_vault,
  invalid_program_address, invalid_sign_account, invalid_spl_token_program, invalid_status,
  invalid_target_orders, ok, wrong_accounts_number, ◌>>=◌, ◌>>◌,
}
use solana_dex_amm.Chain.{
  AccountInfo, Chain, TokenAccount, authority_amm, check_assert_eq, next_account_info,
}
use solana_dex_amm.State.Amm.{AmmInfo}
use solana_dex_amm.State.Status.{AmmStatus}
use solana_dex_amm.Prelude.{
  List, Option, if◌then◌else◌, length, none, not, some, ℕ, ◌%◌, ◌&&◌, ◌==◌, ◌^◌, ◌||◌,
}
use solana_dex_amm.Chain.Load.{authority_id, load_config_checked, unpack_token_account}

pub record PnlAccounts : Type 0 where
  pub token_program : AccountInfo
  pub amm_info : AccountInfo
  pub amm_config : AccountInfo
  pub amm_authority : AccountInfo
  pub amm_open_orders : AccountInfo
  pub amm_coin_vault : AccountInfo
  pub amm_pc_vault : AccountInfo
  pub user_pnl_coin : AccountInfo
  pub user_pnl_pc : AccountInfo
  pub pnl_owner : AccountInfo
  pub amm_target_orders : AccountInfo
  pub market_program : AccountInfo
  pub market : AccountInfo
  pub market_event_queue : AccountInfo
  pub market_coin_vault : AccountInfo
  pub market_pc_vault : AccountInfo
  pub market_vault_signer : AccountInfo
  pub referrer_pc_wallet : Option AccountInfo

-- the account behind the fixed ones
unfoldable pub pnl_referrer : ℕ → List AccountInfo → Result (Option AccountInfo)
unfolding next_account_info
pnl_referrer input_account_len accounts =
    if input_account_len == 18
    then (do (account, _) ← next_account_info accounts; ok (some account))
    else ok none

unfoldable pub pnl_accounts : List AccountInfo → Result PnlAccounts
unfolding next_account_info pnl_referrer
pnl_accounts accounts = do
  err_if (not (length accounts == 17) && not (length accounts == 18)) wrong_accounts_number
  (a0, s0) ← next_account_info accounts
  (a1, s1) ← next_account_info s0
  (a2, s2) ← next_account_info s1
  (a3, s3) ← next_account_info s2
  (a4, s4) ← next_account_info s3
  (a5, s5) ← next_account_info s4
  (a6, s6) ← next_account_info s5
  (a7, s7) ← next_account_info s6
  (a8, s8) ← next_account_info s7
  (a9, s9) ← next_account_info s8
  (a10, s10) ← next_account_info s9
  (a11, s11) ← next_account_info s10
  (a12, s12) ← next_account_info s11
  (a13, s13) ← next_account_info s12
  (a14, s14) ← next_account_info s13
  (a15, s15) ← next_account_info s14
  (a16, s16) ← next_account_info s15
  referrer ← pnl_referrer (length accounts) s16
  ok (record {
    token_program = a0;
    amm_info = a1;
    amm_config = a2;
    amm_authority = a3;
    amm_open_orders = a4;
    amm_coin_vault = a5;
    amm_pc_vault = a6;
    user_pnl_coin = a7;
    user_pnl_pc = a8;
    pnl_owner = a9;
    amm_target_orders = a10;
    market_program = a11;
    market = a12;
    market_event_queue = a13;
    market_coin_vault = a14;
    market_pc_vault = a15;
    market_vault_signer = a16;
    referrer_pc_wallet = referrer;
  })

module _ {W : Type 0} ⦃c : Chain W⦄ (w : W) where
  -- a referrer is a token account of the wallet that is configured
  unfoldable pub check_pnl_referrer : PnlAccounts → Option AccountInfo → Result (Unit {0})
  unfolding check_assert_eq
  check_pnl_referrer a none = ok tt
  check_pnl_referrer a (some referrer) = do
    token ← unpack_token_account w referrer a.token_program.key
    check_assert_eq token.owner c.referrer_pc_wallet_id invalid_owner

  -- the authority, the configuration, and who signs
  unfoldable pub check_pnl_owner : ℕ → PnlAccounts → AmmInfo → Result (Unit {0})
  check_pnl_owner program_id a amm = do
    authority ← authority_id w program_id authority_amm (amm.nonce % 2 ^ 8)
    err_if (not (a.amm_authority.key == authority)) invalid_program_address
    err_if (not (a.amm_info.owner == program_id)) invalid_owner
    err_if
        (not (c.config_address program_id == a.amm_config.key)
          || not (a.amm_config.owner == program_id))
        invalid_config_account
    amm_config ← load_config_checked w a.amm_config program_id
    err_if
        (not a.pnl_owner.is_signer
          || (not (a.pnl_owner.key == c.amm_owner_id)
              && not (a.pnl_owner.key == amm_config.pnl_owner)
              && not (a.pnl_owner.key == c.amm_subscriber_id)))
        invalid_sign_account

  unfoldable pub check_pnl_keys : PnlAccounts → AmmInfo → Result (Unit {0})
  unfolding check_assert_eq
  check_pnl_keys a amm = do
    err_if (amm.status == Status.into_u64 AmmStatus.uninitialized) invalid_status
    check_assert_eq a.market.key amm.market invalid_market
    check_assert_eq a.amm_coin_vault.key amm.coin_vault invalid_coin_vault
    check_assert_eq a.amm_pc_vault.key amm.pc_vault invalid_pc_vault
    check_assert_eq a.token_program.key c.spl_token_id invalid_spl_token_program
    check_assert_eq a.market_program.key amm.market_program invalid_market_program
    check_assert_eq a.amm_open_orders.key amm.open_orders invalid_open_orders
    check_assert_eq a.amm_target_orders.key amm.target_orders invalid_target_orders

-- the mints of the vaults and of the owner's accounts are the pool's
unfoldable pub check_pnl_mints :
    AmmInfo → (coin_vault pc_vault user_coin user_pc : TokenAccount) → Result (Unit {0})
check_pnl_mints amm coin_vault pc_vault user_coin user_pc = do
  err_if
      (not (coin_vault.mint == amm.coin_vault_mint) || not (user_coin.mint == amm.coin_vault_mint))
      invalid_coin_mint
  err_if (not (pc_vault.mint == amm.pc_vault_mint) || not (user_pc.mint == amm.pc_vault_mint))
      invalid_pc_mint
