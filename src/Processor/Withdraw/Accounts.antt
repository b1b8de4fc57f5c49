-- ===== src/Processor/Withdraw/Accounts.antt =====
-- program/src/processor.rs, `process_withdraw`: the accounts and their checks.
use solana_dex_amm.State.Status
use solana_dex_amm.Result.{
  Result, err_if, invalid_coin_vault, invalid_market, invalid_market_program, invalid_owner,
  invalid_pc_vault, invalid_pool_mint, invalid_program_address, invalid_spl_token_program,
  invalid_status, invalid_target_orders, ok, wrong_accounts_number, ◌>>=◌, ◌>>◌,
}
use solana_dex_amm.Chain.{AccountInfo, Chain, authority_amm, check_assert_eq, next_account_info}
use solana_dex_amm.State.Amm.{AmmInfo}
use solana_dex_amm.State.Status.{withdraw_permission}
use solana_dex_amm.Prelude.{
  List, Option, if◌then◌else◌, length, none, not, some, ℕ, ◌%◌, ◌&&◌, ◌==◌, ◌^◌, ◌||◌,
}
use solana_dex_amm.Chain.Load.{authority_id, unpack_token_account}

pub record WithdrawAccounts : Type 0 where
  pub token_program : AccountInfo
  pub amm_info : AccountInfo
  pub amm_authority : AccountInfo
  pub amm_open_orders : AccountInfo
  pub amm_target_orders : AccountInfo
  pub amm_lp_mint : AccountInfo
  pub amm_coin_vault : AccountInfo
  pub amm_pc_vault : AccountInfo
  pub market_program : AccountInfo
  pub market : AccountInfo
  pub market_coin_vault : AccountInfo
  pub market_pc_vault : AccountInfo
  pub market_vault_signer : AccountInfo
  pub user_source_lp : AccountInfo
  pub user_dest_coin : AccountInfo
  pub user_dest_pc : AccountInfo
  pub source_lp_owner : AccountInfo
  pub market_event_q : AccountInfo
  pub market_bids : AccountInfo
  pub market_asks : AccountInfo
  pub referrer_pc_wallet : Option AccountInfo

-- The two accounts of padding, which the code takes if
-- `input_account_len != ACCOUNT_LEN + 2 || input_account_len != ACCOUNT_LEN + 3`.
unfoldable pub skip_padding : ℕ → List AccountInfo → Result (List AccountInfo)
unfolding next_account_info
skip_padding input_account_len accounts =
    if not (input_account_len == 22) || not (input_account_len == 23)
    then (do (_, s1) ← next_account_info accounts; (_, s2) ← next_account_info s1; ok s2)
    else ok accounts

unfoldable pub referrer_account : ℕ → List AccountInfo → Result (Option AccountInfo)
unfolding next_account_info
referrer_account input_account_len accounts =
    if input_account_len == 21 || input_account_len == 23
    then (do (account, _) ← next_account_info accounts; ok (some account))
    else ok none

unfoldable pub withdraw_accounts : List AccountInfo → Result WithdrawAccounts
unfolding next_account_info skip_padding referrer_account
withdraw_accounts accounts = do
  let n = length accounts
  err_if (not (n == 20) && not (n == 21) && not (n == 22) && not (n == 23)) wrong_accounts_number
  (a0, s0) ← next_account_info accounts
  (a1, s1) ← next_account_info s0
  (a2, s2) ← next_account_info s1
  (a3, s3) ← next_account_info s2
  (a4, s4) ← next_account_info s3
  (a5, s5) ← next_account_info s4
  (a6, s6) ← next_account_info s5
  (a7, s7) ← next_account_info s6
  s8 ← skip_padding n s7
  (a9, s9) ← next_account_info s8
  (a10, s10) ← next_account_info s9
  (a11, s11) ← next_account_info s10
  (a12, s12) ← next_account_info s11
  (a13, s13) ← next_account_info s12
  (a14, s14) ← next_account_info s13
  (a15, s15) ← next_account_info s14
  (a16, s16) ← next_account_info s15
  (a17, s17) ← next_account_info s16
  (a18, s18) ← next_account_info s17
  (a19, s19) ← next_account_info s18
  (a20, s20) ← next_account_info s19
  referrer ← referrer_account n s20
  ok (record {
    token_program = a0;
    amm_info = a1;
    amm_authority = a2;
    amm_open_orders = a3;
    amm_target_orders = a4;
    amm_lp_mint = a5;
    amm_coin_vault = a6;
    amm_pc_vault = a7;
    market_program = a9;
    market = a10;
    market_coin_vault = a11;
    market_pc_vault = a12;
    market_vault_signer = a13;
    user_source_lp = a14;
    user_dest_coin = a15;
    user_dest_pc = a16;
    source_lp_owner = a17;
    market_event_q = a18;
    market_bids = a19;
    market_asks = a20;
    referrer_pc_wallet = referrer;
  })

module _ {W : Type 0} ⦃c : Chain W⦄ (w : W) where
  -- a referrer other than the default key is a token account of the wallet that is configured
  unfoldable pub check_referrer : WithdrawAccounts → Option AccountInfo → Result (Unit {0})
  unfolding check_assert_eq
  check_referrer a none = ok tt
  check_referrer a (some referrer) = if referrer.key == c.default_key then ok tt else (do
    token ← unpack_token_account w referrer a.token_program.key
    check_assert_eq token.owner c.referrer_pc_wallet_id invalid_owner)

  unfoldable pub check_withdraw : ℕ → WithdrawAccounts → AmmInfo → Result (Unit {0})
  unfolding check_assert_eq
  check_withdraw program_id a amm = do
    status ← Status.from_u64 amm.status
    err_if (not (withdraw_permission status)) invalid_status
    authority ← authority_id w program_id authority_amm (amm.nonce % 2 ^ 8)
    err_if (not (a.amm_authority.key == authority)) invalid_program_address
    check_assert_eq a.token_program.key c.spl_token_id invalid_spl_token_program
    check_assert_eq a.market.key amm.market invalid_market
    err_if (not (a.amm_coin_vault.key == amm.coin_vault) || a.user_dest_coin.key == amm.coin_vault)
        invalid_coin_vault
    err_if (not (a.amm_pc_vault.key == amm.pc_vault) || a.user_dest_pc.key == amm.pc_vault)
        invalid_pc_vault
    check_assert_eq a.market_program.key amm.market_program invalid_market_program
    check_assert_eq a.amm_target_orders.key amm.target_orders invalid_target_orders
    check_assert_eq a.amm_lp_mint.key amm.lp_mint invalid_pool_mint
