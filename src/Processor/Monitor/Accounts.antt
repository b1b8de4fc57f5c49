-- ===== src/Processor/Monitor/Accounts.antt =====
-- program/src/processor.rs: the accounts of `process_monitor_step`, `check_accounts`, and what
-- `account_parser` loads for the states.
use solana_dex_amm.State.Status
use solana_dex_amm.Result.{
  Result, err_if, invalid_coin_vault, invalid_market, invalid_market_program, invalid_open_orders,
  invalid_owner, invalid_pc_vault, invalid_program_address, invalid_refer_pc_mint,
  invalid_spl_token_program, invalid_srm_mint, invalid_status, invalid_target_orders, ok,
  wrong_accounts_number, ◌>>=◌, ◌>>◌,
}
use solana_dex_amm.Chain.{AccountInfo, Chain, authority_amm, check_assert_eq, next_account_info}
use solana_dex_amm.Serum.{LeafNode, MarketState, OpenOrders}
use solana_dex_amm.Math.Vault.{calc_total_without_take_pnl}
use solana_dex_amm.State.Amm.{AmmInfo}
use solana_dex_amm.State.Status.{AmmStatus}
use solana_dex_amm.Prelude.{
  Bool, List, Option, [], length, none, not, some, ℕ, ◌%◌, ◌&&◌, ◌==◌, ◌^◌, ◌∷◌,
}
use solana_dex_amm.Chain.Book.{get_amm_orders}
use solana_dex_amm.Chain.Load.{authority_id, load_serum_market_order, unpack_token_account}

pub record MonitorAccounts : Type 0 where
  pub token_program : AccountInfo
  pub rent : AccountInfo
  pub clock : AccountInfo
  pub amm_info : AccountInfo
  pub amm_authority : AccountInfo
  pub amm_open_orders : AccountInfo
  pub amm_target_orders : AccountInfo
  pub amm_coin_vault : AccountInfo
  pub amm_pc_vault : AccountInfo
  pub market_program : AccountInfo
  pub market : AccountInfo
  pub market_coin_vault : AccountInfo
  pub market_pc_vault : AccountInfo
  pub market_vault_signer : AccountInfo
  pub market_request_queue : AccountInfo
  pub market_event_queue : AccountInfo
  pub market_bids : AccountInfo
  pub market_asks : AccountInfo
  pub srm_token : Option AccountInfo
  pub referrer_pc : Option AccountInfo

-- the first of the accounts behind the fixed ones, and the second
abbrev pub first_extra : List AccountInfo → Option AccountInfo
first_extra [] = none
first_extra (account ∷ _) = some account

abbrev pub second_extra : List AccountInfo → Option AccountInfo
second_extra [] = none
second_extra (_ ∷ accounts) = first_extra accounts

unfoldable pub monitor_accounts : List AccountInfo → Result MonitorAccounts
unfolding next_account_info
monitor_accounts accounts = do
  let n = length accounts
  err_if (not (n == 18) && not (n == 19) && not (n == 20)) wrong_accounts_number
  (a0, s0) ← next_account_info accounts
  (a1, s1) ← next_account_info s0
  (a2, s2) ← next_account_info s1
  (a3, s3) ← next_account_info s2
  (a4, s4) ← next_account_info s3
  (a5, s5) ← next_account_info s4
  (a6, s6) ← next_account_info s5
  (a7, s7) ← next_account_info s6
  (a8, s8) ← next_account_info s7
  (a9, s9) ← next_account_info s8
  (a10, s10) ← next_account_info s9
  (a11, s11) ← next_account_info s10
  (a12, s12) ← next_account_info s11
  (a13, s13) ← next_account_info s12
  (a14, s14) ← next_account_info s13
  (a15, s15) ← next_account_info s14
  (a16, s16) ← next_account_info s15
  (a17, s17) ← next_account_info s16
  ok (record {
    token_program = a0;
    rent = a1;
    clock = a2;
    amm_info = a3;
    amm_authority = a4;
    amm_open_orders = a5;
    amm_target_orders = a6;
    amm_coin_vault = a7;
    amm_pc_vault = a8;
    market_program = a9;
    market = a10;
    market_coin_vault = a11;
    market_pc_vault = a12;
    market_vault_signer = a13;
    market_request_queue = a14;
    market_event_queue = a15;
    market_bids = a16;
    market_asks = a17;
    srm_token = first_extra s17;
    referrer_pc = second_extra s17;
  })

module _ {W : Type 0} ⦃c : Chain W⦄ (w : W) where
  unfoldable pub check_srm_token : MonitorAccounts → Option AccountInfo → Result (Unit {0})
  unfolding check_assert_eq
  check_srm_token a none = ok tt
  check_srm_token a (some account) = do
    srm_token ← unpack_token_account w account a.token_program.key
    check_assert_eq srm_token.owner a.amm_authority.key invalid_owner
    err_if (not (srm_token.mint == c.srm_token_id) && not (srm_token.mint == c.msrm_token_id))
        invalid_srm_mint

  unfoldable pub check_referrer_pc :
      MonitorAccounts → AmmInfo → Option AccountInfo → Result (Unit {0})
  unfolding check_assert_eq
  check_referrer_pc a amm none = ok tt
  check_referrer_pc a amm (some account) = do
    referrer ← unpack_token_account w account a.token_program.key
    check_assert_eq referrer.owner c.referrer_pc_wallet_id invalid_owner
    check_assert_eq referrer.mint amm.pc_vault_mint invalid_refer_pc_mint

  unfoldable pub check_accounts : ℕ → MonitorAccounts → AmmInfo → Result (Unit {0})
  unfolding check_assert_eq check_srm_token check_referrer_pc
  check_accounts program_id a amm = do
    err_if (amm.status == Status.into_u64 AmmStatus.uninitialized) invalid_status
    authority ← authority_id w program_id authority_amm (amm.nonce % 2 ^ 8)
    err_if (not (a.amm_authority.key == authority)) invalid_program_address
    check_assert_eq a.amm_info.owner program_id invalid_owner
    check_assert_eq a.token_program.key c.spl_token_id invalid_spl_token_program
    check_assert_eq a.clock.key c.clock_id invalid_program_address
    check_assert_eq a.market_program.key amm.market_program invalid_market_program
    check_assert_eq a.market.key amm.market invalid_market
    check_assert_eq a.amm_open_orders.key amm.open_orders invalid_open_orders
    check_assert_eq a.amm_coin_vault.key amm.coin_vault invalid_coin_vault
    check_assert_eq a.amm_pc_vault.key amm.pc_vault invalid_pc_vault
    check_assert_eq a.amm_target_orders.key amm.target_orders invalid_target_orders
    check_srm_token a a.srm_token
    check_referrer_pc a amm a.referrer_pc

-- What is loaded of the pool's orders.
pub record Book : Type 0 where
  pub market_state : MarketState
  pub open_orders : OpenOrders
  pub bids : List LeafNode
  pub asks : List LeafNode

-- The totals of the pool, and what its vaults hold.
pub record Funds : Type 0 where
  pub pc_amount : ℕ
  pub coin_amount : ℕ
  pub total_pc : ℕ
  pub total_coin : ℕ

module _ {W : Type 0} ⦃c : Chain W⦄ (w : W) (a : MonitorAccounts) (amm : AmmInfo) where
  -- the market, with `allow_disabled`, and its orders of the pool
  unfoldable pub load_book : Bool → Result Book
  load_book allow_disabled = do
    (market_state, open_orders) ←
        load_serum_market_order w a.market a.amm_open_orders a.amm_authority amm allow_disabled
    bids_orders ← c.load_bids w market_state a.market_bids
    asks_orders ← c.load_asks w market_state a.market_asks
    (bids, asks) ← get_amm_orders open_orders bids_orders asks_orders
    ok (record { market_state = market_state; open_orders = open_orders; bids = bids; asks = asks })

  unfoldable pub load_funds : MarketState → OpenOrders → (coin_vault pc_vault : ℕ) → Result Funds
  load_funds market_state open_orders coin_vault pc_vault = do
    (total_pc, total_coin) ←
        calc_total_without_take_pnl pc_vault coin_vault open_orders amm
          (c.load_event_queue w market_state a.market_event_queue) a.amm_open_orders.key
    ok (record {
      pc_amount = pc_vault;
      coin_amount = coin_vault;
      total_pc = total_pc;
      total_coin = total_coin;
    })
