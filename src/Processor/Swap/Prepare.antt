-- ===== src/Processor/Swap/Prepare.antt =====
-- program/src/processor.rs: the first half of `process_swap_base_in`, which is also the first half of
-- `process_swap_base_out`: the accounts, their checks, the pool's status, its totals, the direction.
pub mod Laws
use solana_dex_amm.State.Status
use solana_dex_amm.Result.{
  Result, custom, err, err_if, invalid_coin_vault, invalid_market, invalid_market_program,
  invalid_open_orders, invalid_pc_vault, invalid_program_address, invalid_sign_account,
  invalid_spl_token_program, invalid_status, invalid_user_token, ok, wrong_accounts_number, ◌>>=◌,
  ◌>>◌,
}
use solana_dex_amm.Chain.{AccountInfo, Chain, authority_amm, check_assert_eq, next_account_info}
use solana_dex_amm.Serum.{LeafNode}
use solana_dex_amm.Math.Swap.{SwapDirection, coin2_pc, pc2_coin}
use solana_dex_amm.Math.Vault.{
  calc_total_without_take_pnl, calc_total_without_take_pnl_no_orderbook,
}
use solana_dex_amm.State.Amm.{AmmInfo}
use solana_dex_amm.State.Status.{AmmStatus, orderbook_permission, swap_permission}
use solana_dex_amm.Prelude.{
  Bool, List, [], false, if◌then◌else◌, leb, length, ltb, not, true, ℕ, ◌%◌, ◌&&◌, ◌==◌, ◌^◌, ◌||◌,
}
use solana_dex_amm.Chain.Book.{get_amm_orders}
use solana_dex_amm.Chain.Load.{
  authority_id, load_amm_checked, load_serum_market_order, unpack_token_account,
}

pub record SwapAccounts : Type 0 where
  pub token_program : AccountInfo
  pub amm_info : AccountInfo
  pub amm_authority : AccountInfo
  pub amm_open_orders : AccountInfo
  pub amm_coin_vault : AccountInfo
  pub amm_pc_vault : AccountInfo
  pub market_program : AccountInfo
  pub market : AccountInfo
  pub market_bids : AccountInfo
  pub market_asks : AccountInfo
  pub market_event_queue : AccountInfo
  pub market_coin_vault : AccountInfo
  pub market_pc_vault : AccountInfo
  pub market_vault_signer : AccountInfo
  pub user_source : AccountInfo
  pub user_destination : AccountInfo
  pub user_source_owner : AccountInfo

-- The accounts in their order; 18 accounts have the target orders, which are not used, as the fifth.
-- The count is checked first, so that none is missing, and when they are taken does not matter.
unfoldable pub swap_accounts : List AccountInfo → Result SwapAccounts
unfolding next_account_info
swap_accounts accounts = do
  err_if (not (length accounts == 17) && not (length accounts == 18)) wrong_accounts_number
  (a0, s0) ← next_account_info accounts
  (a1, s1) ← next_account_info s0
  (a2, s2) ← next_account_info s1
  (a3, s3) ← next_account_info s2
  s4 ← (if length accounts == 18 then next_account_info s3 >>= (λ (_, s). ok s) else ok s3)
  (a5, s5) ← next_account_info s4
  (a6, s6) ← next_account_info s5
  (a7, s7) ← next_account_info s6
  (a8, s8) ← next_account_info s7
  (a9, s9) ← next_account_info s8
  (a10, s10) ← next_account_info s9
  (a11, s11) ← next_account_info s10
  (a12, s12) ← next_account_info s11
  (a13, s13) ← next_account_info s12
  (a14, s14) ← next_account_info s13
  (a15, s15) ← next_account_info s14
  (a16, s16) ← next_account_info s15
  (a17, _) ← next_account_info s16
  ok (record {
    token_program = a0;
    amm_info = a1;
    amm_authority = a2;
    amm_open_orders = a3;
    amm_coin_vault = a5;
    amm_pc_vault = a6;
    market_program = a7;
    market = a8;
    market_bids = a9;
    market_asks = a10;
    market_event_queue = a11;
    market_coin_vault = a12;
    market_pc_vault = a13;
    market_vault_signer = a14;
    user_source = a15;
    user_destination = a16;
    user_source_owner = a17;
  })

-- what the first half leaves for the second
pub record Prepared : Type 0 where
  pub accounts : SwapAccounts
  pub amm : AmmInfo
  pub enable_orderbook : Bool
  pub coin_vault_amount : ℕ
  pub pc_vault_amount : ℕ
  pub user_source_amount : ℕ
  pub bids : List LeafNode
  pub asks : List LeafNode
  pub total_pc : ℕ
  pub total_coin : ℕ
  pub direction : SwapDirection

unfoldable pub swap_direction :
    (source_mint destination_mint coin_mint pc_mint : ℕ) → Result SwapDirection
swap_direction source_mint destination_mint coin_mint pc_mint =
    if source_mint == coin_mint && destination_mint == pc_mint
    then ok coin2_pc
    else if source_mint == pc_mint && destination_mint == coin_mint
    then ok pc2_coin
    else err (custom invalid_user_token)

module _ {W : Type 0} ⦃c : Chain W⦄ (w : W) where
  -- the signature and the keys
  unfoldable pub check_swap : ℕ → SwapAccounts → AmmInfo → Result (Unit {0})
  unfolding check_assert_eq
  check_swap program_id a amm = do
    err_if (not a.user_source_owner.is_signer) invalid_sign_account
    check_assert_eq a.token_program.key c.spl_token_id invalid_spl_token_program
    authority ← authority_id w program_id authority_amm (amm.nonce % 2 ^ 8)
    check_assert_eq a.amm_authority.key authority invalid_program_address
    check_assert_eq a.amm_coin_vault.key amm.coin_vault invalid_coin_vault
    check_assert_eq a.amm_pc_vault.key amm.pc_vault invalid_pc_vault
    check_assert_eq a.amm_open_orders.key amm.open_orders invalid_open_orders
    check_assert_eq a.market_program.key amm.market_program invalid_market_program
    err_if (a.user_source.key == amm.pc_vault || a.user_source.key == amm.coin_vault)
        invalid_user_token
    err_if (a.user_destination.key == amm.pc_vault || a.user_destination.key == amm.coin_vault)
        invalid_user_token

  -- the status that lets users swap, which may change by the time
  unfoldable pub swap_status : AmmInfo → Result AmmInfo
  swap_status amm = do
    status ← Status.from_u64 amm.status
    if not (swap_permission status)
        then (do
          now ← c.unix_timestamp w
          if amm.status == Status.into_u64 AmmStatus.order_book_only
                && leb amm.state_data.orderbook_to_init_time now
              then ok (record amm { status = Status.into_u64 AmmStatus.initialized })
              else err (custom invalid_status))
        else if amm.status == Status.into_u64 AmmStatus.waiting_trade
        then (do
          now ← c.unix_timestamp w
          if ltb now amm.state_data.pool_open_time
              then err (custom invalid_status)
              else ok (record amm { status = Status.into_u64 AmmStatus.swap_only }))
        else ok amm

  -- the orders of the pool, and its totals of pc and coin
  unfoldable pub swap_totals :
      Bool
      → SwapAccounts
      → AmmInfo
      → (pc_amount coin_amount : ℕ) → Result (List LeafNode × List LeafNode × ℕ × ℕ)
  unfolding check_assert_eq
  swap_totals true a amm pc_amount coin_amount = do
    check_assert_eq a.market.key amm.market invalid_market
    (market_state, open_orders) ←
        load_serum_market_order w a.market a.amm_open_orders a.amm_authority amm false
    bids_orders ← c.load_bids w market_state a.market_bids
    asks_orders ← c.load_asks w market_state a.market_asks
    (bids, asks) ← get_amm_orders open_orders bids_orders asks_orders
    (total_pc, total_coin) ←
        calc_total_without_take_pnl pc_amount coin_amount open_orders amm
          (c.load_event_queue w market_state a.market_event_queue) a.amm_open_orders.key
    ok (bids, asks, total_pc, total_coin)
  swap_totals false a amm pc_amount coin_amount = do
    open_orders ← c.load_orders w a.amm_open_orders
    (total_pc, total_coin) ←
        calc_total_without_take_pnl_no_orderbook pc_amount coin_amount open_orders amm
    ok ([], [], total_pc, total_coin)

  unfoldable pub prepare_swap : ℕ → List AccountInfo → Result Prepared
  prepare_swap program_id accounts = do
    a ← swap_accounts accounts
    loaded ← load_amm_checked w a.amm_info program_id
    status ← Status.from_u64 loaded.status
    let enable_orderbook = orderbook_permission status
    check_swap program_id a loaded
    coin_vault ← unpack_token_account w a.amm_coin_vault a.token_program.key
    pc_vault ← unpack_token_account w a.amm_pc_vault a.token_program.key
    source ← unpack_token_account w a.user_source a.token_program.key
    destination ← unpack_token_account w a.user_destination a.token_program.key
    amm ← swap_status loaded
    (bids, asks, total_pc, total_coin) ←
        swap_totals enable_orderbook a amm pc_vault.amount coin_vault.amount
    direction ← swap_direction source.mint destination.mint coin_vault.mint pc_vault.mint
    ok (record {
      accounts = a;
      amm = amm;
      enable_orderbook = enable_orderbook;
      coin_vault_amount = coin_vault.amount;
      pc_vault_amount = pc_vault.amount;
      user_source_amount = source.amount;
      bids = bids;
      asks = asks;
      total_pc = total_pc;
      total_coin = total_coin;
      direction = direction;
    })
