-- ===== src/Processor/SetParams/Accounts.antt =====
-- program/src/processor.rs, `process_set_params`: the accounts, their checks, and what it does before the
-- parameter is set (`do_cancel_amm_orders` and the settling of funds).
use solana_dex_amm.Result.{
  Result, err_if, invalid_coin_vault, invalid_market, invalid_market_program, invalid_open_orders,
  invalid_owner, invalid_pc_vault, invalid_program_address, invalid_sign_account,
  invalid_target_orders, ok, ◌>>=◌, ◌>>◌,
}
use solana_dex_amm.Chain.{AccountInfo, Chain, Seeds, authority_amm, next_account_info}
use solana_dex_amm.Processor.Orders.{collect_order_ids}
use solana_dex_amm.Processor.Swap.Settle.{order_ids, seeds_of}
use solana_dex_amm.State.Amm.{AmmInfo}
use solana_dex_amm.Prelude.{List, [], false, none, not, ℕ, ◌%◌, ◌&&◌, ◌==◌, ◌^◌, ◌||◌, ◌∷◌}
use solana_dex_amm.Chain.Book.{get_amm_orders}
use solana_dex_amm.Chain.Load.{authority_id, load_serum_market_order}
use solana_dex_amm.Chain.Invokers.{
  invoke_dex_cancel_orders_by_client_order_ids, invoke_dex_settle_funds,
}

pub record ParamsAccounts : Type 0 where
  pub token_program : AccountInfo
  pub amm_info : AccountInfo
  pub amm_authority : AccountInfo
  pub amm_open_orders : AccountInfo
  pub amm_target_orders : AccountInfo
  pub amm_coin_vault : AccountInfo
  pub amm_pc_vault : AccountInfo
  pub market_program : AccountInfo
  pub market : AccountInfo
  pub market_coin_vault : AccountInfo
  pub market_pc_vault : AccountInfo
  pub market_vault_signer : AccountInfo
  pub market_event_q : AccountInfo
  pub market_bids : AccountInfo
  pub market_asks : AccountInfo
  pub amm_owner : AccountInfo

-- The accounts in their order, and the rest of the list.
unfoldable pub params_accounts : List AccountInfo → Result (ParamsAccounts × List AccountInfo)
unfolding next_account_info
params_accounts accounts = do
  (a0, s0) ← next_account_info accounts
  (a1, s1) ← next_account_info s0
  (a2, s2) ← next_account_info s1
  (a3, s3) ← next_account_info s2
  (a4, s4) ← next_account_info s3
  (a5, s5) ← next_account_info s4
  (a6, s6) ← next_account_info s5
  (a7, s7) ← next_account_info s6
  (a8, s8) ← next_account_info s7
  (a9, s9) ← next_account_info s8
  (a10, s10) ← next_account_info s9
  (a11, s11) ← next_account_info s10
  (a12, s12) ← next_account_info s11
  (a13, s13) ← next_account_info s12
  (a14, s14) ← next_account_info s13
  (a15, s15) ← next_account_info s14
  let a : ParamsAccounts = record {
    token_program = a0;
    amm_info = a1;
    amm_authority = a2;
    amm_open_orders = a3;
    amm_target_orders = a4;
    amm_coin_vault = a5;
    amm_pc_vault = a6;
    market_program = a7;
    market = a8;
    market_coin_vault = a9;
    market_pc_vault = a10;
    market_vault_signer = a11;
    market_event_q = a12;
    market_bids = a13;
    market_asks = a14;
    amm_owner = a15;
  }
  ok (a, s15)

module _ {W : Type 0} ⦃c : Chain W⦄ (w : W) where
  -- who signs
  unfoldable pub check_params_owner : ParamsAccounts → Result (Unit {0})
  check_params_owner a =
      err_if
        (not a.amm_owner.is_signer
          || (not (a.amm_owner.key == c.amm_owner_id)
              && not (a.amm_owner.key == c.amm_subscriber_id)))
        invalid_sign_account

  unfoldable pub check_params : ℕ → ParamsAccounts → AmmInfo → Result (Unit {0})
  unfolding check_params_owner
  check_params program_id a amm = do
    authority ← authority_id w program_id authority_amm (amm.nonce % 2 ^ 8)
    err_if (not (a.amm_authority.key == authority)) invalid_program_address
    err_if (not (a.amm_info.owner == program_id)) invalid_owner
    check_params_owner a
    err_if (not (a.market_program.key == amm.market_program)) invalid_market_program
    err_if (not (a.market.key == amm.market)) invalid_market
    err_if (not (a.amm_open_orders.key == amm.open_orders)) invalid_open_orders
    err_if (not (amm.coin_vault == a.amm_coin_vault.key)) invalid_coin_vault
    err_if (not (amm.pc_vault == a.amm_pc_vault.key)) invalid_pc_vault
    err_if (not (amm.target_orders == a.amm_target_orders.key)) invalid_target_orders

module _ {W : Type 0} ⦃c : Chain W⦄ where
  -- one call for each array of ids
  unfoldable pub cancel_orders : ParamsAccounts → Seeds → List (List ℕ) → W → Result W
  unfolding invoke_dex_cancel_orders_by_client_order_ids
  cancel_orders a seeds [] w = ok w
  cancel_orders a seeds (ids ∷ batches) w = do
    w' ←
        invoke_dex_cancel_orders_by_client_order_ids w a.market_program a.market a.market_bids
          a.market_asks a.amm_open_orders a.amm_authority a.market_event_q seeds ids
    cancel_orders a seeds batches w'

  unfoldable pub do_cancel_amm_orders : ParamsAccounts → AmmInfo → W → Result W
  do_cancel_amm_orders a amm w = do
    (market_state, open_orders) ←
        load_serum_market_order w a.market a.amm_open_orders a.amm_authority amm false
    bids_orders ← c.load_bids w market_state a.market_bids
    asks_orders ← c.load_asks w market_state a.market_asks
    (bids, asks) ← get_amm_orders open_orders bids_orders asks_orders
    batches ← collect_order_ids (order_ids bids) (order_ids asks)
    cancel_orders a (seeds_of amm) batches w

  -- the funds of the market go to the vaults, without a referrer
  unfoldable pub settle_params : ParamsAccounts → AmmInfo → W → Result W
  unfolding invoke_dex_settle_funds
  settle_params a amm w =
      invoke_dex_settle_funds w a.market_program a.market a.amm_open_orders a.amm_authority
        a.market_coin_vault a.market_pc_vault a.amm_coin_vault a.amm_pc_vault a.market_vault_signer
        a.token_program none (seeds_of amm)
