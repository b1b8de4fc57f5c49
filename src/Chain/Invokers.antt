-- ===== src/Chain/Invokers.antt =====
-- program/src/invokers.rs: which call each function makes, and with which seeds it is signed.
use solana_dex_amm.Chain.{
  AccountInfo, Chain, NewOrder, Seeds, burn, cancel_orders_by_client_order_ids, close_account,
  close_open_orders, init_open_orders, mint_to, new_order_v3, replace_order_by_client_id,
  settle_funds, transfer,
}
use solana_dex_amm.Result.{Result}
use solana_dex_amm.Prelude.{List, Option, none, some, ℕ}

-- the key of an account that is optional
abbrev pub key_of : Option AccountInfo → Option ℕ
key_of none = none
key_of (some account) = some account.key

module _ {W : Type 0} ⦃c : Chain W⦄ (w : W) where
  unfoldable pub token_burn :
      (token_program burn_account mint owner : AccountInfo) (burn_amount : ℕ) → Result W
  token_burn token_program burn_account mint owner burn_amount =
      c.invoke_signed w (burn token_program.key burn_account.key mint.key owner.key burn_amount)
        none

  unfoldable pub token_close_with_authority :
      (token_program source destination authority : AccountInfo) (seeds : Seeds) → Result W
  token_close_with_authority token_program source destination authority seeds =
      c.invoke_signed w (close_account token_program.key source.key destination.key authority.key)
        (some seeds)

  unfoldable pub token_burn_with_authority :
      (token_program burn_account mint authority : AccountInfo) (seeds : Seeds) (burn_amount : ℕ)
      → Result W
  token_burn_with_authority token_program burn_account mint authority seeds burn_amount =
      c.invoke_signed w (burn token_program.key burn_account.key mint.key authority.key burn_amount)
        (some seeds)

  unfoldable pub token_mint_to :
      (token_program mint destination authority : AccountInfo) (seeds : Seeds) (amount : ℕ)
      → Result W
  token_mint_to token_program mint destination authority seeds amount =
      c.invoke_signed w (mint_to token_program.key mint.key destination.key authority.key amount)
        (some seeds)

  unfoldable pub token_transfer :
      (token_program source destination owner : AccountInfo) (deposit_amount : ℕ) → Result W
  token_transfer token_program source destination owner deposit_amount =
      c.invoke_signed w
        (transfer token_program.key source.key destination.key owner.key deposit_amount) none

  unfoldable pub token_transfer_with_authority :
      (token_program source destination authority : AccountInfo) (seeds : Seeds) (amount : ℕ)
      → Result W
  token_transfer_with_authority token_program source destination authority seeds amount =
      c.invoke_signed w (transfer token_program.key source.key destination.key authority.key amount)
        (some seeds)

  unfoldable pub invoke_dex_init_open_orders :
      (dex_program open_orders open_orders_owner market : AccountInfo) (seeds : Seeds) → Result W
  invoke_dex_init_open_orders dex_program open_orders open_orders_owner market seeds =
      c.invoke_signed w
        (init_open_orders dex_program.key open_orders.key open_orders_owner.key market.key)
        (some seeds)

  unfoldable pub invoke_dex_close_open_orders :
      (dex_program open_orders open_orders_owner destination market : AccountInfo) (seeds : Seeds)
      → Result W
  invoke_dex_close_open_orders dex_program open_orders open_orders_owner destination market seeds =
      c.invoke_signed w
        (close_open_orders dex_program.key open_orders.key open_orders_owner.key destination.key
          market.key)
        (some seeds)

  unfoldable pub invoke_dex_cancel_orders_by_client_order_ids :
      (dex_program market bids asks open_orders open_orders_owner event_q : AccountInfo)
      (seeds : Seeds) (client_order_ids : List ℕ)
      → Result W
  invoke_dex_cancel_orders_by_client_order_ids dex_program market bids asks open_orders
        open_orders_owner event_q seeds client_order_ids =
      c.invoke_signed w
        (cancel_orders_by_client_order_ids dex_program.key market.key bids.key asks.key
          open_orders.key open_orders_owner.key event_q.key client_order_ids)
        (some seeds)

  unfoldable pub invoke_dex_settle_funds :
      (dex_program market open_orders owner coin_vault pc_vault coin_wallet pc_wallet : AccountInfo)
      (vault_signer spl_token_program : AccountInfo) (referrer_pc_wallet : Option AccountInfo)
      (seeds : Seeds)
      → Result W
  invoke_dex_settle_funds dex_program market open_orders owner coin_vault pc_vault coin_wallet
        pc_wallet vault_signer spl_token_program referrer_pc_wallet seeds =
      c.invoke_signed w
        (settle_funds dex_program.key market.key spl_token_program.key open_orders.key owner.key
          coin_vault.key coin_wallet.key pc_vault.key pc_wallet.key (key_of referrer_pc_wallet)
          vault_signer.key)
        (some seeds)

-- the accounts of a new order and of an order that is replaced
pub record OrderAccounts : Type 0 where
  pub dex_program : AccountInfo
  pub market : AccountInfo
  pub open_orders : AccountInfo
  pub req_q : AccountInfo
  pub event_q : AccountInfo
  pub bids : AccountInfo
  pub asks : AccountInfo
  pub open_orders_owner : AccountInfo
  pub coin_vault : AccountInfo
  pub pc_vault : AccountInfo
  pub token_program : AccountInfo
  pub rent_account : AccountInfo
  pub srm_account_referral : Option AccountInfo

module _ {W : Type 0} ⦃c : Chain W⦄ (w : W) where
  unfoldable pub invoke_dex_new_order_v3 :
      OrderAccounts → (payer : AccountInfo) → Seeds → NewOrder → Result W
  invoke_dex_new_order_v3 a payer seeds order =
      c.invoke_signed w
        (new_order_v3 a.dex_program.key a.market.key a.open_orders.key a.req_q.key a.event_q.key
          a.bids.key a.asks.key payer.key a.open_orders_owner.key a.coin_vault.key a.pc_vault.key
          a.token_program.key a.rent_account.key (key_of a.srm_account_referral) order)
        (some seeds)

  unfoldable pub invoke_dex_replace_order_by_client_id :
      OrderAccounts → (payer : AccountInfo) → Seeds → NewOrder → Result W
  invoke_dex_replace_order_by_client_id a payer seeds order =
      c.invoke_signed w
        (replace_order_by_client_id a.dex_program.key a.market.key a.open_orders.key a.req_q.key
          a.event_q.key a.bids.key a.asks.key payer.key a.open_orders_owner.key a.coin_vault.key
          a.pc_vault.key a.token_program.key a.rent_account.key (key_of a.srm_account_referral)
          order)
        (some seeds)
