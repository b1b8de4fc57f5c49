-- ===== src/Chain/Ledger.antt =====
-- What the handlers rely on of the token program (spl_token is not part of the repository): a transfer
-- between two different accounts, as it is documented.
use solana_dex_amm.Chain.{AccountInfo, Chain, Seeds, TokenAccount, transfer}
use solana_dex_amm.Result.{ok}
use solana_dex_amm.Prelude.{Option, some, ℕ, ◌+◌, ◌-◌, ◌≡◌, ◌≢◌, ◌≤◌}

-- `amount` goes off the source and onto the destination; no other token account and no open orders change.
pub record IsTransferred {W : Type 0} ⦃c : Chain W⦄ (source destination amount : ℕ) (w w' : W)
    : Type 0 where
  pub from : TokenAccount
  pub to : TokenAccount
  pub from_read : c.token_account w source ≡ some from
  pub to_read : c.token_account w destination ≡ some to
  pub enough : amount ≤ from.amount
  pub debited : c.token_account w' source ≡ some (record from { amount = from.amount - amount })
  pub credited : c.token_account w' destination ≡ some (record to { amount = to.amount + amount })
  pub others : (k : ℕ) → k ≢ source → k ≢ destination → c.token_account w' k ≡ c.token_account w k
  pub orders_same : (account : AccountInfo) → c.load_orders w' account ≡ c.load_orders w account

pub record Ledger (W : Type 0) ⦃c : Chain W⦄ : Type 0 where
  pub transferred :
      (token_program source destination authority amount : ℕ) (seeds : Option Seeds) (w w' : W)
      → c.invoke_signed w (transfer token_program source destination authority amount) seeds ≡ ok w'
      → source ≢ destination
      → IsTransferred source destination amount w w'
