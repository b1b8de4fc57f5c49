-- ===== src/Processor/Deposit/Paid.antt =====
-- What the three calls of a deposit move: both amounts to the pool's vaults, and LP tokens to the user.
use solana_dex_amm.Chain.{Chain, authority_amm, check_assert_eq, mint_to}
use solana_dex_amm.Result.{bind-eq-ok, ok}
use solana_dex_amm.Instruction.{DepositInstruction}
use solana_dex_amm.Processor.Deposit.Amounts.{Deposited}
use solana_dex_amm.Processor.Deposit.Handler.{deposit_tokens}
use solana_dex_amm.Processor.Deposit.Accounts.{DepositAccounts, check_deposit}
use solana_dex_amm.State.Amm.{AmmInfo}
use solana_dex_amm.Chain.Invokers.{token_mint_to, token_transfer}
use solana_dex_amm.Chain.Ledger.{IsTransferred, Ledger}
use solana_dex_amm.Prelude.{arith, some, ℕ, ◌%◌, ◌^◌, ◌∙◌, ◌≡◌, ◌≢◌}

pub record IsPaidIn {W : Type 0} ⦃c : Chain W⦄ (a : DepositAccounts) (amm : AmmInfo) (m : Deposited)
    (w w' : W) : Type 0 where
  pub mid : W
  pub last : W
  pub coin_moved :
      IsTransferred a.user_source_coin.key a.amm_coin_vault.key m.deduct_coin_amount w mid
  pub pc_moved : IsTransferred a.user_source_pc.key a.amm_pc_vault.key m.deduct_pc_amount mid last
  pub lp_minted :
      c.invoke_signed last
        (mint_to a.token_program.key a.amm_lp_mint.key a.user_dest_lp.key a.amm_authority.key
          m.mint_lp_amount)
        (some (record { amm_seed = authority_amm; nonce = amm.nonce % 2 ^ 8 }))
      ≡ ok w'

module _ {W : Type 0} ⦃c : Chain W⦄ (w : W) where
  -- Nobody deposits out of a vault of the pool.
  pub check_deposit-apart :
      (program_id : ℕ) (a : DepositAccounts) (amm : AmmInfo) (args : DepositInstruction)
      → check_deposit w program_id a amm args ≡ ok tt
      → (a.user_source_coin.key ≢ a.amm_coin_vault.key)
        × (a.user_source_pc.key ≢ a.amm_pc_vault.key)
  unfolding check_deposit check_assert_eq
  check_deposit-apart program_id a amm args e =
      let found : (a.amm_coin_vault.key ≡ amm.coin_vault)
          × (a.user_source_coin.key ≢ amm.coin_vault)
          × (a.amm_pc_vault.key ≡ amm.pc_vault)
          × (a.user_source_pc.key ≢ amm.pc_vault) =
        ground arith in
      (λ q. found.1 (q ∙ found.0), λ q. found.3 (q ∙ found.2))

  pub deposit_tokens-IsPaidIn :
      (l : Ledger W) (a : DepositAccounts) (amm : AmmInfo) (m : Deposited) {w' : W}
      → a.user_source_coin.key ≢ a.amm_coin_vault.key
      → a.user_source_pc.key ≢ a.amm_pc_vault.key
      → deposit_tokens a amm m w ≡ ok w'
      → IsPaidIn a amm m w w'
  unfolding deposit_tokens token_transfer token_mint_to
  deposit_tokens-IsPaidIn l a amm m coin_apart pc_apart e =
      let (w1, e1, r1) =
        bind-eq-ok
          (token_transfer w a.token_program a.user_source_coin a.amm_coin_vault a.source_owner
            m.deduct_coin_amount)
          _ e in
      let (w2, e2, e3) =
        bind-eq-ok
          (token_transfer w1 a.token_program a.user_source_pc a.amm_pc_vault a.source_owner
            m.deduct_pc_amount)
          _ r1 in
      record {
        mid = w1;
        last = w2;
        coin_moved = l.transferred _ _ _ _ _ _ w w1 e1 coin_apart;
        pc_moved = l.transferred _ _ _ _ _ _ w1 w2 e2 pc_apart;
        lp_minted = e3;
      }
