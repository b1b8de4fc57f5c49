-- ===== src/Tests/Funds.antt =====
-- Runs of the deposit, the withdrawal and the taking of profit of program/src/processor.rs.
use solana_dex_amm.State.Status
use solana_dex_amm.Chain.{AccountInfo}
use solana_dex_amm.Result.{Result, err, not_enough_account_keys, ok, panic}
use solana_dex_amm.Instruction.{DepositInstruction}
use solana_dex_amm.Tests.Chain.{World, account, balances, targets_of, test_chain, token}
use solana_dex_amm.Tests.Data.{pool}
use solana_dex_amm.Math.Exchange.{exchange, exchange_pool_to_token}
use solana_dex_amm.Processor.Withdraw.Amounts.{check_lp, withdraw_amounts}
use solana_dex_amm.Processor.Withdraw.Laws.{
  IsFairWithdrawal, withdraw_accounts-short, withdraw_amounts-IsFairWithdrawal,
}
use solana_dex_amm.Processor.Withdraw.Accounts.{withdraw_accounts}
use solana_dex_amm.Processor.Deposit.Handler.{PoolOutcome, process_deposit}
use solana_dex_amm.Processor.WithdrawPnl.Handler.{process_withdrawpnl}
use solana_dex_amm.State.Amm.{AmmInfo}
use solana_dex_amm.Words.Instance.{std_uint}
use solana_dex_amm.Prelude.{
  List, [], arith, if◌then◌else◌, inl, refl, replicate, some, ◌==◌, ◌∷◌, ◌≡◌,
}

withdraw_amounts-IsFairWithdrawal_example :
    IsFairWithdrawal 333 1000 300 150 (record { coin_amount = 99; pc_amount = 49 })
unfolding check_lp withdraw_amounts exchange_pool_to_token exchange
withdraw_amounts-IsFairWithdrawal_example =
    withdraw_amounts-IsFairWithdrawal ⦃u = std_uint 128⦄ 333 400 1000 1000 300 150
      (record { coin_amount = 99; pc_amount = 49 }) (omega arith) (omega arith) (omega arith) refl
      refl

withdraw_accounts-short_example :
    withdraw_accounts (replicate 20 (account 1 50)) ≡ err not_enough_account_keys
withdraw_accounts-short_example = withdraw_accounts-short (replicate 20 (account 1 50)) (inl refl)

abbrev or_else : {A : Type 0} → A → Result A → A
or_else a panic = a
or_else a (err _) = a
or_else a (ok b) = b

abbrev pnl_world : World
pnl_world = record {
  stored_pool = pool;
  stored_target = targets_of;
  tokens = balances 1000000 2000000;
}

abbrev pnl_list : List AccountInfo
pnl_list =
    account 50 0
    ∷ account 30 99
    ∷ account 31 99
    ∷ account 40 0
    ∷ account 6 8
    ∷ account 1 50
    ∷ account 2 50
    ∷ account 21 50
    ∷ account 22 50
    ∷ account 32 0
    ∷ account 9 99
    ∷ account 8 0
    ∷ account 7 8
    ∷ account 63 8
    ∷ account 64 50
    ∷ account 65 50
    ∷ account 66 0
    ∷ []

abbrev after_pnl : PoolOutcome World
after_pnl =
    or_else (record { world = pnl_world; amm = pool; target = targets_of })
      (process_withdrawpnl ⦃c = test_chain⦄ ⦃u = std_uint 128⦄ ⦃v = std_uint 256⦄ 99 pnl_list
        pnl_world)

abbrev deposit_pool : AmmInfo
deposit_pool = record pool { status = 1 }

abbrev deposit_world : World
deposit_world = record {
  stored_pool = deposit_pool;
  stored_target = targets_of;
  tokens = λ key.
      if key == 21
      then some (token 3 500000)
      else if key == 22
      then some (token 4 500000)
      else balances 1000000 2000000 key;
}

abbrev deposit_list : List AccountInfo
deposit_list =
    account 50 0
    ∷ account 30 99
    ∷ account 40 0
    ∷ account 6 8
    ∷ account 9 99
    ∷ account 5 50
    ∷ account 1 50
    ∷ account 2 50
    ∷ account 7 8
    ∷ account 21 50
    ∷ account 22 50
    ∷ account 23 50
    ∷ account 32 0
    ∷ account 63 8
    ∷ []

abbrev deposit_args : DepositInstruction
deposit_args = record { max_coin_amount = 100000; max_pc_amount = 300000; base_side = 0 }

abbrev after_deposit : PoolOutcome World
after_deposit =
    or_else (record { world = deposit_world; amm = pool; target = targets_of })
      (process_deposit ⦃c = test_chain⦄ ⦃u = std_uint 128⦄ ⦃v = std_uint 256⦄ 99 deposit_list
        deposit_args deposit_world)
