-- ===== src/Processor/Swap/Prepare/Laws.antt =====
-- What a swap has checked before the amounts are computed.
use solana_dex_amm.State.Status
use solana_dex_amm.Chain.{AccountInfo, Chain, TokenAccount, check_assert_eq}
use solana_dex_amm.Result.{Ensures, ok, ok-Ensures, step}
use solana_dex_amm.Processor.Swap.Prepare.{
  Prepared, SwapAccounts, check_swap, prepare_swap, swap_accounts, swap_direction, swap_status,
  swap_totals,
}
use solana_dex_amm.State.Amm.{AmmInfo}
use solana_dex_amm.State.Status.{AmmStatus, orderbook_permission, swap_permission}
use solana_dex_amm.Chain.Load.{load_amm_checked, unpack_token_account}
use solana_dex_amm.Prelude.{List, arith, refl, some, true, ℕ, ◌↔◌, ◌≡◌, ◌≢◌, ◌≤◌, ◌⊎◌}

-- The checks of the accounts against the pool.
pub record IsChecked (a : SwapAccounts) (amm : AmmInfo) : Type 0 where
  pub signed : a.user_source_owner.is_signer ≡ true
  pub coin_vault : a.amm_coin_vault.key ≡ amm.coin_vault
  pub pc_vault : a.amm_pc_vault.key ≡ amm.pc_vault
  pub open_orders : a.amm_open_orders.key ≡ amm.open_orders
  pub market_program : a.market_program.key ≡ amm.market_program
  pub source_not_pc : a.user_source.key ≢ amm.pc_vault
  pub source_not_coin : a.user_source.key ≢ amm.coin_vault
  pub destination_not_pc : a.user_destination.key ≢ amm.pc_vault
  pub destination_not_coin : a.user_destination.key ≢ amm.coin_vault

-- How the status may change in a swap: the pool stays, or a waiting pool opens, or a pool that was only on
-- the order book gets its liquidity.
pub data SwapStep (now : ℕ) (amm : AmmInfo) (next : ℕ) : Type 0 where
  stays : (amm.status ≡ 1) ⊎ (amm.status ≡ 6) → next ≡ amm.status → SwapStep now amm next
  opens : amm.status ≡ 7 → amm.state_data.pool_open_time ≤ now → next ≡ 6 → SwapStep now amm next
  initializes :
      amm.status ≡ 5
      → amm.state_data.orderbook_to_init_time ≤ now
      → next ≡ 1
      → SwapStep now amm next

module _ {W : Type 0} ⦃c : Chain W⦄ (w : W) where
  check_swap-IsChecked :
      (program_id : ℕ) (a : SwapAccounts) (amm : AmmInfo)
      → check_swap w program_id a amm ≡ ok tt
      → IsChecked a amm
  unfolding check_swap check_assert_eq
  check_swap-IsChecked program_id a amm e = ground arith

  swap_status_lem :
      (amm amm' : AmmInfo) (now : ℕ)
      → c.unix_timestamp w ≡ ok now
      → swap_status w amm ≡ ok amm'
      → SwapStep now amm amm'.status × (amm' ≡ record amm { status = amm'.status })
  unfolding swap_status Status.from_u64 swap_permission Status.into_u64
  swap_status_lem amm amm' now clock e = ground arith

  -- Given the time, a swap lets a pool go on with a status exactly if that is a step of its state
  -- machine: a pool that is Initialized or SwapOnly keeps its status, a waiting pool becomes SwapOnly from
  -- its opening time on, and a pool on the order book only becomes Initialized from its time on.
  pub swap_status_iff :
      (amm : AmmInfo) (now next : ℕ)
      → c.unix_timestamp w ≡ ok now
      → (swap_status w amm ≡ ok (record amm { status = next })) ↔ SwapStep now amm next
  unfolding swap_status Status.from_u64 swap_permission Status.into_u64
  swap_status_iff amm now next clock = (λ e. ground arith, λ s. ground arith)

-- What the first half of a swap leaves.
pub record IsPrepared {W : Type 0} ⦃c : Chain W⦄ (w : W) (accounts : List AccountInfo)
    (p : Prepared) : Type 0 where
  pub parsed : swap_accounts accounts ≡ ok p.accounts
  pub loaded : AmmInfo
  pub loaded_read : c.amm_info w p.accounts.amm_info.key ≡ some loaded
  pub status : AmmStatus
  pub status_read : Status.from_u64 loaded.status ≡ ok status
  pub book : p.enable_orderbook ≡ orderbook_permission status
  pub amm_eq : p.amm ≡ record loaded { status = p.amm.status }
  pub checked : IsChecked p.accounts loaded
  pub coin_vault : TokenAccount
  pub pc_vault : TokenAccount
  pub source : TokenAccount
  pub coin_read : c.token_account w p.accounts.amm_coin_vault.key ≡ some coin_vault
  pub pc_read : c.token_account w p.accounts.amm_pc_vault.key ≡ some pc_vault
  pub source_read : c.token_account w p.accounts.user_source.key ≡ some source
  pub coin_amount : coin_vault.amount ≡ p.coin_vault_amount
  pub pc_amount : pc_vault.amount ≡ p.pc_vault_amount
  pub source_amount : source.amount ≡ p.user_source_amount
  pub totals :
      swap_totals w p.enable_orderbook p.accounts p.amm p.pc_vault_amount p.coin_vault_amount
      ≡ ok (p.bids, p.asks, p.total_pc, p.total_coin)

module _ {W : Type 0} ⦃c : Chain W⦄ (w : W) where
  unpack_token_account_lem :
      (account : AccountInfo) (program : ℕ) {t : TokenAccount}
      → unpack_token_account w account program ≡ ok t
      → c.token_account w account.key ≡ some t
  unfolding unpack_token_account
  unpack_token_account_lem account program e = ground arith

  pub load_amm_checked_lem :
      (account : AccountInfo) (program : ℕ) {amm : AmmInfo}
      → load_amm_checked w account program ≡ ok amm
      → c.amm_info w account.key ≡ some amm
  unfolding load_amm_checked
  load_amm_checked_lem account program e = ground arith

  swap_status_same :
      (amm amm' : AmmInfo)
      → swap_status w amm ≡ ok amm'
      → amm' ≡ record amm { status = amm'.status }
  unfolding swap_status
  swap_status_same amm amm' e = ground arith

  pub prepare_swap-Ensures :
      (program_id : ℕ) (accounts : List AccountInfo)
      → Ensures (IsPrepared w accounts) (prepare_swap w program_id accounts)
  unfolding prepare_swap
  prepare_swap-Ensures program_id accounts = step (swap_accounts accounts) _ λ a parsed.
      step (load_amm_checked w a.amm_info program_id) _ λ loaded load.
        step (Status.from_u64 loaded.status) _ λ status from.
          step (check_swap w program_id a loaded) _ λ _ check.
            step (unpack_token_account w a.amm_coin_vault a.token_program.key) _ λ coin_vault coin.
              step (unpack_token_account w a.amm_pc_vault a.token_program.key) _ λ pc_vault pc.
                step (unpack_token_account w a.user_source a.token_program.key) _ λ source src.
                  step (unpack_token_account w a.user_destination a.token_program.key) _
                    λ destination _. step (swap_status w loaded) _ λ amm status_eq.
                      step
                        (swap_totals w (orderbook_permission status) a amm pc_vault.amount
                          coin_vault.amount)
                        _
                        λ totals totals_eq.
                          step
                            (swap_direction source.mint destination.mint coin_vault.mint
                              pc_vault.mint)
                            _
                            λ direction _. ok-Ensures _ (record {
                              parsed = parsed;
                              loaded = loaded;
                              loaded_read = load_amm_checked_lem a.amm_info program_id load;
                              status = status;
                              status_read = from;
                              book = refl;
                              amm_eq = swap_status_same loaded amm status_eq;
                              checked = check_swap-IsChecked w program_id a loaded check;
                              coin_vault = coin_vault;
                              pc_vault = pc_vault;
                              source = source;
                              coin_read =
                                  unpack_token_account_lem a.amm_coin_vault a.token_program.key
                                    coin;
                              pc_read =
                                  unpack_token_account_lem a.amm_pc_vault a.token_program.key pc;
                              source_read =
                                  unpack_token_account_lem a.user_source a.token_program.key src;
                              coin_amount = refl;
                              pc_amount = refl;
                              source_amount = refl;
                              totals = totals_eq;
                            })
