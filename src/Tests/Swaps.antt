-- ===== src/Tests/Swaps.antt =====
-- Runs of the swaps of program/src/processor.rs from the accounts to the transfers, on a chain with one
-- pool that is off the order book, and of one on it.
use solana_dex_amm.State.Status
use solana_dex_amm.Chain.{AccountInfo, TokenAccount, check_assert_eq, next_account_info}
use solana_dex_amm.Result.{Result, err, ok, panic}
use solana_dex_amm.Tests.Chain.{
  World, account, market_coin_vault_key, run_call, send, test_chain, test_chain-Ledger, update,
}
use solana_dex_amm.Tests.Data.{pool, targets}
use solana_dex_amm.Math.CeilDiv.{checked_ceil_div}
use solana_dex_amm.Math.Swap.{pc2_coin, swap_token_amount_base_in, swap_token_amount_base_out}
use solana_dex_amm.Math.Vault.{
  calc_exact_vault_in_serum, calc_total_without_take_pnl, calc_total_without_take_pnl_no_orderbook,
  without_take_pnl,
}
use solana_dex_amm.Processor.Swap.{
  add_fee, base_in_amounts, base_in_fee, base_out_amounts, total_out,
}
use solana_dex_amm.Processor.Swap.Prepare.{
  Prepared, SwapAccounts, check_swap, prepare_swap, swap_accounts, swap_direction, swap_status,
  swap_totals,
}
use solana_dex_amm.Processor.Swap.Product.{
  process_swap_base_in-product, process_swap_base_out-product,
}
use solana_dex_amm.Processor.Swap.Settle.{
  Outcome, accumulate, cancel_batches, exchange_tokens, free_funds, prepare_funds,
  process_swap_base_in, process_swap_base_out, settle_swap,
}
use solana_dex_amm.Processor.Swap.Settle.Asks.{ChecksVault, process_swap_base_out-asks}
use solana_dex_amm.Processor.Swap.Prepare.Laws.{SwapStep, swap_status_iff}
use solana_dex_amm.State.Status.{orderbook_permission, swap_permission}
use solana_dex_amm.Words.Instance.{std_uint}
use solana_dex_amm.Prelude.{
  List, Option, [], arith, if◌then◌else◌, inl, none, refl, some, true, ℕ, ◌*◌, ◌==◌, ◌^◌, ◌↔◌, ◌∷◌,
  ◌≡◌, ◌≢◌, ◌≤◌,
}
use solana_dex_amm.Chain.Book.{get_amm_orders, sort_by}
use solana_dex_amm.Chain.Load.{
  authority_id, load_amm_checked, load_config_checked, load_serum_market_order, load_target_checked,
  unpack_mint, unpack_token_account,
}
use solana_dex_amm.Chain.Invokers.{token_transfer, token_transfer_with_authority}

-- an account of the token program, and any other
abbrev accounts : List AccountInfo
accounts =
    account 50 0
    ∷ account 30 99
    ∷ account 40 0
    ∷ account 6 8
    ∷ account 1 50
    ∷ account 2 50
    ∷ account 8 0
    ∷ account 7 8
    ∷ account 61 8
    ∷ account 62 8
    ∷ account 63 8
    ∷ account 64 50
    ∷ account 65 50
    ∷ account 66 0
    ∷ account 21 50
    ∷ account 22 50
    ∷ account 23 0
    ∷ []

abbrev token : (mint amount : ℕ) → TokenAccount
token mint amount = record { mint = mint; owner = 40; amount = amount }

-- the pool's vaults, and what the user pays with and into
abbrev balances : (source_mint destination_mint : ℕ) → ℕ → Option TokenAccount
balances source_mint destination_mint key =
    if key == 1
    then some (token 3 2000000)
    else if key == 2
    then some (token 4 1000000)
    else if key == 21
    then some (token source_mint 20000)
    else if key == 22
    then some (token destination_mint 0)
    else none

abbrev world : World
world = record { stored_pool = pool; stored_target = targets; tokens = balances 3 4 }

abbrev or_else : {A : Type 0} → A → Result A → A
or_else a panic = a
or_else a (err _) = a
or_else a (ok b) = b

abbrev swap_parsed : SwapAccounts
swap_parsed = record {
  token_program = account 50 0;
  amm_info = account 30 99;
  amm_authority = account 40 0;
  amm_open_orders = account 6 8;
  amm_coin_vault = account 1 50;
  amm_pc_vault = account 2 50;
  market_program = account 8 0;
  market = account 7 8;
  market_bids = account 61 8;
  market_asks = account 62 8;
  market_event_queue = account 63 8;
  market_coin_vault = account 64 50;
  market_pc_vault = account 65 50;
  market_vault_signer = account 66 0;
  user_source = account 21 50;
  user_destination = account 22 50;
  user_source_owner = account 23 0;
}

-- the user pays 10000 of coin
abbrev after_in : Outcome World
after_in =
    or_else (record { world = world; amm = pool })
      (process_swap_base_in ⦃c = test_chain⦄ ⦃u = std_uint 128⦄ 99 accounts
        (record { amount_in = 10000; minimum_amount_out = 4000 }) world)

process_swap_base_in-product_example : 1000500 * 2000300 ≤ 995536 * 2010300
unfolding next_account_info check_assert_eq load_amm_checked load_target_checked load_config_checked
    unpack_token_account unpack_mint load_serum_market_order authority_id token_transfer
    token_transfer_with_authority swap_accounts swap_direction check_swap swap_status swap_totals
    prepare_swap accumulate cancel_batches free_funds exchange_tokens prepare_funds settle_swap
    process_swap_base_in process_swap_base_out total_out base_in_fee base_in_amounts add_fee
    base_out_amounts checked_ceil_div swap_token_amount_base_in swap_token_amount_base_out
    calc_exact_vault_in_serum without_take_pnl calc_total_without_take_pnl
    calc_total_without_take_pnl_no_orderbook send run_call Status.from_u64 Status.into_u64
    swap_permission orderbook_permission
process_swap_base_in-product_example =
    process_swap_base_in-product ⦃c = test_chain⦄ test_chain-Ledger world 99 accounts swap_parsed
      pool ⦃u = std_uint 128⦄ (record { amount_in = 10000; minimum_amount_out = 4000 }) after_in
      1000500 2000300 995536 2010300 (omega arith) refl refl (inl refl)
      (λ e. absurd (omega (arith, e))) refl refl refl

-- the user asks for 4964 of pc
abbrev after_out : Outcome World
after_out =
    or_else (record { world = world; amm = pool })
      (process_swap_base_out ⦃c = test_chain⦄ ⦃u = std_uint 128⦄ 99 accounts
        (record { max_amount_in = 10000; amount_out = 4964 }) world)

process_swap_base_out-product_example : 1000500 * 2000300 ≤ 995536 * 2010300
unfolding next_account_info check_assert_eq load_amm_checked load_target_checked load_config_checked
    unpack_token_account unpack_mint load_serum_market_order authority_id token_transfer
    token_transfer_with_authority swap_accounts swap_direction check_swap swap_status swap_totals
    prepare_swap accumulate cancel_batches free_funds exchange_tokens prepare_funds settle_swap
    process_swap_base_in process_swap_base_out total_out base_in_fee base_in_amounts add_fee
    base_out_amounts checked_ceil_div swap_token_amount_base_in swap_token_amount_base_out
    calc_exact_vault_in_serum without_take_pnl calc_total_without_take_pnl
    calc_total_without_take_pnl_no_orderbook send run_call Status.from_u64 Status.into_u64
    swap_permission orderbook_permission
process_swap_base_out-product_example =
    process_swap_base_out-product ⦃c = test_chain⦄ test_chain-Ledger world 99 accounts swap_parsed
      pool ⦃u = std_uint 128⦄ (record { max_amount_in = 10000; amount_out = 4964 }) after_out
      1000500 2000300 995536 2010300 refl refl (inl refl) (λ e. absurd (omega (arith, e))) refl refl
      refl

-- a pool on the order book, of which a user buys more coin than its vault holds
abbrev on_book_world : World
on_book_world = record {
  stored_pool = record pool { status = 1 };
  stored_target = targets;
  tokens = update (balances 4 3) 21 (token 4 (10 ^ 12));
}

abbrev on_book_prepared : Prepared
on_book_prepared = record {
  accounts = swap_parsed;
  amm = record pool { status = 1 };
  enable_orderbook = true;
  coin_vault_amount = 2000000;
  pc_vault_amount = 1000000;
  user_source_amount = 10 ^ 12;
  bids = [];
  asks = [];
  total_pc = 1000500;
  total_coin = 2000300;
  direction = pc2_coin;
}

test_checks : ChecksVault World ⦃c = test_chain⦄ (λ market. market_coin_vault_key)
unfolding run_call
test_checks = record {
  refused =
      λ program market token_program open_orders owner coin_vault coin_wallet pc_vault pc_wallet
          referrer vault_signer seeds w w' wrong e.
        ground arith;
}

process_swap_base_out-asks_example :
    process_swap_base_out ⦃c = test_chain⦄ ⦃u = std_uint 128⦄ 99 accounts
      (record { max_amount_in = 10 ^ 12; amount_out = 2000100 })
      on_book_world
    ≢ ok after_out
unfolding next_account_info check_assert_eq load_amm_checked load_target_checked load_config_checked
    unpack_token_account unpack_mint load_serum_market_order authority_id token_transfer
    token_transfer_with_authority swap_accounts swap_direction check_swap swap_status swap_totals
    prepare_swap accumulate cancel_batches free_funds exchange_tokens prepare_funds settle_swap
    process_swap_base_in process_swap_base_out total_out base_in_fee base_in_amounts add_fee
    base_out_amounts checked_ceil_div swap_token_amount_base_in swap_token_amount_base_out
    calc_exact_vault_in_serum without_take_pnl calc_total_without_take_pnl
    calc_total_without_take_pnl_no_orderbook send run_call Status.from_u64 Status.into_u64
    swap_permission orderbook_permission get_amm_orders sort_by
process_swap_base_out-asks_example =
    process_swap_base_out-asks ⦃c = test_chain⦄ (λ market. market_coin_vault_key) test_checks
      ⦃u = std_uint 128⦄ 99 accounts (record { max_amount_in = 10 ^ 12; amount_out = 2000100 })
      on_book_world on_book_prepared after_out refl refl refl (omega arith)
      (λ e. absurd (omega (arith, e)))

swap_status_iff_example :
    (swap_status ⦃c = test_chain⦄ world (record pool { status = 7 })
      ≡ ok (record pool { status = 6 }))
    ↔ SwapStep 1700000000 (record pool { status = 7 }) 6
swap_status_iff_example =
    swap_status_iff ⦃c = test_chain⦄ world (record pool { status = 7 }) 1700000000 6 refl
