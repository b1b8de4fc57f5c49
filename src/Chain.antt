-- ===== src/Chain.antt =====
-- What the handlers of program/src/processor.rs meet outside the program: accounts, the state that they
-- hold, and calls of other programs. None of it is part of the repository, so it is an interface over a
-- type `W` of states of the chain. A key is a number, and is only compared.
pub mod Invokers
pub mod Load
pub mod Book
pub mod Ledger
use solana_dex_amm.Serum.{Event, MarketState, OpenOrders, Side, Slab}
use solana_dex_amm.Result.{AmmError, Result, err, err_if, not_enough_account_keys, ok}
use solana_dex_amm.State.Target.{TargetOrders}
use solana_dex_amm.State.Amm.{AmmInfo}
use solana_dex_amm.State.Config.{AmmConfig}
use solana_dex_amm.Prelude.{Bool, List, Option, [], not, ℕ, ◌==◌, ◌∷◌}

pub record AccountInfo : Type 0 where
  pub key : ℕ
  pub owner : ℕ
  pub is_signer : Bool
  pub is_writable : Bool

-- `spl_token::state::Account` and `Mint`
pub record TokenAccount : Type 0 where
  pub mint : ℕ
  pub owner : ℕ
  pub amount : ℕ

pub record Mint : Type 0 where
  pub supply : ℕ

-- The seeds that a call is signed with.
pub record Seeds : Type 0 where
  pub amm_seed : List ℕ
  pub nonce : ℕ

-- The bytes of "amm authority".
abbrev pub authority_amm : List ℕ
authority_amm = 97 ∷ 109 ∷ 109 ∷ 32 ∷ 97 ∷ 117 ∷ 116 ∷ 104 ∷ 111 ∷ 114 ∷ 105 ∷ 116 ∷ 121 ∷ []

-- An order for the market, a limit order in all cases. `limit` bounds the work of the market's program.
pub record NewOrder : Type 0 where
  pub side : Side
  pub limit_price : ℕ
  pub max_coin_qty : ℕ
  pub max_native_pc_qty_including_fees : ℕ
  pub client_order_id : ℕ
  pub limit : ℕ

-- The instructions of other programs that are built, by the keys of their accounts.
pub data Call : Type 0 where
  transfer : (token_program source destination authority amount : ℕ) → Call
  burn : (token_program source mint authority amount : ℕ) → Call
  mint_to : (token_program mint destination authority amount : ℕ) → Call
  close_account : (token_program source destination authority : ℕ) → Call
  init_open_orders : (program open_orders open_orders_owner market : ℕ) → Call
  close_open_orders : (program open_orders open_orders_owner destination market : ℕ) → Call
  cancel_orders_by_client_order_ids :
      (program market bids asks open_orders open_orders_owner event_q : ℕ)
      (client_order_ids : List ℕ)
      → Call
  new_order_v3 replace_order_by_client_id :
      (program market open_orders req_q event_q bids asks payer open_orders_owner : ℕ)
      (coin_vault pc_vault token_program rent : ℕ) (srm_account_referral : Option ℕ)
      → NewOrder
      → Call
  settle_funds :
      (program market token_program open_orders open_orders_owner : ℕ)
      (coin_vault coin_wallet pc_vault pc_wallet : ℕ) (referrer_pc_wallet : Option ℕ)
      (vault_signer : ℕ)
      → Call

-- The state of the chain: what an account holds, if it is of the type and has its size, and what a call
-- makes of it. A call fails as the other program fails; building its instruction is a part of it.
pub record Chain (W : Type 0) : Type 0 where
  pub amm_info : W → ℕ → Option AmmInfo
  pub target_orders : W → ℕ → Option TargetOrders
  pub amm_config : W → ℕ → Option AmmConfig
  pub token_account : W → ℕ → Option TokenAccount
  pub mint : W → ℕ → Option Mint
  -- Market::load, with `allow_disabled`, and what is loaded of it
  pub load_market : W → AccountInfo → ℕ → Bool → Result MarketState
  pub load_orders_mut : W → MarketState → AccountInfo → AccountInfo → ℕ → Result OpenOrders
  pub load_orders : W → AccountInfo → Result OpenOrders
  pub load_bids : W → MarketState → AccountInfo → Result Slab
  pub load_asks : W → MarketState → AccountInfo → Result Slab
  pub load_event_queue : W → MarketState → AccountInfo → Option (List Event)
  pub create_program_address : W → Seeds → ℕ → Option ℕ
  -- `Clock::get()?.unix_timestamp as u64`
  pub unix_timestamp : W → Result ℕ
  -- `find_program_address` of the seed of the configuration, for a program
  pub config_address : ℕ → ℕ
  pub spl_token_id : ℕ
  pub amm_owner_id : ℕ
  pub amm_subscriber_id : ℕ
  pub referrer_pc_wallet_id : ℕ
  pub clock_id : ℕ
  pub srm_token_id : ℕ
  pub msrm_token_id : ℕ
  pub openbook_program_id : ℕ
  pub default_key : ℕ
  pub invoke_signed : W → Call → Option Seeds → Result W

-- `next_account_info`
unfoldable pub next_account_info : List AccountInfo → Result (AccountInfo × List AccountInfo)
next_account_info [] = err not_enough_account_keys
next_account_info (a ∷ accounts) = ok (a, accounts)

-- program/src/log.rs, `check_assert_eq!`
unfoldable pub check_assert_eq : ℕ → ℕ → AmmError → Result (Unit {0})
check_assert_eq input expected e = err_if (not (input == expected)) e
