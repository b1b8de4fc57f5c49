-- ===== src/Processor/Swap/Settle.antt =====
-- program/src/processor.rs: the second half of `process_swap_base_in` and `process_swap_base_out`: the
-- orders that are cancelled, the transfers, the accumulated amounts, and the two handlers as a whole.
pub mod Laws
pub mod Asks
pub mod Kept
use solana_dex_amm.Words.Std
use solana_dex_amm.Result.{Result, ok, unwrap, ◌>>=◌, ◌>>◌}
use solana_dex_amm.Chain.{AccountInfo, Chain, Seeds, authority_amm}
use solana_dex_amm.Serum.{LeafNode}
use solana_dex_amm.Instruction.{SwapInstructionBaseIn, SwapInstructionBaseOut}
use solana_dex_amm.Math.Swap.{SwapDirection, coin2_pc, pc2_coin}
use solana_dex_amm.Processor.Swap.{Amounts, base_in_amounts, base_out_amounts}
use solana_dex_amm.Processor.Orders.{collect_order_ids}
use solana_dex_amm.Processor.Swap.Prepare.{Prepared, SwapAccounts, prepare_swap}
use solana_dex_amm.State.Amm.{AmmInfo}
use solana_dex_amm.Words.{Uint}
use solana_dex_amm.Prelude.{List, [], if◌then◌else◌, ltb, some, ℕ, ◌%◌, ◌^◌, ◌∷◌}
use solana_dex_amm.Chain.Invokers.{
  invoke_dex_cancel_orders_by_client_order_ids, invoke_dex_settle_funds, token_transfer,
  token_transfer_with_authority,
}

-- what a handler leaves: the state of the chain, and the pool
pub record Outcome (W : Type 0) : Type 0 where
  pub world : W
  pub amm : AmmInfo

-- the amounts and the fee that are added up
unfoldable pub accumulate : SwapDirection → Amounts → AmmInfo → Result AmmInfo
accumulate coin2_pc m amm = do
  swap_coin_in_amount ← unwrap (Std.checked_add 128 amm.state_data.swap_coin_in_amount m.amount_in)
  swap_pc_out_amount ← unwrap (Std.checked_add 128 amm.state_data.swap_pc_out_amount m.amount_out)
  swap_acc_coin_fee ← unwrap (Std.checked_add 64 amm.state_data.swap_acc_coin_fee m.swap_fee)
  ok (record amm {
    state_data = record (amm.state_data) {
      swap_coin_in_amount = swap_coin_in_amount;
      swap_pc_out_amount = swap_pc_out_amount;
      swap_acc_coin_fee = swap_acc_coin_fee;
    };
  })
accumulate pc2_coin m amm = do
  swap_pc_in_amount ← unwrap (Std.checked_add 128 amm.state_data.swap_pc_in_amount m.amount_in)
  swap_coin_out_amount ←
      unwrap (Std.checked_add 128 amm.state_data.swap_coin_out_amount m.amount_out)
  swap_acc_pc_fee ← unwrap (Std.checked_add 64 amm.state_data.swap_acc_pc_fee m.swap_fee)
  ok (record amm {
    state_data = record (amm.state_data) {
      swap_pc_in_amount = swap_pc_in_amount;
      swap_coin_out_amount = swap_coin_out_amount;
      swap_acc_pc_fee = swap_acc_pc_fee;
    };
  })

abbrev pub order_ids : List LeafNode → List ℕ
order_ids [] = []
order_ids (order ∷ orders) = order.client_order_id ∷ order_ids orders

-- the seeds of the pool's authority
abbrev pub seeds_of : AmmInfo → Seeds
seeds_of amm = record { amm_seed = authority_amm; nonce = amm.nonce % 2 ^ 8 }

abbrev pub vault_in : SwapDirection → SwapAccounts → AccountInfo
vault_in coin2_pc a = a.amm_coin_vault
vault_in pc2_coin a = a.amm_pc_vault

abbrev pub vault_out : SwapDirection → SwapAccounts → AccountInfo
vault_out coin2_pc a = a.amm_pc_vault
vault_out pc2_coin a = a.amm_coin_vault

module _ {W : Type 0} ⦃c : Chain W⦄ where
  -- one call for each array of ids
  unfoldable pub cancel_batches : SwapAccounts → Seeds → List (List ℕ) → W → Result W
  unfolding invoke_dex_cancel_orders_by_client_order_ids
  cancel_batches a seeds [] w = ok w
  cancel_batches a seeds (ids ∷ batches) w = do
    w' ←
        invoke_dex_cancel_orders_by_client_order_ids w a.market_program a.market a.market_bids
          a.market_asks a.amm_open_orders a.amm_authority a.market_event_queue seeds ids
    cancel_batches a seeds batches w'

  -- the orders of one side are cancelled, and funds settled if the vault has too little
  unfoldable pub free_funds :
      SwapAccounts
      → AmmInfo
      → (settle_coin_vault : AccountInfo) → List LeafNode
      → (amount_out vault_amount : ℕ) → W
      → Result W
  unfolding invoke_dex_settle_funds
  free_funds a amm settle_coin_vault orders amount_out vault_amount w = do
    batches ← collect_order_ids (order_ids orders) []
    w' ← cancel_batches a (seeds_of amm) batches w
    if ltb vault_amount amount_out
        then invoke_dex_settle_funds w' a.market_program a.market a.amm_open_orders a.amm_authority
            settle_coin_vault a.market_pc_vault a.amm_coin_vault a.amm_pc_vault
            a.market_vault_signer a.token_program (some a.amm_pc_vault) (seeds_of amm)
        else ok w'

  -- the user pays into one vault and is paid out of the other
  unfoldable pub exchange_tokens :
      SwapAccounts → AmmInfo → (vault_to vault_from : AccountInfo) → Amounts → W → Result W
  unfolding token_transfer token_transfer_with_authority
  exchange_tokens a amm vault_to vault_from m w = do
    w' ← token_transfer w a.token_program a.user_source vault_to a.user_source_owner m.amount_in
    token_transfer_with_authority w' a.token_program vault_from a.user_destination a.amm_authority
        (seeds_of amm) m.amount_out

  -- where the order book is used: the orders on the side of the token that goes out
  unfoldable pub prepare_funds :
      SwapDirection → (settle_coin_vault : AccountInfo) → Prepared → (amount_out : ℕ) → W → Result W
  prepare_funds coin2_pc settle_coin_vault p amount_out w =
      if p.enable_orderbook
      then free_funds p.accounts p.amm p.accounts.market_coin_vault p.bids amount_out
          p.pc_vault_amount w
      else ok w
  prepare_funds pc2_coin settle_coin_vault p amount_out w =
      if p.enable_orderbook
      then free_funds p.accounts p.amm settle_coin_vault p.asks amount_out p.coin_vault_amount w
      else ok w

  -- `settle_coin_vault` is what the branch from pc to coin hands on as the market's coin vault
  unfoldable pub settle_swap :
      (settle_coin_vault : AccountInfo) → Prepared → Amounts → W → Result (Outcome W)
  settle_swap settle_coin_vault p m w = do
    w1 ← prepare_funds p.direction settle_coin_vault p m.amount_out w
    w2 ←
        exchange_tokens p.accounts p.amm (vault_in p.direction p.accounts)
          (vault_out p.direction p.accounts) m w1
    amm ← accumulate p.direction m p.amm
    ok (record { world = w2; amm = amm })

module _ {W : Type 0} ⦃c : Chain W⦄ ⦃u : Uint 128⦄ where
  unfoldable pub process_swap_base_in :
      ℕ → List AccountInfo → SwapInstructionBaseIn → W → Result (Outcome W)
  process_swap_base_in program_id accounts swap w = do
    p ← prepare_swap w program_id accounts
    m ← base_in_amounts p.amm.fees swap p.user_source_amount p.total_pc p.total_coin p.direction
    settle_swap p.accounts.market_coin_vault p m w

  -- The branch from pc to coin hands on the asks in the place of the market's coin vault.
  unfoldable pub process_swap_base_out :
      ℕ → List AccountInfo → SwapInstructionBaseOut → W → Result (Outcome W)
  process_swap_base_out program_id accounts swap w = do
    p ← prepare_swap w program_id accounts
    m ← base_out_amounts p.amm.fees swap p.user_source_amount p.total_pc p.total_coin p.direction
    settle_swap p.accounts.market_asks p m w
