-- ===== src/Processor/Swap/Settle/Asks.antt =====
-- `process_swap_base_out`, in the branch from pc to coin: the accounts of the call that settles funds.
use solana_dex_amm.Chain.{AccountInfo, Chain, Seeds, settle_funds}
use solana_dex_amm.Serum.{LeafNode}
use solana_dex_amm.Result.{bind-eq-ok, ok}
use solana_dex_amm.Instruction.{SwapInstructionBaseOut}
use solana_dex_amm.Math.Swap.{SwapDirection, coin2_pc, pc2_coin}
use solana_dex_amm.Processor.Swap.{base_out_amounts}
use solana_dex_amm.Processor.Orders.{collect_order_ids}
use solana_dex_amm.Processor.Swap.Output.{base_out_checks}
use solana_dex_amm.Processor.Swap.Prepare.{Prepared, SwapAccounts, prepare_swap}
use solana_dex_amm.Processor.Swap.Settle.{
  Outcome, cancel_batches, free_funds, order_ids, prepare_funds, process_swap_base_out, seeds_of,
  settle_swap,
}
use solana_dex_amm.State.Amm.{AmmInfo}
use solana_dex_amm.Words.{Uint}
use solana_dex_amm.Prelude.{List, Option, [], arith, lt→ltb, true, ℕ, ◌<◌, ◌≡◌, ◌≢◌}
use solana_dex_amm.Chain.Invokers.{invoke_dex_settle_funds}

-- What the market's program is documented to check: the coin vault of a market is the one it was made with.
-- `coin_vault_of` gives it for a market.
pub record ChecksVault (W : Type 0) ⦃c : Chain W⦄ (coin_vault_of : ℕ → ℕ) : Type 0 where
  pub refused :
      (program market token_program open_orders owner coin_vault coin_wallet pc_vault pc_wallet : ℕ)
      (referrer : Option ℕ) (vault_signer : ℕ) (seeds : Option Seeds) (w w' : W)
      → coin_vault ≢ coin_vault_of market
      → c.invoke_signed w
          (settle_funds program market token_program open_orders owner coin_vault coin_wallet
            pc_vault pc_wallet referrer vault_signer)
          seeds
        ≢ ok w'

module _ {W : Type 0} ⦃c : Chain W⦄ (coin_vault_of : ℕ → ℕ) (k : ChecksVault W coin_vault_of) where
  free_funds-refused :
      (a : SwapAccounts) (amm : AmmInfo) (v : AccountInfo) (orders : List LeafNode)
      (amount_out vault_amount : ℕ) (w : W) {w' : W}
      → v.key ≢ coin_vault_of a.market.key
      → vault_amount < amount_out
      → free_funds a amm v orders amount_out vault_amount w ≢ ok w'
  unfolding free_funds invoke_dex_settle_funds
  free_funds-refused a amm v orders amount_out vault_amount w {w'} wrong less e =
      let (batches, _, r1) = bind-eq-ok (collect_order_ids (order_ids orders) []) _ e in
      let (w1, _, r2) = bind-eq-ok (cancel_batches a (seeds_of amm) batches w) _ r1 in
      k.refused _ _ _ _ _ _ _ _ _ _ _ _ w1 w' wrong (rw (lt→ltb _ _ less) at r2)

  prepare_funds-refused :
      (d : SwapDirection) (v : AccountInfo) (p : Prepared) (amount_out : ℕ) (w : W) {w' : W}
      → d ≡ pc2_coin
      → p.enable_orderbook ≡ true
      → v.key ≢ coin_vault_of p.accounts.market.key
      → p.coin_vault_amount < amount_out
      → prepare_funds d v p amount_out w ≢ ok w'
  unfolding prepare_funds
  prepare_funds-refused coin2_pc v p amount_out w way on wrong less e = absurd (ground arith)
  prepare_funds-refused pc2_coin v p amount_out w way on wrong less e =
      free_funds-refused p.accounts p.amm v p.asks amount_out p.coin_vault_amount w wrong less
        (rw on at e)

  -- Where the order book is used, the market's program refuses to settle funds to a coin vault that is not
  -- the market's, and the account of the asks is not that vault, a swap with a fixed output from pc to coin
  -- never succeeds if its output is more than the pool's coin vault holds.
  pub process_swap_base_out-asks :
      ⦃u : Uint 128⦄ (program_id : ℕ) (accounts : List AccountInfo) (swap : SwapInstructionBaseOut)
      (w : W) (p : Prepared) (o : Outcome W)
      → prepare_swap w program_id accounts ≡ ok p
      → p.enable_orderbook ≡ true
      → p.direction ≡ pc2_coin
      → p.coin_vault_amount < swap.amount_out
      → p.accounts.market_asks.key ≢ coin_vault_of p.accounts.market.key
      → process_swap_base_out program_id accounts swap w ≢ ok o
  unfolding process_swap_base_out settle_swap
  process_swap_base_out-asks program_id accounts swap w p o prepared on way less wrong e =
      let e' = rw prepared at e in
      let (m, e2, r2) =
        bind-eq-ok
          (base_out_amounts p.amm.fees swap p.user_source_amount p.total_pc p.total_coin
            p.direction)
          _ e' in
      let out_eq =
        (base_out_checks p.amm.fees p.user_source_amount p.total_pc p.total_coin p.direction swap m
          e2).4 in
      let (w1, funds, _) =
        bind-eq-ok (prepare_funds p.direction p.accounts.market_asks p m.amount_out w) _ r2 in
      prepare_funds-refused p.direction p.accounts.market_asks p m.amount_out w way on wrong
        (omega (arith, out_eq, less)) funds
