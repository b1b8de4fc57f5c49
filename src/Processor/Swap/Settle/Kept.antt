-- ===== src/Processor/Swap/Settle/Kept.antt =====
-- What a swap leaves of the state of the pool's orders, on the order book or off it.
use solana_dex_amm.Chain.{AccountInfo, Chain}
use solana_dex_amm.Result.{bind-eq-ok, ok, ok_injective}
use solana_dex_amm.Instruction.{SwapInstructionBaseIn, SwapInstructionBaseOut}
use solana_dex_amm.Math.Swap.{SwapDirection, coin2_pc, pc2_coin}
use solana_dex_amm.Processor.Swap.{Amounts, base_in_amounts, base_out_amounts}
use solana_dex_amm.Processor.Swap.Prepare.{Prepared, SwapAccounts, prepare_swap, swap_accounts}
use solana_dex_amm.Processor.Swap.Settle.{
  Outcome, accumulate, exchange_tokens, prepare_funds, process_swap_base_in, process_swap_base_out,
  settle_swap, vault_in, vault_out,
}
use solana_dex_amm.Processor.Swap.Prepare.Laws.{prepare_swap-Ensures}
use solana_dex_amm.State.Amm.{AmmInfo}
use solana_dex_amm.Words.{Uint}
use solana_dex_amm.Prelude.{List, ap, arith, some, sym, ℕ, ◌∙◌, ◌≡◌}

accumulate-state :
    (d : SwapDirection) (m : Amounts) (amm : AmmInfo) {amm' : AmmInfo}
    → accumulate d m amm ≡ ok amm'
    → amm'.state ≡ amm.state
unfolding accumulate
accumulate-state coin2_pc m amm e = ground arith
accumulate-state pc2_coin m amm e = ground arith

-- The pool that a swap loads, and its state after.
pub record KeepsState {W : Type 0} ⦃c : Chain W⦄ (accounts : List AccountInfo) (w : W)
    (o : Outcome W) : Type 0 where
  pub parsed : SwapAccounts
  pub parsed_eq : swap_accounts accounts ≡ ok parsed
  pub amm : AmmInfo
  pub read : c.amm_info w parsed.amm_info.key ≡ some amm
  pub state_same : o.amm.state ≡ amm.state

module _ {W : Type 0} ⦃c : Chain W⦄ (program_id : ℕ) (accounts : List AccountInfo) (w : W) where
  settle_swap-KeepsState :
      (v : AccountInfo) (p : Prepared) (m : Amounts) (o : Outcome W)
      → prepare_swap w program_id accounts ≡ ok p
      → settle_swap v p m w ≡ ok o
      → KeepsState accounts w o
  unfolding settle_swap
  settle_swap-KeepsState v p m o prepared e =
      let (w1, _, e2) = bind-eq-ok (prepare_funds p.direction v p m.amount_out w) _ e in
      let (w2, _, e3) =
        bind-eq-ok
          (exchange_tokens p.accounts p.amm (vault_in p.direction p.accounts)
            (vault_out p.direction p.accounts) m w1)
          _ e2 in
      let (amm, added, eq) = bind-eq-ok (accumulate p.direction m p.amm) _ e3 in
      let h = (prepare_swap-Ensures w program_id accounts).holds p prepared in
      record {
        parsed = p.accounts;
        parsed_eq = h.parsed;
        amm = h.loaded;
        read = h.loaded_read;
        state_same =
            ap (λ x. x.amm.state) (sym (ok_injective eq))
            ∙ accumulate-state p.direction m p.amm added
            ∙ ap (λ x. x.state) h.amm_eq;
      }

  pub process_swap_base_in-KeepsState :
      ⦃u : Uint 128⦄ (swap : SwapInstructionBaseIn) (o : Outcome W)
      → process_swap_base_in program_id accounts swap w ≡ ok o
      → KeepsState accounts w o
  unfolding process_swap_base_in
  process_swap_base_in-KeepsState swap o e =
      let (p, e1, r1) = bind-eq-ok (prepare_swap w program_id accounts) _ e in
      let (m, _, r2) =
        bind-eq-ok
          (base_in_amounts p.amm.fees swap p.user_source_amount p.total_pc p.total_coin p.direction)
          _ r1 in
      settle_swap-KeepsState p.accounts.market_coin_vault p m o e1 r2

  pub process_swap_base_out-KeepsState :
      ⦃u : Uint 128⦄ (swap : SwapInstructionBaseOut) (o : Outcome W)
      → process_swap_base_out program_id accounts swap w ≡ ok o
      → KeepsState accounts w o
  unfolding process_swap_base_out
  process_swap_base_out-KeepsState swap o e =
      let (p, e1, r1) = bind-eq-ok (prepare_swap w program_id accounts) _ e in
      let (m, _, r2) =
        bind-eq-ok
          (base_out_amounts p.amm.fees swap p.user_source_amount p.total_pc p.total_coin
            p.direction)
          _ r1 in
      settle_swap-KeepsState p.accounts.market_asks p m o e1 r2
