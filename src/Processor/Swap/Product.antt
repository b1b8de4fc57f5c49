-- ===== src/Processor/Swap/Product.antt =====
-- `process_swap_base_in` and `process_swap_base_out` of a pool off the order book, from the state of the
-- chain before to the state after: the product of the pool's totals.
use solana_dex_amm.State.Status
use solana_dex_amm.Chain.{AccountInfo, Chain}
use solana_dex_amm.Serum.{OpenOrders}
use solana_dex_amm.Result.{bind-eq-ok, ok, ok_injective}
use solana_dex_amm.Instruction.{SwapInstructionBaseIn, SwapInstructionBaseOut}
use solana_dex_amm.Math.Vault.{calc_total_without_take_pnl_no_orderbook}
use solana_dex_amm.Math.Swap.Laws.{reserve_in, reserve_out}
use solana_dex_amm.Processor.Swap.{Amounts, base_in_amounts, base_out_amounts}
use solana_dex_amm.Processor.Swap.Output.{base_out_amounts-IsFair}
use solana_dex_amm.Processor.Swap.Prepare.{
  Prepared, SwapAccounts, prepare_swap, swap_accounts, swap_totals,
}
use solana_dex_amm.Processor.Swap.Settle.{
  Outcome, process_swap_base_in, process_swap_base_out, settle_swap,
}
use solana_dex_amm.Processor.Swap.Laws.{base_in_amounts-IsFair}
use solana_dex_amm.Processor.Swap.Settle.Laws.{
  no_orderbook_lem, pool_totals, pool_totals_lem, settle_swap_product,
}
use solana_dex_amm.Processor.Swap.Prepare.Laws.{IsPrepared, prepare_swap-Ensures}
use solana_dex_amm.State.Amm.{AmmInfo}
use solana_dex_amm.State.Status.{AmmStatus, orderbook_permission}
use solana_dex_amm.Words.{Uint}
use solana_dex_amm.Chain.Ledger.{Ledger}
use solana_dex_amm.Prelude.{
  List, ap, arith, false, refl, some, subst, suc, sym, zero, ℕ, ◌*◌, ◌+◌, ◌-◌, ◌<◌, ◌^◌, ◌∙◌, ◌≡◌,
  ◌≢◌, ◌≤◌, ◌⊎◌,
}
use mathlib.Core.Option.{some-injective}

off_book :
    (n : ℕ) {s : AmmStatus}
    → (n ≡ 6) ⊎ (n ≡ 7)
    → Status.from_u64 n ≡ ok s
    → orderbook_permission s ≡ false
unfolding Status.from_u64 orderbook_permission
off_book n h e = ground arith

-- Only the pool's state data counts for its totals.
totals_state :
    (pc coin : ℕ) (o : OpenOrders) (amm amm' : AmmInfo)
    → amm.state_data ≡ amm'.state_data
    → calc_total_without_take_pnl_no_orderbook pc coin o amm
      ≡ calc_total_without_take_pnl_no_orderbook pc coin o amm'
unfolding calc_total_without_take_pnl_no_orderbook
totals_state pc coin o amm amm' e = rw e refl

module _ {W : Type 0} ⦃c : Chain W⦄ (w : W) (accounts : List AccountInfo) (p : Prepared)
    (h : IsPrepared w accounts p) where
  -- The totals of a swap off the order book are the pool's totals.
  prepared_totals :
      p.enable_orderbook ≡ false → pool_totals w p.accounts h.loaded ≡ ok (p.total_pc, p.total_coin)
  unfolding swap_totals
  prepared_totals off =
      let totals = rw off at h.totals in
      let (o, read, rest) = bind-eq-ok (c.load_orders w p.accounts.amm_open_orders) _ totals in
      let (t, calc, eq) =
        bind-eq-ok
          (calc_total_without_take_pnl_no_orderbook p.pc_vault_amount p.coin_vault_amount o p.amm) _
          rest in
      let same : t ≡ (p.total_pc, p.total_coin) = ap (λ x. (x.2, x.3)) (ok_injective eq) in
      let state = ap (λ x. x.state_data) h.amm_eq in
      rw (h.coin_read, h.pc_read, read, h.coin_amount, h.pc_amount)
        (sym (totals_state p.pc_vault_amount p.coin_vault_amount o p.amm h.loaded state)
          ∙ calc
          ∙ ap ok same)

-- A product that does not fall, where one of the reserves may be empty.
kept_or_empty :
    (S T x y : ℕ) → (0 < S → 0 < T → S * T ≤ (S + x) * (T - y)) → S * T ≤ (S + x) * (T - y)
kept_or_empty zero T x y h = omega arith
kept_or_empty (suc S) zero x y h = omega arith
kept_or_empty (suc S) (suc T) x y h = h (omega arith) (omega arith)

module _ {W : Type 0} ⦃c : Chain W⦄ (l : Ledger W) (w : W) (program_id : ℕ)
    (accounts : List AccountInfo) (a : SwapAccounts) (loaded : AmmInfo) where
  -- What the second half of a swap leaves, whichever way the amounts are found.
  prepared_product :
      (v : AccountInfo) (p : Prepared) (m : Amounts) (o : Outcome W) (tp tc tp' tc' : ℕ)
      → IsPrepared w accounts p
      → swap_accounts accounts ≡ ok a
      → c.amm_info w a.amm_info.key ≡ some loaded
      → (loaded.status ≡ 6) ⊎ (loaded.status ≡ 7)
      → loaded.coin_vault ≢ loaded.pc_vault
      → ((p.total_pc < 2 ^ 64)
          → (p.total_coin < 2 ^ 64)
          → reserve_in p.direction p.total_pc p.total_coin
              * reserve_out p.direction p.total_pc p.total_coin
            ≤ (reserve_in p.direction p.total_pc p.total_coin + m.amount_in)
              * (reserve_out p.direction p.total_pc p.total_coin - m.amount_out))
      → settle_swap v p m w ≡ ok o
      → pool_totals w a loaded ≡ ok (tp, tc)
      → pool_totals o.world a o.amm ≡ ok (tp', tc')
      → tp * tc ≤ tp' * tc'
  prepared_product v p m o tp tc tp' tc' h parsed read status apart kept e before after =
      let a_eq : p.accounts ≡ a = ok_injective (sym h.parsed ∙ parsed) in
      let loaded_eq : h.loaded ≡ loaded =
        some-injective h.loaded loaded
          (sym h.loaded_read ∙ ap (λ x. c.amm_info w x.amm_info.key) a_eq ∙ read) in
      let off : p.enable_orderbook ≡ false =
        h.book
        ∙ off_book h.loaded.status
            (subst (λ x. (x.status ≡ 6) ⊎ (x.status ≡ 7)) (sym loaded_eq) status) h.status_read in
      let found = prepared_totals w accounts p h off in
      let before' =
        subst (λ x. pool_totals w p.accounts x ≡ ok (tp, tc)) (sym loaded_eq)
          (subst (λ x. pool_totals w x loaded ≡ ok (tp, tc)) (sym a_eq) before) in
      let after' = subst (λ x. pool_totals o.world x o.amm ≡ ok (tp', tc')) (sym a_eq) after in
      let apart' = subst (λ x. x.coin_vault ≢ x.pc_vault) (sym loaded_eq) apart in
      let totals = ok_injective (sym found ∙ before') in
      let (open_orders, _, sums) =
        pool_totals_lem w p.accounts h.loaded h.coin_read h.pc_read found in
      let (_, _, fits_pc, fits_coin) = no_orderbook_lem _ _ open_orders h.loaded sums in
      subst (λ t. t.0 * t.1 ≤ tp' * tc') totals
        (settle_swap_product l v w accounts p m o h p.total_pc p.total_coin tp' tc' off apart'
          (kept fits_pc fits_coin) e found after')

  module _ ⦃u : Uint 128⦄ where
    -- Off the order book (the status is SwapOnly or WaitingTrade), a swap with a fixed input of 64 bits
    -- that succeeds never lowers the product of the pool's totals, as they are computed of the vaults, the
    -- open orders and the profit to be taken before the swap and after it, where the pool's two vaults
    -- are different accounts and transfers are as documented.
    pub process_swap_base_in-product :
        (swap : SwapInstructionBaseIn) (o : Outcome W) (tp tc tp' tc' : ℕ)
        → swap.amount_in < 2 ^ 64
        → swap_accounts accounts ≡ ok a
        → c.amm_info w a.amm_info.key ≡ some loaded
        → (loaded.status ≡ 6) ⊎ (loaded.status ≡ 7)
        → loaded.coin_vault ≢ loaded.pc_vault
        → process_swap_base_in program_id accounts swap w ≡ ok o
        → pool_totals w a loaded ≡ ok (tp, tc)
        → pool_totals o.world a o.amm ≡ ok (tp', tc')
        → tp * tc ≤ tp' * tc'
    unfolding process_swap_base_in
    process_swap_base_in-product swap o tp tc tp' tc' fits parsed read status apart e before after =
        let (p, e1, r1) = bind-eq-ok (prepare_swap w program_id accounts) _ e in
        let (m, e2, r2) =
          bind-eq-ok
            (base_in_amounts p.amm.fees swap p.user_source_amount p.total_pc p.total_coin
              p.direction)
            _ r1 in
        prepared_product p.accounts.market_coin_vault p m o tp tc tp' tc'
          ((prepare_swap-Ensures w program_id accounts).holds p e1) parsed read status apart
          (λ hp hc. kept_or_empty _ _ _ _ λ s t.
            (base_in_amounts-IsFair p.amm.fees p.user_source_amount p.total_pc p.total_coin
              p.direction swap m fits hp hc s t e2).2.product)
          r2 before after

    -- Off the order book (the status is SwapOnly or WaitingTrade), a swap with a fixed output that succeeds
    -- never lowers the product of the pool's totals, as they are computed of the vaults, the open orders
    -- and the profit to be taken before the swap and after it, where the pool's two vaults are different
    -- accounts and transfers are as documented.
    pub process_swap_base_out-product :
        (swap : SwapInstructionBaseOut) (o : Outcome W) (tp tc tp' tc' : ℕ)
        → swap_accounts accounts ≡ ok a
        → c.amm_info w a.amm_info.key ≡ some loaded
        → (loaded.status ≡ 6) ⊎ (loaded.status ≡ 7)
        → loaded.coin_vault ≢ loaded.pc_vault
        → process_swap_base_out program_id accounts swap w ≡ ok o
        → pool_totals w a loaded ≡ ok (tp, tc)
        → pool_totals o.world a o.amm ≡ ok (tp', tc')
        → tp * tc ≤ tp' * tc'
    unfolding process_swap_base_out
    process_swap_base_out-product swap o tp tc tp' tc' parsed read status apart e before after =
        let (p, e1, r1) = bind-eq-ok (prepare_swap w program_id accounts) _ e in
        let (m, e2, r2) =
          bind-eq-ok
            (base_out_amounts p.amm.fees swap p.user_source_amount p.total_pc p.total_coin
              p.direction)
            _ r1 in
        prepared_product p.accounts.market_asks p m o tp tc tp' tc'
          ((prepare_swap-Ensures w program_id accounts).holds p e1) parsed read status apart
          (λ hp hc.
            (base_out_amounts-IsFair p.amm.fees p.user_source_amount p.total_pc p.total_coin
              p.direction swap m hp hc e2).2.product)
          r2 before after
