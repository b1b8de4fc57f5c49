-- ===== src/Processor/Swap/Settle/Laws.antt =====
-- What a swap leaves in the vaults.
use solana_dex_amm.Result.{Result, bind-eq-ok, expected_account, ok, ok_injective, ok_or, ◌>>=◌}
use solana_dex_amm.Chain.{AccountInfo, Chain, TokenAccount}
use solana_dex_amm.Serum.{OpenOrders}
use solana_dex_amm.Math.Swap.{SwapDirection, coin2_pc, pc2_coin}
use solana_dex_amm.Math.Vault.{calc_total_without_take_pnl_no_orderbook, without_take_pnl}
use solana_dex_amm.Math.Swap.BaseIn.{coin_after, pc_after}
use solana_dex_amm.Math.Swap.Laws.{reserve_in, reserve_out}
use solana_dex_amm.Processor.Swap.{Amounts}
use solana_dex_amm.Processor.Swap.Prepare.{Prepared, SwapAccounts}
use solana_dex_amm.Processor.Swap.Settle.{
  Outcome, accumulate, exchange_tokens, prepare_funds, settle_swap, vault_in, vault_out,
}
use solana_dex_amm.Processor.Swap.Prepare.Laws.{IsChecked, IsPrepared}
use solana_dex_amm.State.Amm.{AmmInfo}
use solana_dex_amm.Chain.Invokers.{token_transfer, token_transfer_with_authority}
use solana_dex_amm.Chain.Ledger.{Ledger}
use solana_dex_amm.Prelude.{
  List, ap, arith, false, refl, some, subst, sym, ℕ, ◌*◌, ◌+◌, ◌-◌, ◌<◌, ◌^◌, ◌∙◌, ◌≡◌, ◌≢◌, ◌≤◌,
}

module _ {W : Type 0} ⦃c : Chain W⦄ (l : Ledger W) where
  -- What the two transfers of a swap make of the vaults.
  exchange_tokens_lem :
      (a : SwapAccounts) (amm : AmmInfo) (vault_to vault_from : AccountInfo) (m : Amounts)
      (w w' : W) {to from : TokenAccount}
      → a.user_source.key ≢ vault_to.key
      → a.user_source.key ≢ vault_from.key
      → a.user_destination.key ≢ vault_to.key
      → a.user_destination.key ≢ vault_from.key
      → vault_to.key ≢ vault_from.key
      → c.token_account w vault_to.key ≡ some to
      → c.token_account w vault_from.key ≡ some from
      → exchange_tokens a amm vault_to vault_from m w ≡ ok w'
      → (c.token_account w' vault_to.key ≡ some (record to { amount = to.amount + m.amount_in }))
        × (c.token_account w' vault_from.key
            ≡ some (record from { amount = from.amount - m.amount_out }))
        × (m.amount_out ≤ from.amount)
        × ((account : AccountInfo) → c.load_orders w' account ≡ c.load_orders w account)
  unfolding exchange_tokens token_transfer token_transfer_with_authority
  exchange_tokens_lem a amm vault_to vault_from m w w' {to} {from} n1 n2 n3 n4 n5 to_read from_read
        e =
      let (w1, e1, e2) =
        bind-eq-ok
          (token_transfer w a.token_program a.user_source vault_to a.user_source_owner m.amount_in)
          _ e in
      let paid = l.transferred _ _ _ _ _ _ w w1 e1 n1 in
      let sent = l.transferred _ _ _ _ _ _ w1 w' e2 (λ q. n4 (sym q)) in
      let kept = sent.others vault_to.key n5 (λ q. n3 (sym q)) in
      let before = paid.others vault_from.key (λ q. n2 (sym q)) (λ q. n5 (sym q)) in
      let to_eq : paid.to ≡ to = cc (paid.to_read, to_read) in
      let from_eq : sent.from ≡ from = cc (sent.from_read, before, from_read) in
      (
        subst
            (λ t.
              c.token_account w' vault_to.key ≡ some (record t { amount = t.amount + m.amount_in }))
            to_eq (kept ∙ paid.credited),
        subst
            (λ t.
              c.token_account w' vault_from.key
              ≡ some (record t { amount = t.amount - m.amount_out }))
            from_eq sent.debited,
        subst (λ t. m.amount_out ≤ t.amount) from_eq sent.enough,
        λ account. sent.orders_same account ∙ paid.orders_same account,
      )

-- The pool's totals off the order book, as a swap of the pool would find them.
abbrev pub pool_totals : {W : Type 0} ⦃c : Chain W⦄ → W → SwapAccounts → AmmInfo → Result (ℕ × ℕ)
pool_totals ⦃c⦄ w a amm = do
  coin ← ok_or (c.token_account w a.amm_coin_vault.key) expected_account
  pc ← ok_or (c.token_account w a.amm_pc_vault.key) expected_account
  open_orders ← c.load_orders w a.amm_open_orders
  calc_total_without_take_pnl_no_orderbook pc.amount coin.amount open_orders amm

-- Totals off the order book are sums.
pub no_orderbook_lem :
    (pc coin : ℕ) (o : OpenOrders) (amm : AmmInfo) {total_pc total_coin : ℕ}
    → calc_total_without_take_pnl_no_orderbook pc coin o amm ≡ ok (total_pc, total_coin)
    → (total_pc + amm.state_data.need_take_pnl_pc ≡ pc + o.native_pc_total)
      × (total_coin + amm.state_data.need_take_pnl_coin ≡ coin + o.native_coin_total)
      × (total_pc < 2 ^ 64)
      × (total_coin < 2 ^ 64)
unfolding calc_total_without_take_pnl_no_orderbook without_take_pnl
no_orderbook_lem pc coin o amm e = ground arith

accumulate_lem :
    (d : SwapDirection) (m : Amounts) (amm : AmmInfo) {amm' : AmmInfo}
    → accumulate d m amm ≡ ok amm'
    → (amm'.state_data.need_take_pnl_pc ≡ amm.state_data.need_take_pnl_pc)
      × (amm'.state_data.need_take_pnl_coin ≡ amm.state_data.need_take_pnl_coin)
unfolding accumulate
accumulate_lem coin2_pc m amm e = ground arith
accumulate_lem pc2_coin m amm e = ground arith

-- What a swap adds to one total and takes off the other keeps their product.
moved_product :
    (d : SwapDirection) (m : Amounts) (total_pc total_coin total_pc' total_coin' : ℕ)
    → (reserve_in d total_pc' total_coin' ≡ reserve_in d total_pc total_coin + m.amount_in)
    → (reserve_out d total_pc' total_coin' ≡ reserve_out d total_pc total_coin - m.amount_out)
    → reserve_in d total_pc total_coin * reserve_out d total_pc total_coin
      ≤ (reserve_in d total_pc total_coin + m.amount_in)
        * (reserve_out d total_pc total_coin - m.amount_out)
    → total_pc * total_coin ≤ total_pc' * total_coin'
moved_product coin2_pc m total_pc total_coin total_pc' total_coin' e1 e2 h =
    rw (e1, e2) (omega (arith, h))
moved_product pc2_coin m total_pc total_coin total_pc' total_coin' e1 e2 h =
    rw (e1, e2) (omega (arith, h))

module _ {W : Type 0} ⦃c : Chain W⦄ where
  pub pool_totals_lem :
      (w : W) (a : SwapAccounts) (amm : AmmInfo) {coin pc : TokenAccount} {total_pc total_coin : ℕ}
      → c.token_account w a.amm_coin_vault.key ≡ some coin
      → c.token_account w a.amm_pc_vault.key ≡ some pc
      → pool_totals w a amm ≡ ok (total_pc, total_coin)
      → (o : OpenOrders) × (c.load_orders w a.amm_open_orders ≡ ok o)
        × (calc_total_without_take_pnl_no_orderbook pc.amount coin.amount o amm
            ≡ ok (total_pc, total_coin))
  pool_totals_lem w a amm coin_read pc_read e =
      let e' = rw (coin_read, pc_read) at e in bind-eq-ok (c.load_orders w a.amm_open_orders) _ e'

  prepare_funds_none :
      (d : SwapDirection) (v : AccountInfo) (p : Prepared) (amount_out : ℕ) (w : W)
      → p.enable_orderbook ≡ false
      → prepare_funds d v p amount_out w ≡ ok w
  unfolding prepare_funds
  prepare_funds_none coin2_pc v p amount_out w off = rw off refl
  prepare_funds_none pc2_coin v p amount_out w off = rw off refl

  settle_swap_lem :
      (v : AccountInfo) (p : Prepared) (m : Amounts) (w : W) {o : Outcome W}
      → p.enable_orderbook ≡ false
      → settle_swap v p m w ≡ ok o
      → (exchange_tokens p.accounts p.amm
            (vault_in p.direction p.accounts)
            (vault_out p.direction p.accounts)
            m
            w
          ≡ ok o.world)
        × (accumulate p.direction m p.amm ≡ ok o.amm)
  unfolding settle_swap
  settle_swap_lem v p m w {o} off e =
      let e' = rw (prepare_funds_none p.direction v p m.amount_out w off) at e in
      let (w2, e2, e3) =
        bind-eq-ok
          (exchange_tokens p.accounts p.amm (vault_in p.direction p.accounts)
            (vault_out p.direction p.accounts) m w)
          _ e' in
      let (amm, e4, e5) = bind-eq-ok (accumulate p.direction m p.amm) _ e3 in
      let same = ok_injective e5 in (e2 ∙ ap (λ x. ok x.world) same, e4 ∙ ap (λ x. ok x.amm) same)

module _ {W : Type 0} ⦃c : Chain W⦄ where
  -- Where only the vaults change, the totals change by as much.
  totals_follow :
      (w w' : W) (a : SwapAccounts) (amm amm' : AmmInfo) (tp tc tp' tc' : ℕ)
      {coin pc coin' pc' : TokenAccount}
      → c.token_account w a.amm_coin_vault.key ≡ some coin
      → c.token_account w a.amm_pc_vault.key ≡ some pc
      → c.token_account w' a.amm_coin_vault.key ≡ some coin'
      → c.token_account w' a.amm_pc_vault.key ≡ some pc'
      → ((account : AccountInfo) → c.load_orders w' account ≡ c.load_orders w account)
      → amm'.state_data.need_take_pnl_pc ≡ amm.state_data.need_take_pnl_pc
      → amm'.state_data.need_take_pnl_coin ≡ amm.state_data.need_take_pnl_coin
      → pool_totals w a amm ≡ ok (tp, tc)
      → pool_totals w' a amm' ≡ ok (tp', tc')
      → (tp' + pc.amount ≡ tp + pc'.amount) × (tc' + coin.amount ≡ tc + coin'.amount)
  totals_follow w w' a amm amm' tp tc tp' tc' coin_read pc_read coin_after pc_after same np nc
        before after =
      let (o, read, b) = pool_totals_lem w a amm coin_read pc_read before in
      let (o', read', b') = pool_totals_lem w' a amm' coin_after pc_after after in
      let o_eq : o' ≡ o = ok_injective (sym read' ∙ same a.amm_open_orders ∙ read) in
      let pc_eq = ap (λ x. x.native_pc_total) o_eq in
      let coin_eq = ap (λ x. x.native_coin_total) o_eq in
      let (sum1, sum2, _, _) = no_orderbook_lem _ _ o amm b in
      let (sum3, sum4, _, _) = no_orderbook_lem _ _ o' amm' b' in
      (omega (arith, np, pc_eq, sum1, sum3), omega (arith, nc, coin_eq, sum2, sum4))

module _ {W : Type 0} ⦃c : Chain W⦄ (l : Ledger W) where
  -- The totals before and after the transfers of a swap.
  totals_moved :
      (d : SwapDirection) (a : SwapAccounts) (loaded amm amm' : AmmInfo) (m : Amounts) (w w' : W)
      (tp tc tp' tc' : ℕ) {coin pc : TokenAccount}
      → IsChecked a loaded
      → loaded.coin_vault ≢ loaded.pc_vault
      → c.token_account w a.amm_coin_vault.key ≡ some coin
      → c.token_account w a.amm_pc_vault.key ≡ some pc
      → exchange_tokens a amm (vault_in d a) (vault_out d a) m w ≡ ok w'
      → amm'.state_data.need_take_pnl_pc ≡ loaded.state_data.need_take_pnl_pc
      → amm'.state_data.need_take_pnl_coin ≡ loaded.state_data.need_take_pnl_coin
      → pool_totals w a loaded ≡ ok (tp, tc)
      → pool_totals w' a amm' ≡ ok (tp', tc')
      → (reserve_in d tp' tc' ≡ reserve_in d tp tc + m.amount_in)
        × (reserve_out d tp' tc' ≡ reserve_out d tp tc - m.amount_out)
  totals_moved coin2_pc a loaded amm amm' m w w' tp tc tp' tc' k apart coin_read pc_read e np nc
        before after =
      let (coin_after, pc_after, enough, same) =
        exchange_tokens_lem l a amm a.amm_coin_vault a.amm_pc_vault m w w'
          (λ q. k.source_not_coin (q ∙ k.coin_vault)) (λ q. k.source_not_pc (q ∙ k.pc_vault))
          (λ q. k.destination_not_coin (q ∙ k.coin_vault))
          (λ q. k.destination_not_pc (q ∙ k.pc_vault))
          (λ q. apart (sym k.coin_vault ∙ q ∙ k.pc_vault)) coin_read pc_read e in
      let (pc_eq, coin_eq) =
        totals_follow w w' a loaded amm' tp tc tp' tc' coin_read pc_read coin_after pc_after same np
          nc before after in
      (omega (arith, coin_eq), omega (arith, pc_eq, enough))
  totals_moved pc2_coin a loaded amm amm' m w w' tp tc tp' tc' k apart coin_read pc_read e np nc
        before after =
      let (pc_after, coin_after, enough, same) =
        exchange_tokens_lem l a amm a.amm_pc_vault a.amm_coin_vault m w w'
          (λ q. k.source_not_pc (q ∙ k.pc_vault)) (λ q. k.source_not_coin (q ∙ k.coin_vault))
          (λ q. k.destination_not_pc (q ∙ k.pc_vault))
          (λ q. k.destination_not_coin (q ∙ k.coin_vault))
          (λ q. apart (sym k.coin_vault ∙ sym q ∙ k.pc_vault)) pc_read coin_read e in
      let (pc_eq, coin_eq) =
        totals_follow w w' a loaded amm' tp tc tp' tc' coin_read pc_read coin_after pc_after same np
          nc before after in
      (omega (arith, pc_eq), omega (arith, coin_eq, enough))

  -- A swap off the order book whose amounts keep the product keeps the product of the pool's totals.
  pub settle_swap_product :
      (v : AccountInfo) (w : W) (accounts : List AccountInfo) (p : Prepared) (m : Amounts)
      (o : Outcome W) (h : IsPrepared w accounts p) (tp tc tp' tc' : ℕ)
      → p.enable_orderbook ≡ false
      → h.loaded.coin_vault ≢ h.loaded.pc_vault
      → reserve_in p.direction tp tc * reserve_out p.direction tp tc
        ≤ (reserve_in p.direction tp tc + m.amount_in)
          * (reserve_out p.direction tp tc - m.amount_out)
      → settle_swap v p m w ≡ ok o
      → pool_totals w p.accounts h.loaded ≡ ok (tp, tc)
      → pool_totals o.world p.accounts o.amm ≡ ok (tp', tc')
      → tp * tc ≤ tp' * tc'
  settle_swap_product v w accounts p m o h tp tc tp' tc' off apart kept e before after =
      let (e2, e3) = settle_swap_lem v p m w off e in
      let (np, nc) = accumulate_lem p.direction m p.amm e3 in
      let same = ap (λ x. x.state_data) h.amm_eq in
      let (e_in, e_out) =
        totals_moved p.direction p.accounts h.loaded p.amm o.amm m w o.world tp tc tp' tc' h.checked
          apart h.coin_read h.pc_read e2 (np ∙ ap (λ x. x.need_take_pnl_pc) same)
          (nc ∙ ap (λ x. x.need_take_pnl_coin) same) before after in
      moved_product p.direction m tp tc tp' tc' e_in e_out kept
