-- ===== src/Math/Vault/Laws.antt =====
-- The pool's totals: which events count, and how vault, market and profit add up.
use solana_dex_amm.Result.{bind-eq-ok, ok, ◌>>=◌}
use solana_dex_amm.Serum.{Event, EventView, OpenOrders, ask, bid, fill}
use solana_dex_amm.Math.Vault.{
  apply_events, apply_view, calc_exact_vault_in_serum, calc_total_without_take_pnl,
  calc_total_without_take_pnl_no_orderbook,
}
use solana_dex_amm.State.Amm.{AmmInfo}
use solana_dex_amm.Prelude.{
  Bool, Bool-cases, List, Option, [], ap, arith, false, fun_ext, if◌then◌else◌, inl, inr, refl,
  some, ℕ, ◌&&◌, ◌+◌, ◌<◌, ◌==◌, ◌^◌, ◌∷◌, ◌≡◌,
}

-- The events that change the totals: maker fills of the account itself.
abbrev is_maker_fill : EventView → Bool
is_maker_fill (fill side maker paid received) = maker
is_maker_fill EventView.out = false

abbrev pub counts : ℕ → Event → Bool
counts own e = e.owner == own && is_maker_fill e.view

abbrev pub counted : ℕ → List Event → List Event
counted own [] = []
counted own (e ∷ es) = if counts own e then e ∷ counted own es else counted own es

apply_view-ignored : (v : EventView) (t : ℕ × ℕ) → is_maker_fill v ≡ false → apply_view v t ≡ ok t
unfolding apply_view
apply_view-ignored (fill bid maker paid received) t h = ground arith
apply_view-ignored (fill ask maker paid received) t h = ground arith
apply_view-ignored EventView.out t h = refl

apply_events-counted :
    (own : ℕ) (es : List Event) (t : ℕ × ℕ)
    → apply_events own es t ≡ apply_events own (counted own es) t
unfolding apply_events
apply_events-counted own [] t = refl
apply_events-counted own (e ∷ es) t =
    let rest = fun_ext (apply_events-counted own es) in
    elim (Bool-cases (e.owner == own)) [
      | inr other ↦ rw (other, ◌&&◌) (apply_events-counted own es t)
      | inl mine ↦ elim (Bool-cases (is_maker_fill e.view)) [
        | inl maker ↦ rw (mine, maker, ◌&&◌) (rw mine (ap (λ k. apply_view e.view t >>= k) rest))
        | inr taker ↦
            rw (mine, taker, ◌&&◌, apply_view-ignored e.view t taker)
              (apply_events-counted own es t)
      ]
    ]

-- Only the maker fills of the account itself count: with all other events taken out of the queue the
-- totals are the same, failures included.
pub calc_exact_vault-counted :
    (o : OpenOrders) (events : List Event) (own : ℕ)
    → calc_exact_vault_in_serum o (some events) own
      ≡ calc_exact_vault_in_serum o (some (counted own events)) own
unfolding calc_exact_vault_in_serum
calc_exact_vault-counted o events own = apply_events-counted own events _

-- A pool off the order book is one whose event queue is empty: the two ways to the totals agree.
pub calc_total-no_orderbook :
    (pc coin : ℕ) (o : OpenOrders) (amm : AmmInfo) (own : ℕ)
    → calc_total_without_take_pnl pc coin o amm (some []) own
      ≡ calc_total_without_take_pnl_no_orderbook pc coin o amm
unfolding calc_total_without_take_pnl calc_total_without_take_pnl_no_orderbook
    calc_exact_vault_in_serum
calc_total-no_orderbook pc coin o amm own = refl

-- Where the totals are computed, total and profit to be taken add up to vault and market, on both
-- sides, and the totals fit 64 bits.
pub calc_total_lem :
    (pc coin : ℕ) (o : OpenOrders) (amm : AmmInfo) (q : Option (List Event)) (own : ℕ)
    {total_pc total_coin : ℕ}
    → calc_total_without_take_pnl pc coin o amm q own ≡ ok (total_pc, total_coin)
    → (in_pc in_coin : ℕ) × (calc_exact_vault_in_serum o q own ≡ ok (in_pc, in_coin))
      × (total_pc + amm.state_data.need_take_pnl_pc ≡ pc + in_pc)
      × (total_coin + amm.state_data.need_take_pnl_coin ≡ coin + in_coin)
      × (total_pc < 2 ^ 64)
      × (total_coin < 2 ^ 64)
unfolding calc_total_without_take_pnl
calc_total_lem pc coin o amm q own e =
    let (totals, exact, rest) = bind-eq-ok (calc_exact_vault_in_serum o q own) _ e in
    (totals.0, totals.1, exact, ground arith, ground arith, ground arith, ground arith)
