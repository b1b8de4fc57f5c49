-- ===== src/Processor/Monitor/Laws/Idle.antt =====
-- What `do_idle_state` makes of the pool.
use solana_dex_amm.State.Machine
use solana_dex_amm.Serum.{LeafNode}
use solana_dex_amm.Result.{
  Ensures, checked_empty_funds, err_if, if-Ensures, ok-Ensures, step, unwrap,
}
use solana_dex_amm.Math.Decimal.{normalize_decimal_v2}
use solana_dex_amm.Processor.TakePnl.{Taken, calc_take_pnl}
use solana_dex_amm.Processor.TakePnl.Share.{IsMoved}
use solana_dex_amm.Processor.TakePnl.Laws.{calc_take_pnl-IsTaken}
use solana_dex_amm.Processor.Monitor.Idle.{
  do_idle_state, idle_next, idle_pnl, is_empty, is_price_off, is_traded, with_state,
}
use solana_dex_amm.Processor.Monitor.Laws.{KeepsPool}
use solana_dex_amm.State.Target.{TargetOrders}
use solana_dex_amm.State.Amm.{AmmInfo}
use solana_dex_amm.State.Machine.{AmmState}
use solana_dex_amm.Words.{Uint}
use solana_dex_amm.Prelude.{
  List, inl, inr, ltb, not, refl, subst, sym, ℕ, ◌&&◌, ◌==◌, ◌||◌, ◌∙◌, ◌≡◌, ◌⊎◌,
}

abbrev Idled : AmmInfo → AmmInfo × TargetOrders → Type 0
Idled amm r = KeepsPool amm r.0 × ((r.0.state ≡ 1) ⊎ (r.0.state ≡ 2) ⊎ (r.0.state ≡ 3))

with_state-KeepsPool : (amm : AmmInfo) (state : AmmState) → KeepsPool amm (with_state amm state)
with_state-KeepsPool amm state = record { status_same = refl; lp_same = refl; fees_same = refl }

module _ ⦃u : Uint 128⦄ (amm : AmmInfo) where
  idle_next-Ensures :
      (target : TargetOrders) (bids asks : List LeafNode) (x y : ℕ)
      → Ensures (Idled amm) (idle_next amm target bids asks x y)
  unfolding idle_next Machine.into_u64
  idle_next-Ensures target bids asks x y = step (is_price_off amm x y) _ λ price_off _.
      if-Ensures price_off
        (λ _.
          if-Ensures (is_empty bids && is_empty asks)
            (λ _. ok-Ensures _ (with_state-KeepsPool amm AmmState.idle_state, inl refl))
            (λ _.
              ok-Ensures _
                (with_state-KeepsPool amm AmmState.cancel_all_orders_state, inr (inl refl))))
        (λ _.
          if-Ensures (is_traded target bids asks x y)
            (λ _.
              ok-Ensures _ (with_state-KeepsPool amm AmmState.plan_orders_state, inr (inr refl)))
            (λ _. ok-Ensures _ (with_state-KeepsPool amm AmmState.idle_state, inl refl)))

  idle_pnl-Ensures :
      (target : TargetOrders) (taken : Taken) (x y : ℕ)
      → Ensures (λ r. r.0 ≡ taken.amm) (idle_pnl target taken x y)
  unfolding idle_pnl
  idle_pnl-Ensures target taken x y =
      if-Ensures (not (taken.delta_x == 0) && not (taken.delta_y == 0))
        (λ _. step (unwrap (u.checked_sub x taken.delta_x)) _ λ rest_x _.
          step (unwrap (u.as_u128 rest_x)) _ λ _ _.
            step (unwrap (u.checked_sub y taken.delta_y)) _
              λ rest_y _. step (unwrap (u.as_u128 rest_y)) _ λ _ _. ok-Ensures _ refl)
        (λ _. ok-Ensures _ refl)

taken-Idled :
    (amm amm' : AmmInfo) (target : TargetOrders) (total_pc total_coin : ℕ) (t : Taken)
    (target' : TargetOrders)
    → Idled amm (amm', target)
    → IsMoved amm' total_pc total_coin t
    → Idled amm (t.amm, target')
taken-Idled amm amm' target total_pc total_coin t target' (kept, state) moved = (
  record {
    status_same = moved.status_same ∙ kept.status_same;
    lp_same = moved.lp_same ∙ kept.lp_same;
    fees_same = moved.fees_same ∙ kept.fees_same;
  },
  subst (λ s. (s ≡ 1) ⊎ (s ≡ 2) ⊎ (s ≡ 3)) (sym moved.state_same) state,
)

module _ ⦃u : Uint 128⦄ ⦃v : Uint 256⦄ where
  -- What the idle state makes of the pool.
  pub idle-Ensures :
      (amm : AmmInfo) (target : TargetOrders) (total_pc total_coin : ℕ) (bids asks : List LeafNode)
      → Ensures
          (λ r. KeepsPool amm r.0 × ((r.0.state ≡ 1) ⊎ (r.0.state ≡ 2) ⊎ (r.0.state ≡ 3)))
          (do_idle_state amm target total_pc total_coin bids asks)
  unfolding do_idle_state Machine.into_u64
  idle-Ensures amm target total_pc total_coin bids asks =
      step (normalize_decimal_v2 total_pc amm.pc_decimals amm.sys_decimal_value) _ λ x _.
        step (normalize_decimal_v2 total_coin amm.coin_decimals amm.sys_decimal_value) _ λ y _.
          step (err_if (x == 0 || y == 0) checked_empty_funds) _ λ _ _.
            step (idle_next amm target bids asks x y) _ λ next en.
              step (unwrap (u.checked_mul x y)) _ λ current_k _.
                step (unwrap (u.checked_mul next.1.calc_pnl_x next.1.calc_pnl_y)) _ λ last_k _.
                  let idled = (idle_next-Ensures amm target bids asks x y).holds next en in
                  if-Ensures (ltb current_k last_k)
                    (λ _. ok-Ensures _ (
                      record {
                        status_same = idled.0.status_same;
                        lp_same = idled.0.lp_same;
                        fees_same = idled.0.fees_same;
                      },
                      inr (inl refl),
                    ))
                    (λ _. step (unwrap (u.as_u128 x)) _ λ x1 _.
                      step (unwrap (u.as_u128 y)) _ λ y1 _.
                        step (calc_take_pnl next.1 next.0 total_pc total_coin x1 y1) _ λ t et.
                          record {
                            holds = λ r er.
                                let moved =
                                  (calc_take_pnl-IsTaken next.1 next.0 total_pc total_coin x1 y1 t
                                    et).moved in
                                let same = (idle_pnl-Ensures amm next.1 t x y).holds r er in
                                subst
                                  (λ p.
                                    KeepsPool amm p
                                    × ((p.state ≡ 1) ⊎ (p.state ≡ 2) ⊎ (p.state ≡ 3)))
                                  (sym same)
                                  (taken-Idled amm next.0 next.1 total_pc total_coin t target idled
                                    moved);
                          })
