-- ===== src/Processor/Monitor/Laws/Place.antt =====
-- What `do_place_orders` makes of the pool.
use solana_dex_amm.State.Machine
use solana_dex_amm.Words.Std
use solana_dex_amm.Result.{
  Ensures, Result, checked_empty_funds, err_if, if-Ensures, ok, ok-Ensures, step, unwrap, ◌>>=◌,
}
use solana_dex_amm.Chain.{Chain}
use solana_dex_amm.Math.Decimal.{
  convert_out_pc_lot_size, convert_price_out, convert_vol_out, normalize_decimal_v2,
}
use solana_dex_amm.Processor.Swap.Settle.{seeds_of}
use solana_dex_amm.Processor.Monitor.Place.{
  Placed, Placing, avaliable, buy_round, goes_on, non_zero, note_buy, note_sell, order_accounts,
  place_buy, place_sell, returned, sell_round, stop_placing,
}
use solana_dex_amm.Processor.Monitor.Cancel.{used_slots}
use solana_dex_amm.Processor.Monitor.Laws.{KeepsPool, keeps}
use solana_dex_amm.Processor.Monitor.Plan.{orders_num}
use solana_dex_amm.Processor.Monitor.Accounts.{Book, Funds, MonitorAccounts}
use solana_dex_amm.Processor.Monitor.Place.Loop.{
  and_then, do_place_orders, end_round, finish_placed, finish_placing, place_round, place_rounds,
  reload, start_loop,
}
use solana_dex_amm.State.Target.{TargetOrder, TargetOrders}
use solana_dex_amm.State.Amm.{AmmInfo, incr_client_order_id}
use solana_dex_amm.Words.{Uint}
use solana_dex_amm.Prelude.{
  List, [], get_elem?, if◌then◌else◌, inl, inr, leb, ltb, not, refl, suc, zero, ℕ, ◌%◌, ◌&&◌, ◌-◌,
  ◌==◌, ◌^◌, ◌||◌, ◌∙◌, ◌∷◌, ◌≡◌, ◌⊎◌,
}
use solana_dex_amm.Chain.Load.{unpack_token_account}
use solana_dex_amm.Chain.Invokers.{invoke_dex_new_order_v3, invoke_dex_replace_order_by_client_id}

-- What a part of the loop makes of the pool.
abbrev OnPlaced : {W : Type 0} → AmmInfo → Placed (Placing W) → Type 0
OnPlaced amm (goes_on s) = KeepsPool amm s.amm × (s.amm.state ≡ amm.state)
OnPlaced amm (returned s) = KeepsPool amm s.amm × (s.amm.state ≡ 2)

same_pool :
    {amm amm' amm'' : AmmInfo}
    → KeepsPool amm amm'
    → amm''.status ≡ amm'.status
    → amm''.lp_amount ≡ amm'.lp_amount
    → amm''.fees ≡ amm'.fees
    → KeepsPool amm amm''
same_pool k e1 e2 e3 = record {
  status_same = e1 ∙ k.status_same;
  lp_same = e2 ∙ k.lp_same;
  fees_same = e3 ∙ k.fees_same;
}

module _ {W : Type 0} ⦃c : Chain W⦄ (a : MonitorAccounts) (amm : AmmInfo) where
  place_buy-Ensures :
      (ids : List ℕ) (price qty native : ℕ) (s : Placing W)
      → OnPlaced amm (goes_on s)
      → Ensures (λ s'. OnPlaced amm (goes_on s')) (place_buy a ids price qty native s)
  unfolding place_buy incr_client_order_id
  place_buy-Ensures [] price qty native s h = step (note_buy s.target _) _ λ target _.
      step (non_zero native) _ λ native' _.
        step (invoke_dex_new_order_v3 s.world (order_accounts a) a.amm_pc_vault (seeds_of s.amm) _)
          _ λ world _. ok-Ensures _ (same_pool h.0 refl refl refl, h.1)
  place_buy-Ensures (first ∷ ids) price qty native s h = step (note_buy s.target _) _ λ target _.
      step (non_zero native) _ λ native' _.
        step
          (invoke_dex_replace_order_by_client_id s.world (order_accounts a) a.amm_pc_vault
            (seeds_of s.amm) _)
          _ λ world _. ok-Ensures _ h

  place_sell-Ensures :
      (ids : List ℕ) (price qty : ℕ) (s : Placing W)
      → OnPlaced amm (goes_on s)
      → Ensures (λ s'. OnPlaced amm (goes_on s')) (place_sell a ids price qty s)
  unfolding place_sell incr_client_order_id
  place_sell-Ensures [] price qty s h = step (note_sell s.target _) _ λ target _.
      step (invoke_dex_new_order_v3 s.world (order_accounts a) a.amm_coin_vault (seeds_of s.amm) _)
        _ λ world _. ok-Ensures _ (same_pool h.0 refl refl refl, h.1)
  place_sell-Ensures (first ∷ ids) price qty s h = step (note_sell s.target _) _ λ target _.
      step
        (invoke_dex_replace_order_by_client_id s.world (order_accounts a) a.amm_coin_vault
          (seeds_of s.amm) _)
        _ λ world _. ok-Ensures _ h

  reload-Ensures :
      (s : Placing W)
      → OnPlaced amm (goes_on s)
      → Ensures (λ s'. OnPlaced amm (goes_on s')) (reload a s)
  unfolding reload
  reload-Ensures s h = step (c.load_orders s.world a.amm_open_orders) _ λ o _.
      step (unpack_token_account s.world a.amm_pc_vault c.spl_token_id) _ λ pc _.
        step (unpack_token_account s.world a.amm_pc_vault c.spl_token_id) _ λ coin _.
          step (avaliable pc.amount o.native_pc_free s.amm.state_data.need_take_pnl_pc) _ λ _ _.
            step (avaliable coin.amount o.native_coin_free s.amm.state_data.need_take_pnl_coin) _
              λ _ _. ok-Ensures _ h

  end_round-Ensures :
      (s : Placing W)
      → OnPlaced amm (goes_on s)
      → Ensures (λ s'. OnPlaced amm (goes_on s')) (end_round a s)
  unfolding end_round
  end_round-Ensures s h =
      step (unwrap (Std.checked_add 64 s.target.place_orders_cur 1)) _ λ cur _.
        reload-Ensures (record s { target = record (s.target) { place_orders_cur = cur } }) h

module _ {W : Type 0} ⦃c : Chain W⦄ ⦃u : Uint 128⦄ (a : MonitorAccounts) (amm : AmmInfo) where
  stop-OnPlaced :
      (s : Placing W) → OnPlaced amm (goes_on s) → OnPlaced amm (returned (stop_placing s))
  unfolding stop_placing Machine.into_u64
  stop-OnPlaced s h = (same_pool h.0 refl refl refl, refl)

  buy_round-Ensures :
      (orders : List TargetOrder) (i : ℕ) (s : Placing W)
      → OnPlaced amm (goes_on s)
      → Ensures (OnPlaced amm) (buy_round a orders i s)
  unfolding buy_round
  buy_round-Ensures orders i s h = step (unwrap (get_elem? orders i)) _ λ order _.
      step (convert_price_out order.price s.amm.pc_lot_size) _ λ price _.
        step
          (convert_vol_out order.vol s.amm.coin_decimals s.amm.coin_lot_size
            s.amm.sys_decimal_value)
          _
          λ qty _.
            step
              (convert_out_pc_lot_size (s.amm.pc_decimals % 2 ^ 8) (s.amm.coin_decimals % 2 ^ 8)
                s.amm.pc_lot_size s.amm.coin_lot_size s.amm.sys_decimal_value)
              _
              λ lot _. step (unwrap (Std.checked_mul 64 qty price)) _ λ lots _.
                step (unwrap (Std.checked_mul 64 lots lot)) _ λ native _.
                  if-Ensures (ltb s.pc_avaliable native) (λ _. ok-Ensures _ (stop-OnPlaced s h))
                    λ _.
                      if-Ensures (not (price == 0) && not (qty == 0))
                        (λ _. step (place_buy a s.bids_client_ids price qty native s) _ λ s' e.
                          step (unwrap (Std.checked_add 64 s'.target.valid_buy_order_num 1)) _
                            λ num _. ok-Ensures _ (
                              (place_buy-Ensures a amm s.bids_client_ids price qty native s h).holds
                                s' e))
                        (λ _. ok-Ensures _ h)

  sell_round-Ensures :
      (orders : List TargetOrder) (i : ℕ) (s : Placing W)
      → OnPlaced amm (goes_on s)
      → Ensures (OnPlaced amm) (sell_round a orders i s)
  unfolding sell_round
  sell_round-Ensures orders i s h = step (unwrap (get_elem? orders i)) _ λ order _.
      step (convert_price_out order.price s.amm.pc_lot_size) _ λ price _.
        step
          (convert_vol_out order.vol s.amm.coin_decimals s.amm.coin_lot_size
            s.amm.sys_decimal_value)
          _
          λ qty _. step (unwrap (Std.checked_mul 64 qty s.amm.coin_lot_size)) _ λ coins _.
            if-Ensures (ltb s.coin_avaliable coins) (λ _. ok-Ensures _ (stop-OnPlaced s h))
              λ _.
                if-Ensures (not (price == 0) && not (qty == 0))
                  (λ _. step (place_sell a s.asks_client_ids price qty s) _ λ s' e.
                    step (unwrap (Std.checked_add 64 s'.target.valid_sell_order_num 1)) _ λ num _.
                      ok-Ensures _
                        ((place_sell-Ensures a amm s.asks_client_ids price qty s h).holds s' e))
                  (λ _. ok-Ensures _ h)

  and_then-Ensures :
      (p : Placed (Placing W)) (next : Placing W → Result (Placed (Placing W)))
      → OnPlaced amm p
      → ((s : Placing W) → OnPlaced amm (goes_on s) → Ensures (OnPlaced amm) (next s))
      → Ensures (OnPlaced amm) (and_then p next)
  and_then-Ensures (goes_on s) next h k = k s h
  and_then-Ensures (returned s) next h k = ok-Ensures _ h

  place_round-Ensures :
      (buys sells : List TargetOrder) (i : ℕ) (s : Placing W)
      → OnPlaced amm (goes_on s)
      → Ensures (OnPlaced amm) (place_round a buys sells i s)
  unfolding place_round
  place_round-Ensures buys sells i s h = step (buy_round a buys i s) _ λ bought eb.
      step (and_then bought (λ s'. sell_round a sells i s')) _ λ sold es.
        and_then-Ensures sold _
          ((and_then-Ensures bought _ ((buy_round-Ensures buys i s h).holds bought eb)
              (λ s' h'. sell_round-Ensures sells i s' h')).holds
            sold es)
          (λ s' h'.
            step (end_round a s') _
              λ s'' e. ok-Ensures _ ((end_round-Ensures a amm s' h').holds s'' e))

  place_rounds-Ensures :
      (left i : ℕ) (buys sells : List TargetOrder) (s : Placing W)
      → OnPlaced amm (goes_on s)
      → Ensures (OnPlaced amm) (place_rounds left i a buys sells s)
  unfolding place_rounds
  place_rounds-Ensures zero i buys sells s h = ok-Ensures _ h
  place_rounds-Ensures (suc left) i buys sells s h =
      step (place_round a buys sells i s) _ λ placed e.
        and_then-Ensures placed _ ((place_round-Ensures buys sells i s h).holds placed e)
          (λ s' h'. place_rounds-Ensures left (suc i) buys sells s' h')

  start_loop-Ensures :
      (target : TargetOrders) (b : Book) (f : Funds) (w : W)
      → Ensures (λ s. OnPlaced amm (goes_on s)) (start_loop amm target b f w)
  unfolding start_loop
  start_loop-Ensures target b f w =
      step (avaliable f.pc_amount b.open_orders.native_pc_free amm.state_data.need_take_pnl_pc) _
        λ _ _.
          step
            (avaliable f.coin_amount b.open_orders.native_coin_free
              amm.state_data.need_take_pnl_coin)
            _ λ _ _. ok-Ensures _ (keeps amm, refl)

  finish_placing-Ensures :
      (x y : ℕ) (s : Placing W)
      → OnPlaced amm (goes_on s)
      → Ensures
          (λ r. KeepsPool amm r.1 × ((r.1.state ≡ 6) ⊎ (r.1.state ≡ amm.state)))
          (finish_placing x y s)
  unfolding finish_placing Machine.into_u64
  finish_placing-Ensures x y s h =
      step
        (if s.target.place_orders_cur == s.amm.order_num
          then (unwrap (u.as_u128 x) >>= λ placed_x. unwrap (u.as_u128 y) >>= λ placed_y.
              ok (record (s.target) { placed_x = placed_x; placed_y = placed_y }))
          else ok s.target)
        _
        λ target _.
          if-Ensures (leb s.amm.order_num target.place_orders_cur)
            (λ _. ok-Ensures _ (same_pool h.0 refl refl refl, inl refl))
            (λ _. ok-Ensures _ (h.0, inr h.1))

  finish_placed-Ensures :
      (x y : ℕ) (p : Placed (Placing W))
      → OnPlaced amm p
      → Ensures
          (λ r. KeepsPool amm r.1 × ((r.1.state ≡ 2) ⊎ (r.1.state ≡ 6) ⊎ (r.1.state ≡ amm.state)))
          (finish_placed x y p)
  unfolding finish_placed
  finish_placed-Ensures x y (goes_on s) h = record {
    holds =
        λ r e. let (kept, state) = (finish_placing-Ensures x y s h).holds r e in (kept, inr state);
  }
  finish_placed-Ensures x y (returned s) h = ok-Ensures _ (h.0, inl h.1)

  -- What placing makes of the pool.
  pub place-Ensures :
      (limit : ℕ) (target : TargetOrders) (b : Book) (f : Funds) (w : W)
      → Ensures
          (λ r.
            KeepsPool amm r.1
            × ((r.1.state ≡ 1) ⊎ (r.1.state ≡ 2) ⊎ (r.1.state ≡ 6) ⊎ (r.1.state ≡ amm.state)))
          (do_place_orders limit a amm target b f w)
  unfolding do_place_orders Machine.into_u64
  place-Ensures limit target b f w =
      if-Ensures (ltb 100 (used_slots b.open_orders))
        (λ _. ok-Ensures _ (same_pool (keeps amm) refl refl refl, inr (inl refl)))
        λ _. step (normalize_decimal_v2 f.total_pc amm.pc_decimals amm.sys_decimal_value) _ λ x _.
          step (normalize_decimal_v2 f.total_coin amm.coin_decimals amm.sys_decimal_value) _ λ y _.
            step (err_if (x == 0 || y == 0) checked_empty_funds) _ λ _ _.
              if-Ensures (not (x == target.target_x) || not (y == target.target_y))
                (λ _. ok-Ensures _ (same_pool (keeps amm) refl refl refl, inl refl))
                λ _. step (orders_num amm target.place_orders_cur limit) _ λ num _.
                  step (start_loop amm target b f w) _ λ s es.
                    step
                      (place_rounds (num - target.place_orders_cur) target.place_orders_cur a
                        target.buy_orders target.sell_orders s)
                      _
                      λ placed e. record {
                        holds = λ r last.
                            let (kept, state) =
                              (finish_placed-Ensures x y placed (
                                  (place_rounds-Ensures (num - target.place_orders_cur)
                                      target.place_orders_cur target.buy_orders target.sell_orders s
                                      ((start_loop-Ensures target b f w).holds s es)).holds
                                    placed e)).holds
                                r last in
                            (kept, inr state);
                      }
