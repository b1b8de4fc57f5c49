-- ===== src/Math/Vault.antt =====
-- program/src/math.rs: the pool's totals, with what lies in open orders and in events that the market
-- has not yet settled. Arithmetic that overflows is a panic, as the crate is built.
pub mod Laws
use solana_dex_amm.Words.Std
use solana_dex_amm.Result.{
  Result, checked_add_overflow, checked_sub_overflow, ok, ok_or, unwrap, ◌>>=◌,
}
use solana_dex_amm.Serum.{Event, EventView, OpenOrders, ask, bid, fill}
use solana_dex_amm.State.Amm.{AmmInfo}
use solana_dex_amm.Prelude.{List, Option, [], false, if◌then◌else◌, true, ℕ, ◌==◌, ◌∷◌}

-- one event of the account itself, on the totals of pc and coin
apply_view : EventView → ℕ × ℕ → Result (ℕ × ℕ)
apply_view (fill bid true paid received) (pc, coin) = do
  pc' ← unwrap (Std.checked_sub pc paid)
  coin' ← unwrap (Std.checked_add 64 coin received)
  ok (pc', coin')
apply_view (fill ask true paid received) (pc, coin) = do
  coin' ← unwrap (Std.checked_sub coin paid)
  pc' ← unwrap (Std.checked_add 64 pc received)
  ok (pc', coin')
apply_view (fill side false paid received) totals = ok totals
apply_view EventView.out totals = ok totals

-- the loop over the event queue, for the account with key `own`
apply_events : ℕ → List Event → ℕ × ℕ → Result (ℕ × ℕ)
apply_events own [] totals = ok totals
apply_events own (event ∷ events) totals = do
  totals' ← if event.owner == own then apply_view event.view totals else ok totals
  apply_events own events totals'

-- `event_q` is what `load_event_queue_mut` gives; `none` is its failure, which the code unwraps.
unfoldable pub calc_exact_vault_in_serum : OpenOrders → Option (List Event) → ℕ → Result (ℕ × ℕ)
unfolding apply_events apply_view
calc_exact_vault_in_serum open_orders event_q amm_open_account = do
  events ← unwrap event_q
  apply_events amm_open_account events (open_orders.native_pc_total, open_orders.native_coin_total)

-- vault + in serum - profit that is still to be taken
unfoldable pub without_take_pnl : ℕ → ℕ → ℕ → Result ℕ
without_take_pnl amount in_serum need_take_pnl = do
  sum ← ok_or (Std.checked_add 64 amount in_serum) checked_add_overflow
  ok_or (Std.checked_sub sum need_take_pnl) checked_sub_overflow

unfoldable pub calc_total_without_take_pnl :
    ℕ → ℕ → OpenOrders → AmmInfo → Option (List Event) → ℕ → Result (ℕ × ℕ)
unfolding without_take_pnl
calc_total_without_take_pnl pc_amount coin_amount open_orders amm event_q amm_open_account = do
  (pc_in_serum, coin_in_serum) ← calc_exact_vault_in_serum open_orders event_q amm_open_account
  total_pc ← without_take_pnl pc_amount pc_in_serum amm.state_data.need_take_pnl_pc
  total_coin ← without_take_pnl coin_amount coin_in_serum amm.state_data.need_take_pnl_coin
  ok (total_pc, total_coin)

unfoldable pub calc_total_without_take_pnl_no_orderbook :
    ℕ → ℕ → OpenOrders → AmmInfo → Result (ℕ × ℕ)
unfolding without_take_pnl
calc_total_without_take_pnl_no_orderbook pc_amount coin_amount open_orders amm = do
  total_pc ← without_take_pnl pc_amount open_orders.native_pc_total amm.state_data.need_take_pnl_pc
  total_coin ←
      without_take_pnl coin_amount open_orders.native_coin_total amm.state_data.need_take_pnl_coin
  ok (total_pc, total_coin)
