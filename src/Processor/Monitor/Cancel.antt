-- ===== src/Processor/Monitor/Cancel.antt =====
-- program/src/processor.rs: `do_cancel_order`, `do_purge_orders` and `do_cancel_all_orders_state`.
use solana_dex_amm.State.ResetFlag
use solana_dex_amm.Result.{Result, ok, ◌>>=◌}
use solana_dex_amm.Chain.{Chain, Seeds}
use solana_dex_amm.Serum.{LeafNode, OpenOrders}
use solana_dex_amm.Processor.Orders.{collect_order_ids}
use solana_dex_amm.Processor.Swap.Settle.{order_ids, seeds_of}
use solana_dex_amm.Processor.Monitor.Idle.{is_empty, with_state}
use solana_dex_amm.Processor.Monitor.Accounts.{Book, MonitorAccounts}
use solana_dex_amm.State.ResetFlag.{AmmResetFlag}
use solana_dex_amm.State.Target.{TargetOrders}
use solana_dex_amm.State.Amm.{AmmInfo}
use solana_dex_amm.State.Machine.{AmmState}
use solana_dex_amm.Prelude.{
  List, [], drop, if◌then◌else◌, leb, length, ltb, not, suc, zero, ℕ, ◌&&◌, ◌++◌, ◌+◌, ◌==◌, ◌||◌,
  ◌∷◌,
}
use solana_dex_amm.Chain.Book.{test_bit}
use solana_dex_amm.Chain.Invokers.{
  invoke_dex_cancel_orders_by_client_order_ids, invoke_dex_settle_funds,
}

-- `count_zeros` of the bits from `i` on, of which `left` are left
unfoldable pub count_zeros_from : (left i bits : ℕ) → ℕ
unfolding test_bit
count_zeros_from zero i bits = 0
count_zeros_from (suc left) i bits =
    let rest = count_zeros_from left (suc i) bits in if test_bit bits i then rest else 1 + rest

-- `free_slot_bits.count_zeros()`
abbrev pub used_slots : OpenOrders → ℕ
used_slots o = count_zeros_from 128 0 o.free_slot_bits

unfoldable pub do_cancel_order : AmmInfo → AmmInfo
do_cancel_order amm = with_state amm AmmState.idle_state

module _ {W : Type 0} ⦃c : Chain W⦄ where
  -- one call for each array of ids
  unfoldable pub cancel_ids : MonitorAccounts → Seeds → List (List ℕ) → W → Result W
  unfolding invoke_dex_cancel_orders_by_client_order_ids
  cancel_ids a seeds [] w = ok w
  cancel_ids a seeds (ids ∷ batches) w = do
    w' ←
        invoke_dex_cancel_orders_by_client_order_ids w a.market_program a.market a.market_bids
          a.market_asks a.amm_open_orders a.amm_authority a.market_event_queue seeds ids
    cancel_ids a seeds batches w'

  -- The loop takes the ids one at a time, as `collect_order_ids` does with the ids of one side only.
  unfoldable pub do_purge_orders :
      MonitorAccounts
      → AmmInfo
      → TargetOrders
      → (bids asks : List LeafNode) → W
      → Result (W × AmmInfo)
  do_purge_orders a amm target bids asks w =
      if leb (length bids) target.valid_buy_order_num
        && leb (length asks) target.valid_sell_order_num
      then ok (w, with_state amm AmmState.idle_state)
      else (do
        batches ←
            collect_order_ids
              (order_ids (drop target.valid_buy_order_num bids)
                ++ order_ids (drop target.valid_sell_order_num asks))
              []
        w' ← cancel_ids a (seeds_of amm) batches w
        ok (w', amm))

  -- funds are settled if the open orders hold any
  unfoldable pub settle_open_orders : MonitorAccounts → AmmInfo → OpenOrders → W → Result W
  unfolding invoke_dex_settle_funds
  settle_open_orders a amm o w =
      if not (o.native_coin_total == 0) || not (o.native_pc_total == 0)
      then invoke_dex_settle_funds w a.market_program a.market a.amm_open_orders a.amm_authority
          a.market_coin_vault a.market_pc_vault a.amm_coin_vault a.amm_pc_vault
          a.market_vault_signer a.token_program a.referrer_pc (seeds_of amm)
      else ok w

  unfoldable pub do_cancel_all_orders_state :
      MonitorAccounts → AmmInfo → TargetOrders → Book → W → Result (W × AmmInfo × TargetOrders)
  do_cancel_all_orders_state a amm target b w =
      if ltb 100 (used_slots b.open_orders) && is_empty b.bids && is_empty b.asks
      then ok (w, amm, target)
      else (do
        batches ← collect_order_ids (order_ids b.bids) (order_ids b.asks)
        w1 ← cancel_ids a (seeds_of amm) batches w
        w2 ← settle_open_orders a amm b.open_orders w1
        let reset_flag : ℕ =
            if amm.reset_flag == ResetFlag.into_u64 AmmResetFlag.reset_yes
            then ResetFlag.into_u64 AmmResetFlag.reset_no
            else amm.reset_flag
        ok (
          w2,
          record (with_state amm AmmState.idle_state) { reset_flag = reset_flag },
          record target { plan_orders_cur = 0; place_orders_cur = 0 },
        ))
