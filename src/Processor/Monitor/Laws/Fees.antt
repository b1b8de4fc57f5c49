-- ===== src/Processor/Monitor/Laws/Fees.antt =====
-- Why the documentation of `Fees` (program/src/state.rs) demands one denominator of two of the fees: without
-- it `do_plan_orderbook` can abort.
use solana_dex_amm.State.Fees as Fee
use solana_dex_amm.Words.Std
use solana_dex_amm.Processor.Monitor.Idle.{with_state}
use solana_dex_amm.State.Target.{TargetOrders}
use solana_dex_amm.State.Amm.{AmmInfo}
use solana_dex_amm.State.Machine.{AmmState}
use solana_dex_amm.Words.{Uint}
use solana_dex_amm.Prelude.{ℕ, ◌≡◌}

module _ ⦃u : Uint 128⦄ where
  -- What a call that returns has done: the pool is idle and no order is planned.
  abbrev pub PlansNothing : AmmInfo → (planned : ℕ) → AmmInfo × TargetOrders → Type 0
  PlansNothing amm planned r =
      (r.0 ≡ with_state amm AmmState.idle_state) × (r.1.plan_orders_cur ≡ planned)
