-- ===== src/Processor/WithdrawPnl/Steps.antt =====
-- Which branch `process_withdrawpnl` takes, and what each leaves of the profit and of the chain.
use solana_dex_amm.State.Status
use solana_dex_amm.State.Machine
use solana_dex_amm.Chain.{Chain, transfer}
use solana_dex_amm.Serum.{OpenOrders}
use solana_dex_amm.Result.{Ensures, bind-eq-ok, ok, ok-Ensures, step}
use solana_dex_amm.Processor.Swap.Settle.{seeds_of}
use solana_dex_amm.Processor.Deposit.Handler.{PoolOutcome, Totals}
use solana_dex_amm.Processor.WithdrawPnl.Handler.{
  PnlCase, clear_pnl, finish_pnl, pay_pnl, pnl_beyond, pnl_case, pnl_within, settle_pnl,
}
use solana_dex_amm.Processor.WithdrawPnl.Accounts.{PnlAccounts}
use solana_dex_amm.State.Target.{TargetOrders}
use solana_dex_amm.State.Amm.{AmmInfo}
use solana_dex_amm.Words.{Uint}
use solana_dex_amm.Words.Laws.{uint_laws}
use solana_dex_amm.Chain.Invokers.{token_transfer_with_authority}
use solana_dex_amm.Prelude.{ap, arith, inl, inr, refl, some, ℕ, ◌+◌, ◌<◌, ◌≡◌, ◌≤◌, ◌⊎◌}

-- Where a branch is taken, for the profit to be paid, the vaults and the open orders.
pub data IsCase (need_coin need_pc coin pc : ℕ) (o : OpenOrders) : PnlCase → Type 0 where
  in_vaults : need_coin ≤ coin → need_pc ≤ pc → IsCase need_coin need_pc coin pc o PnlCase.direct
  with_free :
      need_coin ≤ coin + o.native_coin_free
      → need_pc ≤ pc + o.native_pc_free
      → IsCase need_coin need_pc coin pc o PnlCase.settled
  beyond :
      (coin + o.native_coin_total ≤ need_coin) ⊎ (pc + o.native_pc_total ≤ need_pc)
      → IsCase need_coin need_pc coin pc o PnlCase.disabled
  between :
      (coin + o.native_coin_free < need_coin) ⊎ (pc + o.native_pc_free < need_pc)
      → need_coin < coin + o.native_coin_total
      → need_pc < pc + o.native_pc_total
      → IsCase need_coin need_pc coin pc o PnlCase.postponed

pub pnl_case-IsCase :
    (amm : AmmInfo) (coin pc : ℕ) (o : OpenOrders) (branch : PnlCase)
    → pnl_case amm coin pc o ≡ ok branch
    → IsCase amm.state_data.need_take_pnl_coin amm.state_data.need_take_pnl_pc coin pc o branch
unfolding pnl_case pnl_within pnl_beyond
pnl_case-IsCase amm coin pc o PnlCase.direct e =
    let le : (amm.state_data.need_take_pnl_coin ≤ coin) × (amm.state_data.need_take_pnl_pc ≤ pc) =
      ground arith in
    in_vaults le.0 le.1
pnl_case-IsCase amm coin pc o PnlCase.settled e =
    let le : (amm.state_data.need_take_pnl_coin ≤ coin + o.native_coin_free)
        × (amm.state_data.need_take_pnl_pc ≤ pc + o.native_pc_free) =
      ground arith in
    with_free le.0 le.1
pnl_case-IsCase amm coin pc o PnlCase.disabled e = beyond (ground arith)
pnl_case-IsCase amm coin pc o PnlCase.postponed e =
    let le : ((coin + o.native_coin_free < amm.state_data.need_take_pnl_coin)
          ⊎ (pc + o.native_pc_free < amm.state_data.need_take_pnl_pc))
        × (amm.state_data.need_take_pnl_coin < coin + o.native_coin_total)
        × (amm.state_data.need_take_pnl_pc < pc + o.native_pc_total) =
      ground arith in
    between le.0 le.1 le.2

-- The two transfers of the payment: all profit that is booked, from the vaults to the accounts that are
-- named, signed by the pool.
pub record IsPaidOut {W : Type 0} ⦃c : Chain W⦄ (a : PnlAccounts) (amm : AmmInfo) (w w' : W)
    : Type 0 where
  pub mid : W
  pub coin_paid :
      c.invoke_signed w
        (transfer a.token_program.key a.amm_coin_vault.key a.user_pnl_coin.key a.amm_authority.key
          amm.state_data.need_take_pnl_coin)
        (some (seeds_of amm))
      ≡ ok mid
  pub pc_paid :
      c.invoke_signed mid
        (transfer a.token_program.key a.amm_pc_vault.key a.user_pnl_pc.key a.amm_authority.key
          amm.state_data.need_take_pnl_pc)
        (some (seeds_of amm))
      ≡ ok w'

-- What the handler makes of the pool, the target orders and the chain, once profit has been booked: all
-- booked profit is paid, from the vaults or after funds have been settled, and cleared, and the next is
-- measured from the amounts that remain; or the profit is beyond the totals, nothing is paid and the pool
-- is disabled, its orders to be canceled; or it is between, and the booking stays and nothing else changes.
pub data PnlStep {W : Type 0} ⦃c : Chain W⦄ (a : PnlAccounts) (target : TargetOrders) (t : Totals)
    (coin pc : ℕ) (orders : OpenOrders) (w : W) (o : PoolOutcome W) : Type 0 where
  cleared :
      (w1 : W)
      → ((IsCase t.taken.amm.state_data.need_take_pnl_coin t.taken.amm.state_data.need_take_pnl_pc
              coin pc orders PnlCase.direct
            × (w1 ≡ w))
          ⊎ (IsCase t.taken.amm.state_data.need_take_pnl_coin
                t.taken.amm.state_data.need_take_pnl_pc coin pc orders PnlCase.settled
              × (settle_pnl a (seeds_of t.taken.amm) w ≡ ok w1)))
      → IsPaidOut a t.taken.amm w1 o.world
      → o.amm.state_data.need_take_pnl_coin ≡ 0
      → o.amm.state_data.need_take_pnl_pc ≡ 0
      → o.target.calc_pnl_x + t.taken.delta_x ≡ t.x1
      → o.target.calc_pnl_y + t.taken.delta_y ≡ t.y1
      → o.amm.status ≡ t.taken.amm.status
      → o.amm.state ≡ t.taken.amm.state
      → PnlStep a target t coin pc orders w o
  stopped :
      IsCase t.taken.amm.state_data.need_take_pnl_coin t.taken.amm.state_data.need_take_pnl_pc coin
        pc orders PnlCase.disabled
      → o.world ≡ w
      → o.amm.status ≡ 2
      → o.amm.state ≡ 2
      → o.amm.state_data ≡ t.taken.amm.state_data
      → o.target ≡ target
      → PnlStep a target t coin pc orders w o
  waits :
      IsCase t.taken.amm.state_data.need_take_pnl_coin t.taken.amm.state_data.need_take_pnl_pc coin
        pc orders PnlCase.postponed
      → o.world ≡ w
      → o.amm ≡ t.taken.amm
      → o.target ≡ target
      → PnlStep a target t coin pc orders w o

-- The state of the orders stays, or all orders are to be canceled.
pub PnlStep-state :
    {W : Type 0} ⦃c : Chain W⦄ (a : PnlAccounts) (target : TargetOrders) (t : Totals) (coin pc : ℕ)
    (orders : OpenOrders) (w : W) (o : PoolOutcome W)
    → PnlStep a target t coin pc orders w o
    → (o.amm.state ≡ t.taken.amm.state) ⊎ (o.amm.state ≡ 2)
PnlStep-state a target t coin pc orders w o (cleared _ _ _ _ _ _ _ _ state) = inl state
PnlStep-state a target t coin pc orders w o (stopped _ _ _ state _ _) = inr state
PnlStep-state a target t coin pc orders w o (waits _ _ amm _) = inl (ap (λ x. x.state) amm)

module _ {W : Type 0} ⦃c : Chain W⦄ where
  pay_pnl-IsPaidOut :
      (a : PnlAccounts) (amm : AmmInfo) (w : W) {w' : W}
      → pay_pnl a amm w ≡ ok w'
      → IsPaidOut a amm w w'
  unfolding pay_pnl token_transfer_with_authority
  pay_pnl-IsPaidOut a amm w e =
      let (mid, coin_paid, pc_paid) =
        bind-eq-ok
          (token_transfer_with_authority w a.token_program a.amm_coin_vault a.user_pnl_coin
            a.amm_authority (seeds_of amm) amm.state_data.need_take_pnl_coin)
          _ e in
      record { mid = mid; coin_paid = coin_paid; pc_paid = pc_paid }

module _ ⦃u : Uint 128⦄ where
  clear_pnl_lem :
      (target : TargetOrders) (t : Totals) (r : AmmInfo × TargetOrders)
      → clear_pnl target t ≡ ok r
      → (r.0.state_data.need_take_pnl_coin ≡ 0)
        × (r.0.state_data.need_take_pnl_pc ≡ 0)
        × (r.1.calc_pnl_x + t.taken.delta_x ≡ t.x1)
        × (r.1.calc_pnl_y + t.taken.delta_y ≡ t.y1)
        × (r.0.status ≡ t.taken.amm.status)
        × (r.0.state ≡ t.taken.amm.state)
  unfolding clear_pnl
  clear_pnl_lem target t r e = let e' = simp uint_laws at e in ground arith

module _ {W : Type 0} ⦃c : Chain W⦄ ⦃u : Uint 128⦄ (a : PnlAccounts) (target : TargetOrders)
    (t : Totals) (coin pc : ℕ) (orders : OpenOrders) (w : W) where
  pub finish_pnl-Ensures :
      (branch : PnlCase)
      → IsCase t.taken.amm.state_data.need_take_pnl_coin t.taken.amm.state_data.need_take_pnl_pc
          coin pc orders branch
      → Ensures (PnlStep a target t coin pc orders w) (finish_pnl branch a target t w)
  unfolding finish_pnl Machine.into_u64 Status.into_u64
  finish_pnl-Ensures PnlCase.direct h = step (pay_pnl a t.taken.amm w) _ λ w' paid.
      step (clear_pnl target t) _ λ r e.
        let k = clear_pnl_lem target t r e in
        ok-Ensures _ (
          cleared w (inl (h, refl)) (pay_pnl-IsPaidOut a t.taken.amm w paid) k.0 k.1 k.2 k.3 k.4
            k.5)
  finish_pnl-Ensures PnlCase.settled h = step (settle_pnl a (seeds_of t.taken.amm) w) _ λ w1 freed.
      step (pay_pnl a t.taken.amm w1) _ λ w' paid. step (clear_pnl target t) _ λ r e.
        let k = clear_pnl_lem target t r e in
        ok-Ensures _ (
          cleared w1 (inr (h, freed)) (pay_pnl-IsPaidOut a t.taken.amm w1 paid) k.0 k.1 k.2 k.3 k.4
            k.5)
  finish_pnl-Ensures PnlCase.disabled h = ok-Ensures _ (stopped h refl refl refl refl refl)
  finish_pnl-Ensures PnlCase.postponed h = ok-Ensures _ (waits h refl refl refl)
