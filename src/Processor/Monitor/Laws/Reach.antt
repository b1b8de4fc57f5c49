-- ===== src/Processor/Monitor/Laws/Reach.antt =====
-- Which states of the orders a pool can reach.
use solana_dex_amm.Chain.{AccountInfo, Chain}
use solana_dex_amm.Result.{Result, ok, ok_injective}
use solana_dex_amm.Instruction.{
  MonitorStepInstruction, SetParamsInstruction, SwapInstructionBaseIn, SwapInstructionBaseOut,
}
use solana_dex_amm.Processor.Swap.Prepare.{SwapAccounts, swap_accounts}
use solana_dex_amm.Processor.Swap.Settle.{Outcome, process_swap_base_in, process_swap_base_out}
use solana_dex_amm.Processor.Swap.Settle.Kept.{
  process_swap_base_in-KeepsState, process_swap_base_out-KeepsState,
}
use solana_dex_amm.Processor.SetParams.Handler.{ParamsOutcome, process_set_params}
use solana_dex_amm.Processor.SetParams.Laws.{process_set_params-IsParamsSet}
use solana_dex_amm.Processor.SetParams.Accounts.{ParamsAccounts, params_accounts}
use solana_dex_amm.Processor.Deposit.Handler.{PoolOutcome}
use solana_dex_amm.Processor.Monitor.Step.{MonitorOutcome, process_monitor_step}
use solana_dex_amm.Processor.Monitor.Laws.{IsMonitorStep}
use solana_dex_amm.Processor.Monitor.Accounts.{MonitorAccounts, monitor_accounts}
use solana_dex_amm.Processor.Monitor.Laws.Step.{process_monitor_step-IsMonitored}
use solana_dex_amm.Processor.WithdrawPnl.Handler.{process_withdrawpnl}
use solana_dex_amm.Processor.WithdrawPnl.Laws.{process_withdrawpnl-IsPnlTaken}
use solana_dex_amm.Processor.WithdrawPnl.Steps.{PnlStep-state}
use solana_dex_amm.Processor.WithdrawPnl.Accounts.{PnlAccounts, pnl_accounts}
use solana_dex_amm.State.Amm.{AmmInfo}
use solana_dex_amm.Words.{Uint}
use solana_dex_amm.Prelude.{List, ap, arith, some, sym, ℕ, ◌∙◌, ◌≡◌, ◌≢◌, ◌⊎◌}
use mathlib.Core.Option.{some-injective}

-- The successful calls that swap, keep the orders of a pool, take its profit or set its parameters, on any
-- state of the chain in which the account `pool` holds `amm`; `amm'` is what they leave in it.
pub data PoolStep (W : Type 0) ⦃c : Chain W⦄ ⦃u : Uint 128⦄ ⦃v : Uint 256⦄ (program_id pool : ℕ)
    (amm amm' : AmmInfo) : Type 0 where
  monitored :
      (accounts : List AccountInfo) (m : MonitorStepInstruction) (w : W) (o : MonitorOutcome W)
      (a : MonitorAccounts)
      → monitor_accounts accounts ≡ ok a
      → a.amm_info.key ≡ pool
      → c.amm_info w pool ≡ some amm
      → process_monitor_step program_id accounts m w ≡ ok o
      → o.amm ≡ amm'
      → PoolStep W program_id pool amm amm'
  pnl_taken :
      (accounts : List AccountInfo) (w : W) (o : PoolOutcome W) (a : PnlAccounts)
      → pnl_accounts accounts ≡ ok a
      → a.amm_info.key ≡ pool
      → c.amm_info w pool ≡ some amm
      → process_withdrawpnl program_id accounts w ≡ ok o
      → o.amm ≡ amm'
      → PoolStep W program_id pool amm amm'
  params_set :
      (accounts : List AccountInfo) (p : SetParamsInstruction ℕ) (w : W) (o : ParamsOutcome W)
      (a : ParamsAccounts) (rest : List AccountInfo)
      → params_accounts accounts ≡ ok (a, rest)
      → a.amm_info.key ≡ pool
      → c.amm_info w pool ≡ some amm
      → process_set_params program_id accounts p w ≡ ok o
      → o.amm ≡ amm'
      → PoolStep W program_id pool amm amm'
  swapped_in :
      (accounts : List AccountInfo) (swap : SwapInstructionBaseIn) (w : W) (o : Outcome W)
      (a : SwapAccounts)
      → swap_accounts accounts ≡ ok a
      → a.amm_info.key ≡ pool
      → c.amm_info w pool ≡ some amm
      → process_swap_base_in program_id accounts swap w ≡ ok o
      → o.amm ≡ amm'
      → PoolStep W program_id pool amm amm'
  swapped_out :
      (accounts : List AccountInfo) (swap : SwapInstructionBaseOut) (w : W) (o : Outcome W)
      (a : SwapAccounts)
      → swap_accounts accounts ≡ ok a
      → a.amm_info.key ≡ pool
      → c.amm_info w pool ≡ some amm
      → process_swap_base_out program_id accounts swap w ≡ ok o
      → o.amm ≡ amm'
      → PoolStep W program_id pool amm amm'

pub data Reach (W : Type 0) ⦃c : Chain W⦄ ⦃u : Uint 128⦄ ⦃v : Uint 256⦄ (program_id pool : ℕ)
    (amm : AmmInfo) : AmmInfo → Type 0 where
  here : Reach W program_id pool amm amm
  next :
      {amm' amm'' : AmmInfo}
      → Reach W program_id pool amm amm'
      → PoolStep W program_id pool amm' amm''
      → Reach W program_id pool amm amm''

step-not_cancel : (amm amm' : AmmInfo) → IsMonitorStep amm amm' → amm.state ≢ 4 → amm'.state ≢ 4
step-not_cancel amm amm' s n e = let state = s.state in ground arith

pnl-not_cancel :
    (before after loaded : ℕ)
    → before ≡ loaded
    → (after ≡ before) ⊎ (after ≡ 2)
    → loaded ≢ 4
    → after ≢ 4
pnl-not_cancel before after loaded same s n e = ground arith

module _ {W : Type 0} ⦃c : Chain W⦄ ⦃u : Uint 128⦄ ⦃v : Uint 256⦄ (program_id pool : ℕ) where
  -- The account that a call loads is the one that its list names.
  same_pool :
      (w : W) {A : Type 0} (info : A → AccountInfo) {r : Result A} {a b : A} {amm loaded : AmmInfo}
      → r ≡ ok a
      → r ≡ ok b
      → (info a).key ≡ pool
      → c.amm_info w pool ≡ some amm
      → c.amm_info w (info b).key ≡ some loaded
      → loaded ≡ amm
  same_pool w info ea eb key read found =
      let keys = ap (λ x. (info x).key) (ok_injective (sym ea ∙ eb)) in
      some-injective _ _ (sym found ∙ ap (c.amm_info w) (sym keys ∙ key) ∙ read)

  PoolStep-not_cancel :
      (amm amm' : AmmInfo) → PoolStep W program_id pool amm amm' → amm.state ≢ 4 → amm'.state ≢ 4
  PoolStep-not_cancel amm amm' (monitored accounts m w o a parsed key read e eq) n =
      let k = process_monitor_step-IsMonitored program_id accounts m w o e in
      let same = same_pool w (λ x. x.amm_info) parsed k.parsed_eq key read k.read in
      rw (← eq) (step-not_cancel k.amm o.amm k.stepped (rw same n))
  PoolStep-not_cancel amm amm' (pnl_taken accounts w o a parsed key read e eq) n =
      let k = process_withdrawpnl-IsPnlTaken program_id accounts w o e in
      let same = same_pool w (λ x. x.amm_info) parsed k.parsed_eq key read k.amm_read in
      rw (← eq) (
        pnl-not_cancel k.totals.taken.amm.state o.amm.state k.amm.state
          k.measured.taken.moved.state_same
          (PnlStep-state k.parsed k.target k.totals _ _ _ w o k.next) (rw same n))
  PoolStep-not_cancel amm amm' (params_set accounts p w o a rest parsed key read e eq) n =
      let k = process_set_params-IsParamsSet program_id accounts p w o e in
      let state = k.canceling in rw (← eq) (λ h. absurd (omega (arith, state, h)))
  PoolStep-not_cancel amm amm' (swapped_in accounts swap w o a parsed key read e eq) n =
      let k = process_swap_base_in-KeepsState program_id accounts w swap o e in
      let same = same_pool w (λ x. x.amm_info) parsed k.parsed_eq key read k.read in
      let state = ap (λ x. x.state) same in rw (← eq) (λ h. n (sym state ∙ sym k.state_same ∙ h))
  PoolStep-not_cancel amm amm' (swapped_out accounts swap w o a parsed key read e eq) n =
      let k = process_swap_base_out-KeepsState program_id accounts w swap o e in
      let same = same_pool w (λ x. x.amm_info) parsed k.parsed_eq key read k.read in
      let state = ap (λ x. x.state) same in rw (← eq) (λ h. n (sym state ∙ sym k.state_same ∙ h))

  -- A pool that is not in CancelOrderState never gets there by successful calls of
  -- `process_swap_base_in`, `process_swap_base_out`, `process_monitor_step`, `process_withdrawpnl` and
  -- `process_set_params`, each on what the call before it has left in the pool's account.
  pub Reach-not_cancel :
      (amm amm' : AmmInfo) → amm.state ≢ 4 → Reach W program_id pool amm amm' → amm'.state ≢ 4
  Reach-not_cancel amm amm' n here = n
  Reach-not_cancel amm last n (next before s) =
      PoolStep-not_cancel _ _ s (Reach-not_cancel amm _ n before)
