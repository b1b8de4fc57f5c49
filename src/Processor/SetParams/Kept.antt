-- ===== src/Processor/SetParams/Kept.antt =====
-- program/src/processor.rs, `process_set_params`: what each parameter leaves of the pool.
use solana_dex_amm.State.Fees as Fee
use solana_dex_amm.Result.{
  Ensures, ProgramError, err, err_if, invalid_input, ok-Ensures, ok_or, step, ◌>>=◌,
}
use solana_dex_amm.Chain.{AccountInfo, Chain, next_account_info}
use solana_dex_amm.Instruction.{SetParamsInstruction}
use solana_dex_amm.Processor.SetParams.Param.{
  Setting, check_nothing_shared, set_distance, set_fees, set_if, set_number, set_open_orders,
  set_owner, set_param, set_status,
}
use solana_dex_amm.Processor.SetParams.Accounts.{ParamsAccounts}
use solana_dex_amm.State.Target.{max_order_limit}
use solana_dex_amm.State.Amm.{AmmInfo}
use solana_dex_amm.State.Status.{valid_status}
use solana_dex_amm.State.Params.{AmmParams}
use solana_dex_amm.Prelude.{
  Bool, List, ap, arith, false, inl, inr, ltb, refl, some, true, ℕ, ◌≡◌, ◌≤◌, ◌⊎◌,
}
use solana_dex_amm.Chain.Load.{load_serum_market_order, load_target_checked}

-- what belongs to the users and to the owner of the profit, and where it is
abbrev pub funds : AmmInfo → ℕ × ℕ × ℕ × ℕ × ℕ
funds amm = (
  amm.lp_amount, amm.coin_vault, amm.pc_vault, amm.state_data.need_take_pnl_coin,
  amm.state_data.need_take_pnl_pc,
)

-- what a parameter does not change, or only in a way that is named
abbrev counted : AmmInfo → (ℕ × ℕ × ℕ × ℕ × ℕ) × ℕ × ℕ × ℕ
counted amm = (funds amm, amm.status, amm.order_num, amm.max_price_multiplier)

-- A parameter leaves the funds of the pool, makes the status only a valid one that is given, the number of
-- orders at most that of the target orders, and does not lower the largest price multiplier.
pub record KeepsFunds (p : SetParamsInstruction ℕ) (amm amm' : AmmInfo) : Type 0 where
  pub funds_same : funds amm' ≡ funds amm
  pub status :
      (amm'.status ≡ amm.status)
      ⊎ ((p.value ≡ some amm'.status) × (1 ≤ amm'.status) × (amm'.status ≤ 7))
  pub order_num : (amm'.order_num ≡ amm.order_num) ⊎ (amm'.order_num ≤ 10)
  pub multiplier_le : amm.max_price_multiplier ≤ amm'.max_price_multiplier

-- A parameter that is none of those that count.
kept :
    (p : SetParamsInstruction ℕ) (amm amm' : AmmInfo)
    → counted amm' ≡ counted amm
    → KeepsFunds p amm amm'
kept p amm amm' e = record {
  funds_same = ap (λ x. x.0) e;
  status = inl (ap (λ x. x.1) e);
  order_num = inl (ap (λ x. x.2) e);
  multiplier_le =
      let same : amm'.max_price_multiplier ≡ amm.max_price_multiplier = ap (λ x. x.3) e in
      omega arith;
}

err-Ensures {ℓ κ} : {A : Type ℓ} {P : A → Type κ} (e : ProgramError) → Ensures P (err e)
err-Ensures e = record { holds = λ a h. cc }

module _ (p : SetParamsInstruction ℕ) (amm : AmmInfo) where
  abbrev pub Kept : Setting → Type 0
  Kept s = KeepsFunds p amm s.amm

  -- A setting on a condition keeps the funds if the pool that it sets does, where the condition holds.
  set_if-Ensures :
      (b : Bool) (amm' : AmmInfo)
      → (b ≡ true → KeepsFunds p amm amm')
      → Ensures Kept (set_if b amm amm')
  set_if-Ensures true amm' h = ok-Ensures _ (h refl)
  set_if-Ensures false amm' h = ok-Ensures _ (kept p amm amm refl)

  set_number-Ensures : (param : AmmParams) (value : ℕ) → Ensures Kept (set_number param value amm)
  unfolding set_number
  set_number-Ensures AmmParams.state value = set_if-Ensures _ _ λ e. kept p amm _ refl
  set_number-Ensures AmmParams.order_num value =
      step (err_if (ltb max_order_limit value) invalid_input) _ λ _ e. ok-Ensures _ (record {
        funds_same = refl;
        status = inl refl;
        order_num = inr (ground arith);
        multiplier_le = omega arith;
      })
  set_number-Ensures AmmParams.depth value = set_if-Ensures _ _ λ e. kept p amm _ refl
  set_number-Ensures AmmParams.amount_wave value = ok-Ensures _ (kept p amm _ refl)
  set_number-Ensures AmmParams.min_price_multiplier value =
      set_if-Ensures _ _ λ e. kept p amm _ refl
  set_number-Ensures AmmParams.max_price_multiplier value = set_if-Ensures _ _ λ e. record {
    funds_same = refl;
    status = inl refl;
    order_num = inl refl;
    multiplier_le = ground arith;
  }
  set_number-Ensures AmmParams.vol_max_cut_ratio value = set_if-Ensures _ _ λ e. kept p amm _ refl
  set_number-Ensures AmmParams.seperate value = set_if-Ensures _ _ λ e. kept p amm _ refl
  set_number-Ensures AmmParams.set_open_time value = ok-Ensures _ (kept p amm _ refl)
  set_number-Ensures AmmParams.set_switch_time value = ok-Ensures _ (kept p amm _ refl)
  set_number-Ensures AmmParams.status value = err-Ensures _
  set_number-Ensures AmmParams.min_size value = err-Ensures _
  set_number-Ensures AmmParams.fees value = err-Ensures _
  set_number-Ensures AmmParams.amm_owner value = err-Ensures _
  set_number-Ensures AmmParams.last_order_distance value = err-Ensures _
  set_number-Ensures AmmParams.init_order_depth value = err-Ensures _
  set_number-Ensures AmmParams.clear_open_time value = err-Ensures _
  set_number-Ensures AmmParams.update_open_order value = err-Ensures _

  -- A parameter that takes a number fails without one.
  with_number :
      (param : AmmParams)
      → Ensures Kept (ok_or p.value invalid_input >>= λ value. set_number param value amm)
  with_number param = step (ok_or p.value invalid_input) _ λ value _. set_number-Ensures param value

module _ {W : Type 0} ⦃c : Chain W⦄ (w : W) (program_id : ℕ) (a : ParamsAccounts)
    (rest : List AccountInfo) (p : SetParamsInstruction ℕ) (amm : AmmInfo) where
  set_status-Ensures : Ensures (Kept p amm) (set_status w a p.value amm)
  unfolding set_status valid_status
  set_status-Ensures = step (check_nothing_shared w a amm) _ λ _ _.
      step (ok_or p.value invalid_input) _ λ value given. set_if-Ensures p amm _ _ λ e. record {
        funds_same = refl;
        status = inr (ground arith, ground arith, ground arith);
        order_num = inl refl;
        multiplier_le = omega arith;
      }

  pub set_param-Ensures :
      (param : AmmParams) → Ensures (Kept p amm) (set_param w program_id a rest p amm param)
  unfolding set_param set_fees set_owner set_distance set_open_orders
  set_param-Ensures AmmParams.status = set_status-Ensures
  set_param-Ensures AmmParams.fees =
      step (ok_or p.fees invalid_input) _
        λ fees _. step (Fee.validate fees) _ λ _ _. ok-Ensures _ (kept p amm _ refl)
  set_param-Ensures AmmParams.amm_owner =
      step (ok_or p.new_pubkey invalid_input) _ λ key _. ok-Ensures _ (kept p amm _ refl)
  set_param-Ensures AmmParams.last_order_distance =
      step (load_target_checked w a.amm_target_orders program_id a.amm_info.key) _ λ target _.
        step (ok_or p.last_order_distance invalid_input) _
          λ distance _. ok-Ensures _ (kept p amm _ refl)
  set_param-Ensures AmmParams.init_order_depth = ok-Ensures _ (record {
    funds_same = refl;
    status = inl refl;
    order_num = inr (omega arith);
    multiplier_le = omega arith;
  })
  set_param-Ensures AmmParams.clear_open_time = ok-Ensures _ (kept p amm _ refl)
  set_param-Ensures AmmParams.update_open_order = step (next_account_info rest) _ λ r _.
      step
        (load_serum_market_order w a.market (r.0) a.amm_authority
          (record amm { open_orders = r.0.key }) false)
        _ λ _ _. ok-Ensures _ (kept p amm _ refl)
  set_param-Ensures AmmParams.min_size = err-Ensures _
  set_param-Ensures AmmParams.state = with_number p amm AmmParams.state
  set_param-Ensures AmmParams.order_num = with_number p amm AmmParams.order_num
  set_param-Ensures AmmParams.depth = with_number p amm AmmParams.depth
  set_param-Ensures AmmParams.amount_wave = with_number p amm AmmParams.amount_wave
  set_param-Ensures AmmParams.min_price_multiplier =
      with_number p amm AmmParams.min_price_multiplier
  set_param-Ensures AmmParams.max_price_multiplier =
      with_number p amm AmmParams.max_price_multiplier
  set_param-Ensures AmmParams.vol_max_cut_ratio = with_number p amm AmmParams.vol_max_cut_ratio
  set_param-Ensures AmmParams.seperate = with_number p amm AmmParams.seperate
  set_param-Ensures AmmParams.set_open_time = with_number p amm AmmParams.set_open_time
  set_param-Ensures AmmParams.set_switch_time = with_number p amm AmmParams.set_switch_time
