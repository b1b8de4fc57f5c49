-- ===== src/State/Amm/Laws.antt =====
-- What `AmmInfo::initialize` sets up, and the client order ids.
use solana_dex_amm.State.Fees as Fee
use solana_dex_amm.State.Fees.Laws as FeeLaws
use solana_dex_amm.State.Status
use solana_dex_amm.State.Machine
use solana_dex_amm.State.Amm
use solana_dex_amm.Result.{ok}
use solana_dex_amm.Math.Decimal.{convert_in_pc_lot_size, to_u64}
use solana_dex_amm.State.Amm.{
  AmmInfo, StateData, amount_wave_of, incr_client_order_id, initial_state_data, min_size_of,
  scale_of, sys_decimal,
}
use solana_dex_amm.State.Status.{AmmStatus}
use solana_dex_amm.State.Machine.{AmmState}
use solana_dex_amm.Words.{Uint}
use solana_dex_amm.Words.Laws.{uint_laws}
use solana_dex_amm.Prelude.{
  Bool-cases, ap, arith, if◌then◌else◌, inl, inr, leb, leb→le, not-leb→lt, sym, ℕ, ◌%◌, ◌*◌, ◌/◌,
  ◌<◌, ◌^◌, ◌↔◌, ◌∙◌, ◌≡◌, ◌≢◌, ◌≤◌, ◌⊎◌,
}
use solana_dex_amm.Prelude.Arith.{pow10_mono}
use native.Mathlib.Nat.{div-eq_of_lt}

-- On a counter of 64 bits, a client order id is never 0, it fits 64 bits, it is the stored counter,
-- and it differs from the one before.
pub incr_client_order_id_bounds :
    (self : AmmInfo)
    → self.client_order_id < 2 ^ 64
    → let (next, id) = incr_client_order_id self in
      (0 < id) × (id < 2 ^ 64) × (next.client_order_id ≡ id) × (id ≢ self.client_order_id)
unfolding incr_client_order_id
incr_client_order_id_bounds self h = ground arith

-- The price of a coin lot in pc lots, as a numerator and a denominator.
abbrev pub lot_numerator : ℕ → ℕ → ℕ
lot_numerator pc_decimals coin_lot_size = coin_lot_size * 10 ^ pc_decimals

abbrev pub lot_denominator : ℕ → ℕ → ℕ
lot_denominator coin_decimals pc_lot_size = pc_lot_size * 10 ^ coin_decimals

scale_of_lem :
    (coin_decimals pc_decimals : ℕ) {s : ℕ}
    → scale_of coin_decimals pc_decimals ≡ ok s
    → (10 ^ coin_decimals ≤ s)
      × (10 ^ pc_decimals ≤ s)
      × (s < 2 ^ 64)
      × ((s ≡ 10 ^ coin_decimals) ⊎ (s ≡ 10 ^ pc_decimals))
unfolding scale_of
scale_of_lem cd pd h = ground (arith, pow10_mono cd pd, pow10_mono pd cd)

sys_decimal_lem :
    (scale cd pd cl pl : ℕ) {s : ℕ}
    → sys_decimal scale cd pd cl pl ≡ ok s
    → scale < 2 ^ 64
    → let price = lot_numerator pd cl / lot_denominator cd pl in
      (0 < lot_denominator cd pl) × (s ≡ (if leb scale price then price else scale)) × (s < 2 ^ 64)
unfolding sys_decimal to_u64
sys_decimal_lem scale cd pd cl pl h k = ground arith

module _ ⦃u : Uint 128⦄ where
  convert_in_pc_lot_size_lem :
      (pd cd pl cl s : ℕ) {r : ℕ}
      → convert_in_pc_lot_size pd cd pl cl s ≡ ok r
      → (0 < lot_numerator pd cl) × (r ≡ pl * s * 10 ^ cd / lot_numerator pd cl)
  unfolding convert_in_pc_lot_size to_u64
  convert_in_pc_lot_size_lem pd cd pl cl s h = ground (arith, simp uint_laws at h)

  -- What the pool holds after a successful `initialize`, as the helpers computed it.
  initialize_lem :
      (self : AmmInfo) (nonce open_time cd pd cl pl : ℕ) {amm : AmmInfo}
      → Amm.initialize self nonce open_time cd pd cl pl ≡ ok amm
      → (scale : ℕ) × (scale_of cd pd ≡ ok scale)
        × (sys_decimal scale cd pd cl pl ≡ ok amm.sys_decimal_value)
        × (min_size_of amm.sys_decimal_value cd cl ≡ ok amm.min_size)
        × (amount_wave_of amm.sys_decimal_value ≡ ok amm.amount_wave)
        × (convert_in_pc_lot_size pd cd pl cl amm.sys_decimal_value ≡ ok amm.pc_lot_size)
        × (amm.fees ≡ Fee.initialize)
        × (amm.status ≡ Status.into_u64 AmmStatus.uninitialized)
        × (amm.state ≡ Machine.into_u64 AmmState.idle_state)
        × (amm.lp_amount ≡ self.lp_amount)
        × (amm.state_data ≡ initial_state_data open_time)
  unfolding Amm.initialize
  initialize_lem self nonce open_time cd pd cl pl h = ground arith

-- A lot price `n / D` taken back: the internal lot size is 0 exactly if the scale does not exceed the
-- whole price and the price is not whole.
lot_size_zero_iff :
    (n D scale : ℕ)
    → 0 < n
    → 0 < D
    → let s = if leb scale (n / D) then n / D else scale in
      (s * D / n ≡ 0) ↔ ((scale ≤ n / D) × (n % D ≢ 0))
lot_size_zero_iff n D scale p q = elim (Bool-cases (leb scale (n / D))) [
  | inl big ↦
      rw big ((λ e. (leb→le _ _ big, λ whole. grind arith)), (λ h. div-eq_of_lt (grind arith)))
  | inr small ↦
      rw small ((λ e. absurd (grind arith)), (λ h. absurd (omega (arith, not-leb→lt _ _ small))))
]

regroup : (a b c : ℕ) → a * b * c ≡ b * (a * c)
regroup a b c = omega arith

module _ ⦃u : Uint 128⦄ (self : AmmInfo) (nonce open_time cd pd cl pl : ℕ) {amm : AmmInfo}
    (done : Amm.initialize self nonce open_time cd pd cl pl ≡ ok amm) where
  -- A pool that `initialize` has set up is idle and not yet initialized, has valid fees and no
  -- profit to take, keeps its amount of LP tokens, and its decimal value fits 64 bits and is at
  -- least the scale of either token and the whole part of the lot price.
  pub initialize_sound :
      FeeLaws.IsValid amm.fees
      × (amm.status ≡ 0)
      × (amm.state ≡ 1)
      × (amm.lp_amount ≡ self.lp_amount)
      × (amm.state_data.need_take_pnl_pc ≡ 0)
      × (amm.state_data.need_take_pnl_coin ≡ 0)
      × (10 ^ cd ≤ amm.sys_decimal_value)
      × (10 ^ pd ≤ amm.sys_decimal_value)
      × (lot_numerator pd cl / lot_denominator cd pl ≤ amm.sys_decimal_value)
      × (amm.sys_decimal_value < 2 ^ 64)
  unfolding Status.into_u64 Machine.into_u64 initial_state_data
  initialize_sound =
      let (scale, e, es, _, _, _, fees, status, state, lp, data_eq) =
        initialize_lem self nonce open_time cd pd cl pl done in
      let (coin_le, pc_le, fits, _) = scale_of_lem cd pd e in
      let (_, sys, bound) = sys_decimal_lem scale cd pd cl pl es fits in
      (
        rw fees FeeLaws.initialize-IsValid,
        status,
        state,
        lp,
        ap (λ (d : StateData). d.need_take_pnl_pc) data_eq,
        ap (λ (d : StateData). d.need_take_pnl_coin) data_eq,
        ground arith,
        ground arith,
        ground arith,
        bound,
      )

  -- Where `initialize` succeeds, the pool's internal pc lot size is 0 exactly if the price of a
  -- coin lot in pc lots is at least both scales and not a whole number.
  pub initialize-pc_lot_size_zero_iff : (amm.pc_lot_size ≡ 0) ↔ (
      (10 ^ cd ≤ lot_numerator pd cl / lot_denominator cd pl)
      × (10 ^ pd ≤ lot_numerator pd cl / lot_denominator cd pl)
      × (lot_numerator pd cl % lot_denominator cd pl ≢ 0))
  initialize-pc_lot_size_zero_iff =
      let (scale, e, es, _, _, ep, _, _, _, _, _) =
        initialize_lem self nonce open_time cd pd cl pl done in
      let (coin_le, pc_le, fits, one) = scale_of_lem cd pd e in
      let (D_pos, sys, _) = sys_decimal_lem scale cd pd cl pl es fits in
      let (n_pos, lots) = convert_in_pc_lot_size_lem pd cd pl cl amm.sys_decimal_value ep in
      let n = lot_numerator pd cl in
      let D = lot_denominator cd pl in
      let same : amm.pc_lot_size ≡ (if leb scale (n / D) then n / D else scale) * D / n =
        lots
        ∙ ap (λ (k : ℕ). k / n) (regroup pl amm.sys_decimal_value (10 ^ cd))
        ∙ ap (λ (k : ℕ). k * D / n) sys in
      let iff = lot_size_zero_iff n D scale n_pos D_pos in
      (
        λ z. let (big, part) = iff.0 (sym same ∙ z) in (omega arith, omega arith, part),
        λ h. same ∙ iff.1 (ground arith, h.2),
      )
