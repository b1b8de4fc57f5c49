-- ===== src/Instruction/Roundtrip/Setting.antt =====
-- What `pack` writes for a parameter of `SetParams`, `unpack` reads back.
use solana_dex_amm.State.Params as Params
use solana_dex_amm.State.Fees as Fees
use solana_dex_amm.Result.{err, invalid_instruction_data, ok, ◌>>=◌}
use solana_dex_amm.Bytes.{length-to_le_bytes, take-append, to_le_bytes}
use solana_dex_amm.Instruction.{AmmInstruction, SetParamsInstruction, set_params}
use solana_dex_amm.State.Params.{AmmParams}
use solana_dex_amm.State.Fees.{Fees}
use solana_dex_amm.State.Fees.Laws.{IsWords}
use solana_dex_amm.Instruction.Packable.{
  IsSetting, Setting, new_distance, new_fees, new_owner, new_value, setting_arguments, takes_value,
}
use solana_dex_amm.Instruction.Key.{Keys}
use solana_dex_amm.Instruction.Arguments.{
  unpack_distance, unpack_fees, unpack_owner, unpack_setting, unpack_value,
}
use solana_dex_amm.Instruction.Pack.{pack, pack_setting, some_or_invalid}
use solana_dex_amm.Instruction.Read.{unpack_u64, unpack_u64-to_le_bytes, unpack_u8-cons}
use solana_dex_amm.Instruction.Unpack.{unpack, unpack_set_params, unpack_tag}
use solana_dex_amm.Prelude.{
  List, [], ap, append-nil, arith, if◌then◌else◌, leb, length, length-append, le→leb, refl,
  replicate, take, true, ℕ, ◌++◌, ◌<◌, ◌^◌, ◌≡◌,
}

-- the last number of a message
pub last_u64 : (n : ℕ) → n < 2 ^ 64 → unpack_u64 (to_le_bytes 8 n) ≡ ok (n, [])
last_u64 n h = rw (← append-nil (to_le_bytes 8 n)) (unpack_u64-to_le_bytes n [] h)

-- Fees as they stand in a message, 64 bytes without anything behind.
module _ (f : Fees) where
  length-packed_nil : length (Fees.packed f) ≡ 64
  length-packed_nil =
      let sized = Fees.Laws.length-packed f [] in rw (append-nil (Fees.packed f)) at sized

  pack_fees : Fees.pack_into_slice f (replicate Fees.len 0) ≡ ok (Fees.packed f)
  unfolding Fees.pack_into_slice
  pack_fees = ap ok (append-nil (Fees.packed f))

  take-packed : take 64 (Fees.packed f) ≡ Fees.packed f
  take-packed =
      let cut = take-append (Fees.packed f) [] 64 length-packed_nil in
      rw (append-nil (Fees.packed f)) at cut

  leb-packed : leb 64 (length (Fees.packed f)) ≡ true
  leb-packed = le→leb 64 (length (Fees.packed f)) (omega (arith, length-packed_nil))

  unpack_packed : IsWords f → Fees.unpack_from_slice (Fees.packed f) ≡ ok f
  unpack_packed h =
      let read = Fees.Laws.unpack_from_slice-packed f [] h in
      rw (append-nil (Fees.packed f)) at read

-- two numbers fill sixteen bytes
leb-two_words : (m n : ℕ) → leb 16 (length (to_le_bytes 8 m ++ to_le_bytes 8 n)) ≡ true
leb-two_words m n = le→leb 16 (length (to_le_bytes 8 m ++ to_le_bytes 8 n)) (
    omega (
      arith,
      length-append (to_le_bytes 8 m) (to_le_bytes 8 n),
      length-to_le_bytes 8 m,
      length-to_le_bytes 8 n,
    ))

module _ {P : Type 0} ⦃keys : Keys P⦄ where
  -- a key is read back
  pub take-to_bytes : (k : P) → keys.IsKey k → take 32 (keys.to_bytes k) ≡ keys.to_bytes k
  take-to_bytes k h =
      let cut = take-append (keys.to_bytes k) [] 32 (keys.length-to_bytes k h) in
      rw (append-nil (keys.to_bytes k)) at cut

  pub leb-to_bytes : (k : P) → keys.IsKey k → leb 32 (length (keys.to_bytes k)) ≡ true
  leb-to_bytes k h = le→leb 32 (length (keys.to_bytes k)) (omega (arith, keys.length-to_bytes k h))

  pack_setting-value :
      (p : AmmParams) (s : SetParamsInstruction P)
      → takes_value p ≡ true
      → pack_setting p s ≡ (some_or_invalid s.value >>= λ value. ok (to_le_bytes 8 value))
  unfolding pack_setting
  pack_setting-value AmmParams.status s h = refl
  pack_setting-value AmmParams.state s h = refl
  pack_setting-value AmmParams.order_num s h = refl
  pack_setting-value AmmParams.depth s h = refl
  pack_setting-value AmmParams.amount_wave s h = refl
  pack_setting-value AmmParams.min_price_multiplier s h = refl
  pack_setting-value AmmParams.max_price_multiplier s h = refl
  pack_setting-value AmmParams.min_size s h = refl
  pack_setting-value AmmParams.vol_max_cut_ratio s h = refl
  pack_setting-value AmmParams.fees s h = absurd cc
  pack_setting-value AmmParams.amm_owner s h = absurd cc
  pack_setting-value AmmParams.set_open_time s h = refl
  pack_setting-value AmmParams.last_order_distance s h = absurd cc
  pack_setting-value AmmParams.init_order_depth s h = refl
  pack_setting-value AmmParams.set_switch_time s h = refl
  pack_setting-value AmmParams.clear_open_time s h = refl
  pack_setting-value AmmParams.seperate s h = refl
  pack_setting-value AmmParams.update_open_order s h = refl

  unpack_setting-value :
      (p : AmmParams) (param : ℕ) (rest : List ℕ)
      → takes_value p ≡ true
      → unpack_setting {P = P} p param rest
        ≡ (if leb 8 (length rest) then unpack_value param rest else err invalid_instruction_data)
  unfolding unpack_setting
  unpack_setting-value AmmParams.status param rest h = refl
  unpack_setting-value AmmParams.state param rest h = refl
  unpack_setting-value AmmParams.order_num param rest h = refl
  unpack_setting-value AmmParams.depth param rest h = refl
  unpack_setting-value AmmParams.amount_wave param rest h = refl
  unpack_setting-value AmmParams.min_price_multiplier param rest h = refl
  unpack_setting-value AmmParams.max_price_multiplier param rest h = refl
  unpack_setting-value AmmParams.min_size param rest h = refl
  unpack_setting-value AmmParams.vol_max_cut_ratio param rest h = refl
  unpack_setting-value AmmParams.fees param rest h = absurd cc
  unpack_setting-value AmmParams.amm_owner param rest h = absurd cc
  unpack_setting-value AmmParams.set_open_time param rest h = refl
  unpack_setting-value AmmParams.last_order_distance param rest h = absurd cc
  unpack_setting-value AmmParams.init_order_depth param rest h = refl
  unpack_setting-value AmmParams.set_switch_time param rest h = refl
  unpack_setting-value AmmParams.clear_open_time param rest h = refl
  unpack_setting-value AmmParams.seperate param rest h = refl
  unpack_setting-value AmmParams.update_open_order param rest h = refl

  -- an instruction that is packed and read back
  abbrev pub IsReread : AmmInstruction P → Type 0
  IsReread i = (pack i >>= unpack) ≡ ok i

  round-value :
      (p : AmmParams) (n : ℕ)
      → IsSetting {P = P} (new_value p n)
      → IsReread (set_params (setting_arguments (new_value p n)))
  unfolding pack unpack unpack_tag unpack_set_params unpack_value
  round-value p n (h, small) =
      let fits : leb 8 (length (to_le_bytes 8 n)) ≡ true =
        le→leb 8 (length (to_le_bytes 8 n)) (omega (arith, length-to_le_bytes 8 n)) in
      rw (
        Params.from_u64-into_u64 p,
        pack_setting-value p (setting_arguments (new_value p n)) h,
        unpack_u8-cons (Params.into_u64 p) (to_le_bytes 8 n),
        Params.from_u64-into_u64 p,
        unpack_setting-value p (Params.into_u64 p) (to_le_bytes 8 n) h,
        fits,
        last_u64 n small,
      )

  pub setting-round : (a : Setting P) → IsSetting a → IsReread (set_params (setting_arguments a))
  unfolding pack unpack unpack_tag unpack_set_params pack_setting unpack_setting unpack_owner
      unpack_fees unpack_distance Params.from_u64
  setting-round (new_owner k) h = rw (
    unpack_u8-cons 10 (keys.to_bytes k),
    leb-to_bytes k h,
    take-to_bytes k h,
    keys.new_from_array-to_bytes k h,
  )
  setting-round (new_fees f) h = rw (
    pack_fees f,
    unpack_u8-cons 9 (Fees.packed f),
    leb-packed f,
    take-packed f,
    unpack_packed f h,
  )
  setting-round (new_distance d) (h1, h2) = rw (
    unpack_u8-cons 12
        (to_le_bytes 8 d.last_order_numerator ++ to_le_bytes 8 d.last_order_denominator),
    leb-two_words d.last_order_numerator d.last_order_denominator,
    unpack_u64-to_le_bytes d.last_order_numerator (to_le_bytes 8 d.last_order_denominator) h1,
    last_u64 d.last_order_denominator h2,
  )
  setting-round (new_value p n) h = round-value p n h
