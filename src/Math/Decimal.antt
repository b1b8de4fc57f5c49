-- ===== src/Math/Decimal.antt =====
-- program/src/math.rs: the conversions of `Calculator` between the decimals of a token, of the system
-- and of the order book. A result is `panic` where the code unwraps a failure.
pub mod Laws
use solana_dex_amm.Words.Std
use solana_dex_amm.Result.{Result, conversion_failure, ok_or, unwrap, unwrap_ok, ◌>>=◌}
use solana_dex_amm.Words.{Uint}
use solana_dex_amm.Prelude.{ℕ}

unfoldable pub to_u128 : ℕ → Result ℕ
to_u128 val = ok_or (Std.fit 128 val) conversion_failure

unfoldable pub to_u64 : ℕ → Result ℕ
to_u64 val = ok_or (Std.fit 64 val) conversion_failure

module _ ⦃u : Uint 128⦄ where
  unfoldable pub normalize_decimal : ℕ → ℕ → ℕ → Result ℕ
  unfolding to_u64
  normalize_decimal val native_decimal sys_decimal_value = do
    ret_mut ← unwrap (u.checked_mul val sys_decimal_value)
    scale ← unwrap (u.checked_pow 10 native_decimal)
    ret ← unwrap (u.checked_div ret_mut scale)
    narrow ← unwrap (u.as_u128 ret)
    unwrap_ok (to_u64 narrow)

  unfoldable pub restore_decimal : ℕ → ℕ → ℕ → Result ℕ
  restore_decimal val native_decimal sys_decimal_value = do
    scale ← unwrap (u.checked_pow 10 native_decimal)
    ret_mut ← unwrap (u.checked_mul val scale)
    unwrap (u.checked_div ret_mut sys_decimal_value)

  unfoldable pub normalize_decimal_v2 : ℕ → ℕ → ℕ → Result ℕ
  normalize_decimal_v2 val native_decimal sys_decimal_value = do
    ret_mut ← unwrap (u.checked_mul val sys_decimal_value)
    scale ← unwrap (u.checked_pow 10 native_decimal)
    unwrap (u.checked_div ret_mut scale)

  -- internal pc_lot_size → srm pc_lot_size
  unfoldable pub convert_out_pc_lot_size : ℕ → ℕ → ℕ → ℕ → ℕ → Result ℕ
  unfolding to_u64
  convert_out_pc_lot_size pc_decimals coin_decimals pc_lot_size coin_lot_size sys_decimal_value = do
    lots ← unwrap (u.mul pc_lot_size coin_lot_size)
    pc_scale ← unwrap (u.checked_pow 10 pc_decimals)
    numerator ← unwrap (u.mul lots pc_scale)
    coin_scale ← unwrap (u.checked_pow 10 coin_decimals)
    denominator ← unwrap (u.mul sys_decimal_value coin_scale)
    ret ← unwrap (u.div numerator denominator)
    narrow ← unwrap (u.as_u128 ret)
    unwrap_ok (to_u64 narrow)

  -- srm pc_lot_size → internal pc_lot_size
  unfoldable pub convert_in_pc_lot_size : ℕ → ℕ → ℕ → ℕ → ℕ → Result ℕ
  unfolding to_u64
  convert_in_pc_lot_size pc_decimals coin_decimals pc_lot_size coin_lot_size sys_decimal_value = do
    lots ← unwrap (u.checked_mul pc_lot_size sys_decimal_value)
    coin_scale ← unwrap (u.checked_pow 10 coin_decimals)
    numerator ← unwrap (u.checked_mul lots coin_scale)
    pc_scale ← unwrap (u.checked_pow 10 pc_decimals)
    denominator ← unwrap (u.checked_mul coin_lot_size pc_scale)
    ret ← unwrap (u.checked_div numerator denominator)
    narrow ← unwrap (u.as_u128 ret)
    unwrap_ok (to_u64 narrow)

  -- srm coin size → internal coin size
  unfoldable pub convert_in_vol : ℕ → ℕ → ℕ → ℕ → Result ℕ
  unfolding to_u64
  convert_in_vol val coin_decimal coin_lot_size sys_decimal_value = do
    lots ← unwrap (u.checked_mul val coin_lot_size)
    numerator ← unwrap (u.checked_mul lots sys_decimal_value)
    scale ← unwrap (u.checked_pow 10 coin_decimal)
    volume ← unwrap (u.checked_div numerator scale)
    narrow ← unwrap (u.as_u128 volume)
    unwrap_ok (to_u64 narrow)

  -- internal coin size → srm coin size
  unfoldable pub convert_vol_out : ℕ → ℕ → ℕ → ℕ → Result ℕ
  unfolding to_u64
  convert_vol_out val coin_decimal coin_lot_size sys_decimal_value = do
    scale ← unwrap (u.checked_pow 10 coin_decimal)
    numerator ← unwrap (u.checked_mul val scale)
    denominator ← unwrap (u.checked_mul coin_lot_size sys_decimal_value)
    volume ← unwrap (u.checked_div numerator denominator)
    narrow ← unwrap (u.as_u128 volume)
    unwrap_ok (to_u64 narrow)

-- srm price → internal price
unfoldable pub convert_in_price : ℕ → ℕ → Result ℕ
convert_in_price val pc_lot_size = unwrap (Std.checked_mul 64 val pc_lot_size)

-- internal price → srm price
unfoldable pub convert_price_out : ℕ → ℕ → Result ℕ
convert_price_out val pc_lot_size = unwrap (Std.checked_div val pc_lot_size)
