-- ===== src/State/Target.antt =====
-- program/src/state.rs: `TargetOrder`, `TargetOrders`, its `check_init`, and `LastOrderDistance`.
use solana_dex_amm.Result.{Result, already_in_use, custom, err, err_if, ok, ◌>>=◌, ◌>>◌}
use solana_dex_amm.Prelude.{List, arith, not, ℕ, ◌-◌, ◌==◌, ◌^◌, ◌≡◌, ◌≢◌}

pub record LastOrderDistance : Type 0 where
  pub last_order_numerator : ℕ
  pub last_order_denominator : ℕ

pub record TargetOrder : Type 0 where
  pub price : ℕ
  pub vol : ℕ

abbrev pub max_order_limit : ℕ
max_order_limit = 10

-- The owner's key stands for its aligned words, with which the program compares it.
pub record TargetOrders : Type 0 where
  pub owner : ℕ
  pub buy_orders : List TargetOrder
  pub padding1 : List ℕ
  pub target_x : ℕ
  pub target_y : ℕ
  pub plan_x_buy : ℕ
  pub plan_y_buy : ℕ
  pub plan_x_sell : ℕ
  pub plan_y_sell : ℕ
  pub placed_x : ℕ
  pub placed_y : ℕ
  pub calc_pnl_x : ℕ
  pub calc_pnl_y : ℕ
  pub sell_orders : List TargetOrder
  pub padding2 : List ℕ
  pub replace_buy_client_id : List ℕ
  pub replace_sell_client_id : List ℕ
  pub last_order_numerator : ℕ
  pub last_order_denominator : ℕ
  pub plan_orders_cur : ℕ
  pub place_orders_cur : ℕ
  pub valid_buy_order_num : ℕ
  pub valid_sell_order_num : ℕ
  pub padding3 : List ℕ
  pub free_slot_bits : ℕ

-- `default_key` is `Pubkey::default()`; the arguments behind it are x, y and the owner.
unfoldable pub check_init : ℕ → TargetOrders → ℕ → ℕ → ℕ → Result TargetOrders
check_init default_key self x y owner = do
  err_if (not (self.owner == default_key)) already_in_use
  ok (record self {
    owner = owner;
    last_order_numerator = 0;
    last_order_denominator = 0;
    plan_orders_cur = 0;
    place_orders_cur = 0;
    valid_buy_order_num = 0;
    valid_sell_order_num = 0;
    target_x = 0;
    target_y = 0;
    plan_x_buy = 0;
    plan_y_buy = 0;
    plan_x_sell = 0;
    plan_y_sell = 0;
    placed_x = 0;
    placed_y = 0;
    calc_pnl_x = x;
    calc_pnl_y = y;
    free_slot_bits = 2 ^ 128 - 1;
  })

-- Target orders are taken into use once: after a `check_init` for an owner that is not the default
-- key, a second one is refused as AlreadyInUse, whatever its arguments.
pub check_init_once :
    (default_key : ℕ) (t : TargetOrders) (x y owner x' y' owner' : ℕ)
    → owner ≢ default_key
    → (check_init default_key t x y owner >>= λ t'. check_init default_key t' x' y' owner')
      ≡ err (custom already_in_use)
unfolding check_init
check_init_once default_key t x y owner x' y' owner' h = ground arith
