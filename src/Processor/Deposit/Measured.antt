-- ===== src/Processor/Deposit/Measured.antt =====
-- How `process_deposit` and `process_withdrawpnl` measure a pool: the totals of the vaults and the market,
-- and the profit that is taken of them.
use solana_dex_amm.Chain.{AccountInfo, Chain, TokenAccount}
use solana_dex_amm.Serum.{MarketState, OpenOrders}
use solana_dex_amm.Result.{Ensures, ok, ok-Ensures, step, unwrap}
use solana_dex_amm.Math.Decimal.{normalize_decimal_v2}
use solana_dex_amm.Math.Vault.{calc_total_without_take_pnl}
use solana_dex_amm.Processor.TakePnl.{calc_take_pnl}
use solana_dex_amm.Processor.TakePnl.Laws.{IsTaken, calc_take_pnl-IsTaken}
use solana_dex_amm.Processor.Deposit.Handler.{Totals, take_totals}
use solana_dex_amm.State.Target.{TargetOrders}
use solana_dex_amm.State.Amm.{AmmInfo}
use solana_dex_amm.Words.{Uint}
use solana_dex_amm.Words.Laws.{uint_laws}
use solana_dex_amm.Chain.Load.{load_serum_market_order, load_target_checked, unpack_token_account}
use solana_dex_amm.Prelude.{arith, false, some, subst, ℕ, ◌≡◌}

-- The token account of an account, as it is found on the chain.
abbrev pub Holds : {W : Type 0} ⦃c : Chain W⦄ → W → AccountInfo → TokenAccount → Type 0
Holds ⦃c⦄ w info account = c.token_account w info.key ≡ some account

-- `t` is what `take_totals` makes of the totals of two vaults with the pool's open orders.
pub record IsMeasured {W : Type 0} ⦃c : Chain W⦄ ⦃u : Uint 128⦄ (w : W) (amm : AmmInfo)
    (target : TargetOrders)
    (coin_vault pc_vault market open_orders authority event_queue : AccountInfo) (t : Totals)
    : Type 0 where
  pub coin : TokenAccount
  pub pc : TokenAccount
  pub coin_read : Holds w coin_vault coin
  pub pc_read : Holds w pc_vault pc
  pub market_state : MarketState
  pub orders : OpenOrders
  pub loaded :
      load_serum_market_order w market open_orders authority amm false ≡ ok (market_state, orders)
  pub total_pc : ℕ
  pub total_coin : ℕ
  pub totals :
      calc_total_without_take_pnl pc.amount coin.amount orders amm
        (c.load_event_queue w market_state event_queue)
        open_orders.key
      ≡ ok (total_pc, total_coin)
  pub x1_eq : normalize_decimal_v2 total_pc amm.pc_decimals amm.sys_decimal_value ≡ ok t.x1
  pub y1_eq : normalize_decimal_v2 total_coin amm.coin_decimals amm.sys_decimal_value ≡ ok t.y1
  pub taken : IsTaken target amm total_pc total_coin t.x1 t.y1 t.taken

module _ {W : Type 0} ⦃c : Chain W⦄ (w : W) where
  pub load_target_checked_lem :
      (account : AccountInfo) (program owner : ℕ) {target : TargetOrders}
      → load_target_checked w account program owner ≡ ok target
      → c.target_orders w account.key ≡ some target
  unfolding load_target_checked
  load_target_checked_lem account program owner e = ground arith

  pub unpack_token_account_lem :
      (info : AccountInfo) (token_program : ℕ) {account : TokenAccount}
      → unpack_token_account w info token_program ≡ ok account
      → Holds w info account
  unfolding unpack_token_account
  unpack_token_account_lem info token_program e = ground arith

module _ ⦃u : Uint 128⦄ ⦃v : Uint 256⦄ where
  pub take_totals-Ensures :
      (target : TargetOrders) (amm : AmmInfo) (total_pc total_coin : ℕ)
      → Ensures
          (λ t.
            IsTaken target amm total_pc total_coin t.x1 t.y1 t.taken
            × (normalize_decimal_v2 total_pc amm.pc_decimals amm.sys_decimal_value ≡ ok t.x1)
            × (normalize_decimal_v2 total_coin amm.coin_decimals amm.sys_decimal_value ≡ ok t.y1))
          (take_totals target amm total_pc total_coin)
  unfolding take_totals
  take_totals-Ensures target amm total_pc total_coin =
      step (normalize_decimal_v2 total_pc amm.pc_decimals amm.sys_decimal_value) _ λ x1 nx.
        step (normalize_decimal_v2 total_coin amm.coin_decimals amm.sys_decimal_value) _ λ y1 ny.
          step (unwrap (u.as_u128 x1)) _ λ x1' ex. step (unwrap (u.as_u128 y1)) _ λ y1' ey.
            step (calc_take_pnl target amm total_pc total_coin x1' y1') _ λ taken e.
              let ex' : x1' ≡ x1 = ground (arith, simp uint_laws at ex) in
              let ey' : y1' ≡ y1 = ground (arith, simp uint_laws at ey) in
              let found =
                subst (λ x. IsTaken target amm total_pc total_coin x y1 taken) ex'
                  (subst (λ y. IsTaken target amm total_pc total_coin x1' y taken) ey'
                    (calc_take_pnl-IsTaken target amm total_pc total_coin x1' y1' taken e)) in
              ok-Ensures _ (found, nx, ny)

  -- The totals of two accounts that were read, with the profit taken of them.
  abbrev pub measure :
      {W : Type 0} ⦃c : Chain W⦄ (w : W) (amm : AmmInfo) (target : TargetOrders)
      (coin_vault pc_vault market open_orders authority event_queue : AccountInfo)
      (token_program : ℕ) {coin pc : TokenAccount} {found : MarketState × OpenOrders}
      {totals : ℕ × ℕ} {t : Totals}
      → unpack_token_account w coin_vault token_program ≡ ok coin
      → unpack_token_account w pc_vault token_program ≡ ok pc
      → load_serum_market_order w market open_orders authority amm false ≡ ok found
      → calc_total_without_take_pnl pc.amount coin.amount found.1 amm
          (c.load_event_queue w found.0 event_queue)
          open_orders.key
        ≡ ok totals
      → take_totals target amm totals.0 totals.1 ≡ ok t
      → IsMeasured w amm target coin_vault pc_vault market open_orders authority event_queue t
  measure w amm target coin_vault pc_vault market open_orders authority event_queue token_program
        {coin = coin} {pc = pc} {found = found} {totals = totals} coin_e pc_e loaded calc e =
      let (k, x1_eq, y1_eq) = (take_totals-Ensures target amm totals.0 totals.1).holds _ e in
      record {
        coin = coin;
        pc = pc;
        coin_read = unpack_token_account_lem w coin_vault token_program coin_e;
        pc_read = unpack_token_account_lem w pc_vault token_program pc_e;
        market_state = found.0;
        orders = found.1;
        loaded = loaded;
        total_pc = totals.0;
        total_coin = totals.1;
        totals = calc;
        x1_eq = x1_eq;
        y1_eq = y1_eq;
        taken = k;
      }
