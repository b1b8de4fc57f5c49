-- ===== src/State/Config.antt =====
-- program/src/state.rs: `AmmConfig`, and its loading.
use solana_dex_amm.Prelude.{List, ℕ}

pub record AmmConfig : Type 0 where
  pub pnl_owner : ℕ
  pub cancel_owner : ℕ
  pub pending_1 : List ℕ
  pub pending_2 : List ℕ
  pub create_pool_fee : ℕ
