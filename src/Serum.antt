-- ===== src/Serum.antt =====
-- What the program reads of the types of serum_dex, which is not part of this repository: a market, open
-- orders, the events of a market's queue, and its book. A key is the number of its bytes.
use solana_dex_amm.Prelude.{Bool, List, Option, ℕ}

pub data Side : Type 0 where
  bid ask : Side

pub record OpenOrders : Type 0 where
  pub market : ℕ
  pub owner : ℕ
  pub native_coin_free : ℕ
  pub native_coin_total : ℕ
  pub native_pc_free : ℕ
  pub native_pc_total : ℕ
  pub free_slot_bits : ℕ
  pub is_bid_bits : ℕ
  pub orders : List ℕ

-- `EventView`: the fields of a fill that the program uses are the side, whether the account was the
-- maker, and the amounts paid and received.
pub data EventView : Type 0 where
  fill : Side → Bool → ℕ → ℕ → EventView
  out : EventView

pub record Event : Type 0 where
  pub owner : ℕ
  pub view : EventView

pub record MarketState : Type 0 where
  pub coin_mint : ℕ
  pub pc_mint : ℕ
  pub coin_lot_size : ℕ
  pub pc_lot_size : ℕ

-- `LeafNode`: what the program reads of an order in the book.
pub record LeafNode : Type 0 where
  pub price : ℕ
  pub quantity : ℕ
  pub client_order_id : ℕ

-- `Slab`, as far as it is read: the order with a key.
abbrev pub Slab : Type 0
Slab = ℕ → Option LeafNode
