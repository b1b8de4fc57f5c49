-- ===== src/Chain/Book.antt =====
-- program/src/processor.rs, `get_amm_orders`: the pool's orders in the book, the best first.
use solana_dex_amm.Result.{Result, ok, unwrap, ◌>>=◌}
use solana_dex_amm.Serum.{LeafNode, OpenOrders, Slab}
use solana_dex_amm.Prelude.{
  Bool, List, Option, [], get_elem?, if◌then◌else◌, leb, none, not, some, suc, zero, ℕ, ◌%◌, ◌++◌,
  ◌-◌, ◌/◌, ◌==◌, ◌^◌, ◌∷◌,
}

-- the bit `i` of a word
unfoldable pub test_bit : ℕ → ℕ → Bool
test_bit bits i = not ((bits / 2 ^ i) % 2 == 0)

-- what `push` adds for an order that the book has
abbrev pub push_found : List LeafNode → Option LeafNode → List LeafNode
push_found orders none = orders
push_found orders (some order) = orders ++ (order ∷ [])

-- one slot: the orders of the bids and of the asks found so far, with the slot's order
unfoldable pub slot :
    OpenOrders
    → (bids asks : Slab) → ℕ
    → List LeafNode × List LeafNode
    → Result (List LeafNode × List LeafNode)
unfolding test_bit
slot o bids asks i (bids_orders, asks_orders) =
    if test_bit o.free_slot_bits i then ok (bids_orders, asks_orders) else (do
      order ← unwrap (get_elem? o.orders i)
      if test_bit o.is_bid_bits i
          then ok (push_found bids_orders (bids order), asks_orders)
          else ok (bids_orders, push_found asks_orders (asks order)))

-- the slots from `i` on
unfoldable pub slots :
    (left i : ℕ)
    → OpenOrders
    → (bids asks : Slab) → List LeafNode × List LeafNode
    → Result (List LeafNode × List LeafNode)
unfolding slot
slots zero i o bids asks found = ok found
slots (suc left) i o bids asks found = do
  found' ← slot o bids asks i found
  slots left (suc i) o bids asks found'

-- `sort_by` is a stable sort: an order goes behind those that are not after it.
unfoldable pub insert_by : (LeafNode → LeafNode → Bool) → LeafNode → List LeafNode → List LeafNode
insert_by before x [] = x ∷ []
insert_by before x (y ∷ ys) =
    let rest = insert_by before x ys in if before x y then x ∷ y ∷ ys else y ∷ rest

unfoldable pub sort_by : (LeafNode → LeafNode → Bool) → List LeafNode → List LeafNode
unfolding insert_by
sort_by before [] = []
sort_by before (x ∷ xs) = insert_by before x (sort_by before xs)

-- the best bid has the highest price, the best ask the lowest
abbrev pub best_bid : LeafNode → LeafNode → Bool
best_bid a b = leb b.price a.price

abbrev pub best_ask : LeafNode → LeafNode → Bool
best_ask a b = leb a.price b.price

-- `count_zeros` of a 128-bit word is not 0 exactly if a bit is 0
unfoldable pub get_amm_orders : OpenOrders → Slab → Slab → Result (List LeafNode × List LeafNode)
unfolding slots
get_amm_orders o bids asks = do
  (bids_orders, asks_orders) ←
      if o.free_slot_bits == 2 ^ 128 - 1 then ok ([], []) else slots 128 0 o bids asks ([], [])
  ok (sort_by best_bid bids_orders, sort_by best_ask asks_orders)
