-- ===== src/Processor/Orders.antt =====
-- program/src/processor.rs: the loop of `process_withdraw` (and, the same, of `do_cancel_amm_orders` and
-- `do_cancel_all_orders_state`) that puts the ids of the pool's orders into arrays of eight, bids and
-- asks in turn, to cancel them.
pub mod Steps
pub mod Laws
use solana_dex_amm.Result.{Result, ok, panic, ◌>>=◌}
use solana_dex_amm.Prelude.{
  List, Option, [], if◌then◌else◌, length, ltb, none, replicate, some, ℕ, ◌++◌, ◌-◌, ◌==◌, ◌∷◌,
}

-- The variables of the loop. `order_ids` is the array as far as it is written; behind it stand zeros.
pub record Batches : Type 0 where
  pub amm_order_ids_vec : List (List ℕ)
  pub order_ids : List ℕ

-- `order_ids[count] = id; count += 1`, which panics outside the array
unfoldable pub put : ℕ → Batches → Result Batches
put id b =
    if ltb (length b.order_ids) 8
    then ok (record b { order_ids = b.order_ids ++ (id ∷ []) })
    else panic

unfoldable pub put_some : Option ℕ → Batches → Result Batches
unfolding put
put_some none b = ok b
put_some (some id) b = put id b

-- the array as it is handed on
unfoldable pub padded : List ℕ → List ℕ
padded ids = ids ++ replicate (8 - length ids) 0

-- `if count == 8`
unfoldable pub flush : Batches → Batches
unfolding padded
flush b =
    if length b.order_ids == 8
    then record {
      amm_order_ids_vec = b.amm_order_ids_vec ++ (padded b.order_ids ∷ []);
      order_ids = [];
    }
    else b

-- one round, with the next bid and the next ask
unfoldable pub round : Option ℕ → Option ℕ → Batches → Result Batches
unfolding put_some flush
round next_bid next_ask b = do
  with_bid ← put_some next_bid b
  with_ask ← put_some next_ask with_bid
  ok (flush with_ask)

unfoldable pub rounds : List ℕ → List ℕ → Batches → Result Batches
unfolding round
rounds [] [] b = ok b
rounds (x ∷ bids) [] b = do b' ← round (some x) none b; rounds bids [] b'
rounds [] (y ∷ asks) b = do b' ← round none (some y) b; rounds [] asks b'
rounds (x ∷ bids) (y ∷ asks) b = do b' ← round (some x) (some y) b; rounds bids asks b'

-- the arrays that are left when the loop has ended
unfoldable pub last_batch : Batches → List (List ℕ)
unfolding padded
last_batch b =
    if length b.order_ids == 0
    then b.amm_order_ids_vec
    else b.amm_order_ids_vec ++ (padded b.order_ids ∷ [])

unfoldable pub collect_order_ids : List ℕ → List ℕ → Result (List (List ℕ))
unfolding rounds last_batch
collect_order_ids bids asks = do
  b ← rounds bids asks (record { amm_order_ids_vec = []; order_ids = [] })
  ok (last_batch b)
