-- ===== src/Processor/Orders/Steps.antt =====
-- One put, one flush and one round of the batches of order ids.
use solana_dex_amm.Result.{ok}
use solana_dex_amm.Processor.Orders.{Batches, flush, padded, put, put_some, round}
use solana_dex_amm.Prelude.{
  ==_iff, All, All-append, Bool-cases, List, [], ap, append-nil, append_assoc, arith, flatten,
  flatten-append, inl, inr, length, length-append, lt→ltb, none, refl, some, subst, sym, ℕ, ◌%◌,
  ◌++◌, ◌+◌, ◌-◌, ◌<◌, ◌==◌, ◌∙◌, ◌∷◌, ◌≡◌, ◌≤◌,
}

-- the ids of the full arrays and of the array that is being filled
abbrev pub content : Batches → List ℕ
content b = flatten b.amm_order_ids_vec ++ b.order_ids

abbrev pub IsEight : List ℕ → Type 0
IsEight ids = length ids ≡ 8

-- The full arrays have eight ids, and the array that is being filled has room.
pub record IsBatched (b : Batches) : Type 0 where
  pub full : All IsEight b.amm_order_ids_vec
  pub short : length b.order_ids < 8

padded-eq : (ids : List ℕ) → IsEight ids → padded ids ≡ ids
unfolding padded
padded-eq ids h =
    let none_left : 8 - length ids ≡ 0 = omega (arith, h) in rw none_left (append-nil ids)

-- What one `put` of an array with room gives.
record IsPut (id : ℕ) (b b' : Batches) : Type 0 where
  more : length b'.order_ids ≡ length b.order_ids + 1
  vec_same : b'.amm_order_ids_vec ≡ b.amm_order_ids_vec
  added : content b' ≡ content b ++ (id ∷ [])

put_lem :
    (id : ℕ) (b : Batches)
    → length b.order_ids < 8
    → (b' : Batches) × (put id b ≡ ok b') × IsPut id b b'
unfolding put
put_lem id b room = (
  record b { order_ids = b.order_ids ++ (id ∷ []) },
  rw (lt→ltb (length b.order_ids) 8 room) refl,
  record {
    more = length-append b.order_ids (id ∷ []);
    vec_same = refl;
    added = sym (append_assoc (flatten b.amm_order_ids_vec) b.order_ids (id ∷ []));
  },
)

-- What `flush` gives: the same ids, and room.
record IsFlushed (b b' : Batches) : Type 0 where
  batched : IsBatched b'
  same : content b' ≡ content b
  parity : length b'.order_ids % 2 ≡ length b.order_ids % 2

flush_lem :
    (b : Batches) → All IsEight b.amm_order_ids_vec → length b.order_ids ≤ 8 → IsFlushed b (flush b)
unfolding flush
flush_lem b full le = elim (Bool-cases (length b.order_ids == 8)) [
  | inl eight ↦
      let is : IsEight b.order_ids = (==_iff (length b.order_ids) 8).0 eight in
      rw (eight, padded-eq b.order_ids is)
        (record {
          batched = record {
            full = All-append IsEight b.amm_order_ids_vec b.order_ids full is;
            short = omega arith;
          };
          same =
              append-nil (flatten (b.amm_order_ids_vec ++ (b.order_ids ∷ [])))
              ∙ flatten-append b.amm_order_ids_vec b.order_ids;
          parity = rw is refl;
        })
  | inr fewer ↦ rw fewer (record {
    batched = record { full = full; short = ground arith };
    same = refl;
    parity = refl;
  })
]

-- What a part of the loop gives that takes the ids `ids`.
pub record IsTaking (ids : List ℕ) (b b' : Batches) : Type 0 where
  pub batched : IsBatched b'
  pub taken : content b' ≡ content b ++ ids
  pub parity : length b'.order_ids % 2 ≡ (length b.order_ids + length ids) % 2

-- A put and the flush behind it.
put_flush :
    (id : ℕ) (b b' : Batches) → IsBatched b → IsPut id b b' → IsTaking (id ∷ []) b (flush b')
put_flush id b b' h p =
    let full = subst (All IsEight) (sym p.vec_same) h.full in
    let flushed = flush_lem b' full (omega (arith, p.more, h.short)) in
    record {
      batched = flushed.batched;
      taken = flushed.same ∙ p.added;
      parity = flushed.parity ∙ ap (λ n. n % 2) p.more;
    }

pub round-bid :
    (id : ℕ) (b : Batches)
    → IsBatched b
    → (b' : Batches) × (round (some id) none b ≡ ok b') × IsTaking (id ∷ []) b b'
unfolding round put_some
round-bid id b h =
    let (b1, done, p) = put_lem id b h.short in (flush b1, rw done refl, put_flush id b b1 h p)

pub round-ask :
    (id : ℕ) (b : Batches)
    → IsBatched b
    → (b' : Batches) × (round none (some id) b ≡ ok b') × IsTaking (id ∷ []) b b'
unfolding round put_some
round-ask id b h =
    let (b1, done, p) = put_lem id b h.short in (flush b1, rw done refl, put_flush id b b1 h p)

-- Two ids fit into an array that an even number of ids is in.
pub round-both :
    (x y : ℕ) (b : Batches)
    → IsBatched b
    → length b.order_ids % 2 ≡ 0
    → (b' : Batches) × (round (some x) (some y) b ≡ ok b') × IsTaking (x ∷ y ∷ []) b b'
unfolding round put_some
round-both x y b h even =
    let (b1, done1, p1) = put_lem x b h.short in
    let room : length b1.order_ids < 8 = omega (arith, p1.more, h.short, even) in
    let full1 = subst (All IsEight) (sym p1.vec_same) h.full in
    let (b2, done2, p2) = put_lem y b1 room in
    let second = put_flush y b1 b2 (record { full = full1; short = room }) p2 in
    (
      flush b2,
      rw (done1, done2) refl,
      record {
        batched = second.batched;
        taken =
            second.taken
            ∙ ap (λ xs. xs ++ (y ∷ [])) p1.added
            ∙ append_assoc (content b) (x ∷ []) (y ∷ []);
        parity = omega (arith, second.parity, p1.more);
      },
    )
