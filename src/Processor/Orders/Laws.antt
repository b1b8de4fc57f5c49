-- ===== src/Processor/Orders/Laws.antt =====
-- The batches of order ids hold every id, in order, and no array is written outside.
use solana_dex_amm.Result.{ok}
use solana_dex_amm.Processor.Orders.{Batches, collect_order_ids, last_batch, padded, rounds}
use solana_dex_amm.Processor.Orders.Steps.{
  IsBatched, IsEight, IsTaking, content, round-ask, round-bid, round-both,
}
use solana_dex_amm.Prelude.{
  ==_iff, All, All-append, Bool-cases, List, [], ap, append-nil, append_assoc, arith, flatten,
  flatten-append, inl, inr, length, length-append, length-replicate, refl, replicate, sym, ℕ, ◌%◌,
  ◌++◌, ◌-◌, ◌<◌, ◌==◌, ◌∙◌, ◌∷◌, ◌≡◌, ◌⊎◌,
}

-- bids and asks in turn, then what is left of the longer list
abbrev pub in_turn : List ℕ → List ℕ → List ℕ
in_turn [] asks = asks
in_turn (x ∷ bids) [] = x ∷ in_turn bids []
in_turn (x ∷ bids) (y ∷ asks) = x ∷ y ∷ in_turn bids asks

IsTaking-trans :
    (xs ys : List ℕ) (b c d : Batches) → IsTaking xs b c → IsTaking ys c d → IsTaking (xs ++ ys) b d
IsTaking-trans xs ys b c d first second = record {
  batched = second.batched;
  taken = second.taken ∙ ap (λ zs. zs ++ ys) first.taken ∙ append_assoc (content b) xs ys;
  parity = omega (arith, second.parity, first.parity, length-append xs ys);
}

both_left :
    {x y : ℕ} {bids asks : List ℕ} (n : ℕ)
    → (n % 2 ≡ 0) ⊎ (x ∷ bids ≡ []) ⊎ (y ∷ asks ≡ [])
    → n % 2 ≡ 0
both_left n (inl even) = even
both_left n (inr (inl e)) = absurd cc
both_left n (inr (inr e)) = absurd cc

rounds_lem :
    (bids asks : List ℕ) (b : Batches)
    → IsBatched b
    → (length b.order_ids % 2 ≡ 0) ⊎ (bids ≡ []) ⊎ (asks ≡ [])
    → (b' : Batches) × (rounds bids asks b ≡ ok b') × IsTaking (in_turn bids asks) b b'
unfolding rounds
rounds_lem [] [] b h even =
    (b, refl, record { batched = h; taken = sym (append-nil (content b)); parity = omega arith })
rounds_lem (x ∷ bids) [] b h even =
    let (c, done, first) = round-bid x b h in
    let (d, rest, second) = rounds_lem bids [] c first.batched (inr (inr refl)) in
    (d, rw done rest, IsTaking-trans (x ∷ []) (in_turn bids []) b c d first second)
rounds_lem [] (y ∷ asks) b h even =
    let (c, done, first) = round-ask y b h in
    let (d, rest, second) = rounds_lem [] asks c first.batched (inr (inl refl)) in
    (d, rw done rest, IsTaking-trans (y ∷ []) asks b c d first second)
rounds_lem (x ∷ bids) (y ∷ asks) b h either =
    let even : length b.order_ids % 2 ≡ 0 = both_left (length b.order_ids) either in
    let (c, done, first) = round-both x y b h even in
    let still : length c.order_ids % 2 ≡ 0 = omega (arith, first.parity, even) in
    let (d, rest, second) = rounds_lem bids asks c first.batched (inl still) in
    (d, rw done rest, IsTaking-trans (x ∷ y ∷ []) (in_turn bids asks) b c d first second)

nil_of_length : (xs : List ℕ) → length xs ≡ 0 → xs ≡ []
nil_of_length [] h = refl
nil_of_length (x ∷ xs) h = absurd (omega arith)

last_batch_lem :
    (b : Batches)
    → IsBatched b
    → (zeros : ℕ) × (zeros < 8)
      × All IsEight (last_batch b)
      × (flatten (last_batch b) ≡ content b ++ replicate zeros 0)
unfolding last_batch padded
last_batch_lem b h = elim (Bool-cases (length b.order_ids == 0)) [
  | inl done ↦
      let nothing = nil_of_length b.order_ids ((==_iff (length b.order_ids) 0).0 done) in
      (
        0,
        omega arith,
        rw done h.full,
        rw done (
            sym (append-nil (flatten b.amm_order_ids_vec))
            ∙ sym (append-nil (flatten b.amm_order_ids_vec ++ []))
            ∙ ap (λ ids. (flatten b.amm_order_ids_vec ++ ids) ++ []) (sym nothing)),
      )
  | inr some_left ↦
      let zeros = 8 - length b.order_ids in
      let last = b.order_ids ++ replicate zeros 0 in
      let eight : IsEight last = omega (
        arith,
        length-append b.order_ids (replicate zeros 0),
        length-replicate {A = ℕ} zeros 0,
        h.short,
      ) in
      (
        zeros,
        ground arith,
        rw some_left (All-append IsEight b.amm_order_ids_vec last h.full eight),
        rw some_left (
            flatten-append b.amm_order_ids_vec last
            ∙ sym (append_assoc (flatten b.amm_order_ids_vec) b.order_ids (replicate zeros 0))),
      )
]

-- For any bids and asks, the arrays are handed on without writing outside one of them: each has eight
-- places, and together they hold all ids, a bid and an ask in turn and then what is left of the longer
-- list, followed by fewer than eight zeros.
pub collect_order_ids_lem :
    (bids asks : List ℕ)
    → (arrays : List (List ℕ)) × (zeros : ℕ) × (collect_order_ids bids asks ≡ ok arrays)
      × (zeros < 8)
      × All (λ ids. length ids ≡ 8) arrays
      × (flatten arrays ≡ in_turn bids asks ++ replicate zeros 0)
unfolding collect_order_ids
collect_order_ids_lem bids asks =
    let empty : Batches = record { amm_order_ids_vec = []; order_ids = [] } in
    let (b, done, t) =
      rounds_lem bids asks empty (record { full = tt; short = omega arith }) (inl refl) in
    let (zeros, few, eights, joined) = last_batch_lem b t.batched in
    (
      last_batch b,
      zeros,
      rw done refl,
      few,
      eights,
      joined ∙ ap (λ ids. ids ++ replicate zeros 0) t.taken,
    )
