-- ===== src/Math/Lots/Laws.antt =====
-- Lots, order sizes and the Fibonacci distances against what they stand for.
use solana_dex_amm.Result.{ok, panic}
use solana_dex_amm.Math.Lots.{ceil_lot, fibonacci, fibonacci_loop, floor_lot, next_fibonacci}
use solana_dex_amm.Math.Decimal.{to_u64}
use solana_dex_amm.Math.CeilDiv.Laws.{
  checked_ceil_div_u128-rounded, rounded-eq-ceil, rounded-eq_zero,
}
use solana_dex_amm.Prelude.{
  ==_iff, Bool-cases, List, [], arith, get_elem?, get_elem?-append_left, get_elem?-length,
  if◌then◌else◌, inl, inr, length, length-append, ltb, ltb→lt, not-ltb→le, refl, some, suc, zero, ℕ,
  ◌*◌, ◌++◌, ◌+◌, ◌-◌, ◌/◌, ◌<◌, ◌==◌, ◌^◌, ◌∙◌, ◌∷◌, ◌≡◌, ◌≤◌,
}
use solana_dex_amm.Prelude.Arith.{ceil, ceil-le, div-mul-le}
use native.Mathlib.Numerals.{add-one}

-- On a value of 64 bits, rounding down gives the largest multiple of the lot up to the value; a lot
-- of 0 is a panic.
pub floor_lot_lem :
    (val lot : ℕ)
    → val < 2 ^ 64
    → floor_lot val lot ≡ (if lot == 0 then panic else ok (val / lot * lot))
unfolding floor_lot
floor_lot_lem val lot h = ground (arith, div-mul-le val lot)

-- On a value and a lot of 64 bits, the lot not 0: a value below half a lot gives 0; any other is
-- rounded up to a multiple of the lot, and a multiple that does not fit 64 bits is a panic.
pub ceil_lot_lem :
    (val lot : ℕ)
    → val < 2 ^ 64
    → 0 < lot
    → lot < 2 ^ 64
    → ceil_lot val lot ≡ (
        if ltb (val * 2) lot
        then ok 0
        else if ltb (ceil val lot * lot) (2 ^ 64)
        then ok (ceil val lot * lot)
        else panic)
unfolding ceil_lot to_u64
ceil_lot_lem val lot h p k = elim (Bool-cases (ltb (val * 2) lot)) [
  | inl small ↦ ground (
    arith,
    checked_ceil_div_u128-rounded val lot,
    (rounded-eq_zero val lot p).1 (ltb→lt _ _ small),
  )
  | inr big ↦ ground (
    arith,
    checked_ceil_div_u128-rounded val lot,
    rounded-eq-ceil val lot p (not-ltb→le _ _ big),
    ceil-le val lot,
  )
]

-- 0, 1, 2, 3, 5, 8, 13, …
pub fib : ℕ → ℕ
fib zero = 0
fib (suc zero) = 1
fib (suc (suc zero)) = 2
fib (suc (suc (suc n))) = fib (suc (suc n)) + fib (suc n)

pub fib_list : ℕ → List ℕ
fib_list zero = []
fib_list (suc n) = fib_list n ++ (fib n ∷ [])

pub length-fib_list : (n : ℕ) → length (fib_list n) ≡ n
unfolding fib_list
length-fib_list zero = refl
length-fib_list (suc n) = omega (arith, length-append (fib_list n) (fib n ∷ []), length-fib_list n)

get_elem?-fib_list : (n i : ℕ) → i < n → get_elem? (fib_list n) i ≡ some (fib i)
unfolding fib_list
get_elem?-fib_list zero i h = elim h [ ]
get_elem?-fib_list (suc n) i h = elim (Bool-cases (i == n)) [
  | inl last ↦
      rw ((==_iff i n).0 last) (get_elem?-length (fib_list n) (fib n) n (length-fib_list n))
  | inr before ↦
      let lt : i < n = ground arith in
      get_elem?-append_left (fib_list n) (fib n ∷ []) i (omega (arith, length-fib_list n))
      ∙ get_elem?-fib_list n i lt
]

-- From the third round on the two numbers before are added.
next_fibonacci-add :
    (i a b : ℕ) (fb : List ℕ)
    → 2 < i
    → get_elem? fb (i - 1) ≡ some a
    → get_elem? fb (i - 2) ≡ some b
    → a + b < 2 ^ 64
    → next_fibonacci i fb ≡ ok (a + b)
unfolding next_fibonacci
next_fibonacci-add i a b fb h ea eb fits = ground arith

-- One round pushes the next number, while that fits 64 bits.
next_fibonacci-fib : (i : ℕ) → fib i < 2 ^ 64 → next_fibonacci i (fib_list i) ≡ ok (fib i)
unfolding next_fibonacci fib
next_fibonacci-fib zero h = refl
next_fibonacci-fib (suc zero) h = refl
next_fibonacci-fib (suc (suc zero)) h = refl
next_fibonacci-fib (suc (suc (suc n))) h =
    let i = suc (suc (suc n)) in
    let one : i - 1 ≡ suc (suc n) = omega arith in
    let two : i - 2 ≡ suc n = omega arith in
    next_fibonacci-add i (fib (suc (suc n))) (fib (suc n)) (fib_list i) (omega arith)
      (rw one (get_elem?-fib_list i (suc (suc n)) (omega arith)))
      (rw two (get_elem?-fib_list i (suc n) (omega arith))) h

fib-le-fib-suc : (n : ℕ) → fib n ≤ fib (suc n)
unfolding fib
fib-le-fib-suc zero = omega arith
fib-le-fib-suc (suc zero) = omega arith
fib-le-fib-suc (suc (suc n)) = omega arith

fib_mono : (m n : ℕ) → m ≤ n → fib m ≤ fib n
fib_mono m zero h = let e : m ≡ 0 = omega arith in rw e (omega arith)
fib_mono m (suc n) h = elim (Bool-cases (m == suc n)) [
  | inl same ↦ rw ((==_iff m (suc n)).0 same) (omega arith)
  | inr less ↦ let le : m ≤ n = ground arith in omega (arith, fib_mono m n le, fib-le-fib-suc n)
]

-- Two neighbours at once, so that a large one can be computed.
neighbours : ℕ → ℕ × ℕ
neighbours zero = (1, 2)
neighbours (suc n) = let (a, b) = neighbours n in (b, a + b)

neighbours-eq : (n : ℕ) → ((neighbours n).0 ≡ fib (suc n)) × ((neighbours n).1 ≡ fib (suc (suc n)))
unfolding neighbours fib
neighbours-eq zero = (refl, refl)
neighbours-eq (suc n) = let (a, b) = neighbours-eq n in (b, omega arith)

fib_fits : fib 92 < 2 ^ 64
unfolding neighbours
fib_fits = omega (arith, (neighbours-eq 91).0)

same_list : (m n : ℕ) → m ≡ n → ok (fib_list m) ≡ ok (fib_list n)
same_list m n e = rw e

fibonacci_loop-fib :
    (left i : ℕ) → i + left ≤ 93 → fibonacci_loop left i (fib_list i) ≡ ok (fib_list (i + left))
unfolding fibonacci_loop fib_list
fibonacci_loop-fib zero i h = same_list i (i + 0) (omega arith)
fibonacci_loop-fib (suc left) i h =
    let fits : fib i < 2 ^ 64 = omega (arith, fib_mono i 92 (omega arith), fib_fits) in
    rw (next_fibonacci-fib i fits) (
      rw (add-one i) (fibonacci_loop-fib left (suc i) (omega arith))
      ∙ same_list (suc i + left) (i + suc left) (omega arith))

-- The distances are 0, 1, 2, 3, 5, 8, …, from the fourth on each the sum of the two before, for any
-- number of orders up to 93; the loop does not overflow.
pub fibonacci-eq : (order_num : ℕ) → order_num ≤ 93 → fibonacci order_num ≡ ok (fib_list order_num)
unfolding fibonacci fib_list
fibonacci-eq order_num h =
    fibonacci_loop-fib order_num 0 (omega arith) ∙ same_list (0 + order_num) order_num (omega arith)
