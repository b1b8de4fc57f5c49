-- ===== src/Prelude/Arith.antt =====
-- Division on the native numbers.
use native.Mathlib.Nat.{pow-suc, div-le_of_le-mul}
use Prim.Native.Nat.{ℕ, zero, suc, ◌^◌, ◌+◌, ◌-◌, ◌*◌, ◌/◌, ◌%◌, ◌≤◌, ◌<◌}
use mathlib.Core.Path.{◌≡◌}
use native.Mathlib.Omega.{arith}

-- The quotient is the number of times that the divisor fits.
pub div_unique : (n b q : ℕ) → q * b ≤ n → n < q * b + b → n / b ≡ q
div_unique n b q h k = grind arith

pub div-mul-le : (n b : ℕ) → n / b * b ≤ n
div-mul-le n b = grind arith

pub lt-div-mul-add : (n b : ℕ) → 0 < b → n < n / b * b + b
lt-div-mul-add n b p = grind arith

pub div_mono : (m n b : ℕ) → m ≤ n → m / b ≤ n / b
div_mono m n b h = grind arith

pub div-le_self : (n b : ℕ) → n / b ≤ n
div-le_self n b = grind arith

pub le-div : (n b q : ℕ) → 0 < b → q * b ≤ n → q ≤ n / b
le-div n b q p h = grind arith

pub div-lt : (n b q : ℕ) → 0 < b → n < q * b → n / b < q
div-lt n b q p h = grind arith

-- The least `q` with `n ≤ q * b`.
abbrev pub ceil : ℕ → ℕ → ℕ
ceil n b = (n + b - 1) / b

pub ceil_of_mod_zero : (n b : ℕ) → 0 < b → n % b ≡ 0 → ceil n b ≡ n / b
ceil_of_mod_zero n b p e = grind (arith, div_unique)

pub ceil_of_mod_pos : (n b : ℕ) → 0 < b → 0 < n % b → ceil n b ≡ n / b + 1
ceil_of_mod_pos n b p e = div_unique _ _ _ (grind arith) (grind arith)

pub le-ceil-mul : (n b : ℕ) → 0 < b → n ≤ ceil n b * b
le-ceil-mul n b p = omega (arith, lt-div-mul-add (n + b - 1) b p)

pub ceil-mul-lt : (n b : ℕ) → 0 < b → ceil n b * b < n + b
ceil-mul-lt n b p = omega (arith, div-mul-le (n + b - 1) b)

pub ceil-mul : (q b : ℕ) → 0 < q → ceil (q * b) q ≡ b
ceil-mul q b p = div_unique _ _ _ (grind arith) (grind arith)

-- Where the divisor fits without rest, dividing by the quotient gives the divisor back.
pub ceil-div_exact : (n b : ℕ) → 0 < b → b ≤ n → n % b ≡ 0 → ceil n (n / b) ≡ b
ceil-div_exact n b p le e =
    let whole : n ≡ n / b * b = grind arith in
    div_unique _ _ _ (grind arith) (omega (arith, whole, le-div n b 1 p (omega arith)))

pub ceil-pos : (n b : ℕ) → 0 < b → 0 < n → 0 < ceil n b
ceil-pos n b p h = le-div _ b 1 p (omega arith)

-- A product taken apart along a difference.
pub mul-sub-add : (a m n : ℕ) → n ≤ m → a * (m - n) + a * n ≡ a * m
mul-sub-add a m n h = let whole : m ≡ m - n + n = omega arith in grind arith

pub mul-lt_u128 : (a b : ℕ) → a < 2 ^ 64 → b < 2 ^ 64 → a * b < 2 ^ 128
mul-lt_u128 a b h k = grind arith

pub pow10-pos : (n : ℕ) → 0 < 10 ^ n
pow10-pos zero = omega arith
pow10-pos (suc n) = omega (arith, pow10-pos n, pow-suc 10 n)

pub le_of_mul : (a b k : ℕ) → 0 < k → a * k ≤ b * k → a ≤ b
le_of_mul a b k p h = grind arith

pub pow10_mono : (m n : ℕ) → m ≤ n → 10 ^ m ≤ 10 ^ n
pow10_mono zero n h = pow10-pos n
pow10_mono (suc m) zero h = absurd (omega arith)
pow10_mono (suc m) (suc n) h =
    omega (arith, pow10_mono m n (omega arith), pow-suc 10 m, pow-suc 10 n)

pub ceil-le : (n b : ℕ) → 0 < b → 0 < n → ceil n b ≤ n
ceil-le zero b p h = elim h [ ]
ceil-le (suc n) zero p h = elim p [ ]
ceil-le (suc n) (suc b) p h = div-le_of_le-mul (suc b) (omega arith)

pub mul-le_right : (k a b : ℕ) → a ≤ b → k * a ≤ k * b
mul-le_right k a b h = grind arith
