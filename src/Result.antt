-- ===== src/Result.antt =====
-- How a call ends (program/src/error.rs): a value, a `ProgramError` that `?` hands on, or a panic
-- (`unwrap`, `unreachable!`, an index out of bounds), which aborts the transaction.
mod Error
pub use Error.*
use solana_dex_amm.Result.Error.{AmmError, ProgramError, custom}
use solana_dex_amm.Prelude.{Bool, Option, false, if◌then◌else◌, none, refl, some, subst, true, ◌≡◌}

-- how a call ends
pub data Result {ℓ} (A : Type ℓ) : Type ℓ where
  panic : Result A
  err : ProgramError → Result A
  ok : A → Result A

infixl 5 ◌>>=◌ ◌>>◌
-- The `?` operator, and the statement after a call that may panic.
abbrev pub ◌>>=◌ {κ ℓ} :
    {Value : Type κ} {Next : Type ℓ} → Result Value → (Value → Result Next) → Result Next
panic >>= next = panic
err e >>= next = err e
ok value >>= next = next value

-- the same for a call that returns nothing
abbrev pub ◌>>◌ {ℓ} : {Next : Type ℓ} → Result (Unit {0}) → Result Next → Result Next
first >> next = first >>= λ _. next

-- `if c { return Err(e.into()); }`
abbrev pub err_if : Bool → AmmError → Result (Unit {0})
err_if true e = err (custom e)
err_if false e = ok tt

module _ {ℓ} {A : Type ℓ} where
  -- `Option::unwrap`
  abbrev pub unwrap : Option A → Result A
  unwrap none = panic
  unwrap (some a) = ok a

  -- `Option::ok_or(e)?`
  abbrev pub ok_or : Option A → AmmError → Result A
  ok_or none e = err (custom e)
  ok_or (some a) e = ok a

  -- `Result::unwrap`
  abbrev pub unwrap_ok : Result A → Result A
  unwrap_ok (ok a) = ok a
  unwrap_ok (err e) = panic
  unwrap_ok panic = panic

pub ok_injective {ℓ} : {A : Type ℓ} {a b : A} → ok a ≡ ok b → a ≡ b
ok_injective e = cc

-- A chain that succeeds has a first step that succeeds.
pub bind-eq-ok {κ ℓ} :
    {Value : Type κ} {Next : Type ℓ} (call : Result Value) (next : Value → Result Next)
    {last : Next}
    → (call >>= next) ≡ ok last
    → (value : Value) × (call ≡ ok value) × (next value ≡ ok last)
bind-eq-ok panic next e = cc
bind-eq-ok (err _) next e = cc
bind-eq-ok (ok value) next e = (value, refl, e)

-- `P` holds of the value, if there is one.
pub record Ensures {ℓ κ} {A : Type ℓ} (P : A → Type κ) (r : Result A) : Type (ℓ ⊔ κ) where
  pub holds : (a : A) → r ≡ ok a → P a

-- A chain ensures what its second part ensures for every value of the first.
pub step {ℓ κ μ} :
    {A : Type ℓ} {B : Type κ} {P : B → Type μ} (m : Result A) (f : A → Result B)
    → ((a : A) → m ≡ ok a → Ensures P (f a))
    → Ensures P (m >>= f)
step m f h = record {
  holds = λ b e. let (a, first, second) = bind-eq-ok m f e in (h a first).holds b second;
}

-- A value ensures what holds of it.
pub ok-Ensures {ℓ κ} : {A : Type ℓ} {P : A → Type κ} (a : A) → P a → Ensures P (ok a)
ok-Ensures {P = P} a h = record { holds = λ b e. subst P (ok_injective e) h }

-- A test ensures what both of its branches ensure.
pub if-Ensures {ℓ κ} :
    {A : Type ℓ} {P : A → Type κ} (c : Bool) {m n : Result A}
    → (c ≡ true → Ensures P m)
    → (c ≡ false → Ensures P n)
    → Ensures P (if c then m else n)
if-Ensures true hm hn = hm refl
if-Ensures false hm hn = hn refl
