-- ===== src/State/Status.antt =====
-- program/src/state.rs: `AmmStatus` and its numbers. An unknown number is a panic (`unreachable!`).
use solana_dex_amm.Result.{Result, ok, panic}
use solana_dex_amm.Prelude.{
  Bool, arith, false, if◌then◌else◌, refl, true, ℕ, ◌==◌, ◌||◌, ◌↔◌, ◌≡◌, ◌≤◌,
}

pub data AmmStatus : Type 0 where
  uninitialized initialized disabled withdraw_only liquidity_only : AmmStatus
  order_book_only swap_only waiting_trade : AmmStatus

unfoldable pub into_u64 : AmmStatus → ℕ
into_u64 AmmStatus.uninitialized = 0
into_u64 AmmStatus.initialized = 1
into_u64 AmmStatus.disabled = 2
into_u64 AmmStatus.withdraw_only = 3
into_u64 AmmStatus.liquidity_only = 4
into_u64 AmmStatus.order_book_only = 5
into_u64 AmmStatus.swap_only = 6
into_u64 AmmStatus.waiting_trade = 7

unfoldable pub from_u64 : ℕ → Result AmmStatus
from_u64 n =
    if n == 0
    then ok AmmStatus.uninitialized
    else if n == 1
    then ok AmmStatus.initialized
    else if n == 2
    then ok AmmStatus.disabled
    else if n == 3
    then ok AmmStatus.withdraw_only
    else if n == 4
    then ok AmmStatus.liquidity_only
    else if n == 5
    then ok AmmStatus.order_book_only
    else if n == 6
    then ok AmmStatus.swap_only
    else if n == 7
    then ok AmmStatus.waiting_trade
    else panic

unfoldable pub valid_status : ℕ → Bool
valid_status n = n == 1 || n == 2 || n == 3 || n == 4 || n == 5 || n == 6 || n == 7

unfoldable pub deposit_permission : AmmStatus → Bool
deposit_permission AmmStatus.uninitialized = false
deposit_permission AmmStatus.initialized = true
deposit_permission AmmStatus.disabled = false
deposit_permission AmmStatus.withdraw_only = false
deposit_permission AmmStatus.liquidity_only = true
deposit_permission AmmStatus.order_book_only = true
deposit_permission AmmStatus.swap_only = true
deposit_permission AmmStatus.waiting_trade = true

unfoldable pub withdraw_permission : AmmStatus → Bool
withdraw_permission AmmStatus.uninitialized = false
withdraw_permission AmmStatus.initialized = true
withdraw_permission AmmStatus.disabled = false
withdraw_permission AmmStatus.withdraw_only = true
withdraw_permission AmmStatus.liquidity_only = true
withdraw_permission AmmStatus.order_book_only = true
withdraw_permission AmmStatus.swap_only = true
withdraw_permission AmmStatus.waiting_trade = true

unfoldable pub swap_permission : AmmStatus → Bool
swap_permission AmmStatus.uninitialized = false
swap_permission AmmStatus.initialized = true
swap_permission AmmStatus.disabled = false
swap_permission AmmStatus.withdraw_only = false
swap_permission AmmStatus.liquidity_only = false
swap_permission AmmStatus.order_book_only = false
swap_permission AmmStatus.swap_only = true
swap_permission AmmStatus.waiting_trade = true

unfoldable pub orderbook_permission : AmmStatus → Bool
orderbook_permission AmmStatus.uninitialized = false
orderbook_permission AmmStatus.initialized = true
orderbook_permission AmmStatus.disabled = false
orderbook_permission AmmStatus.withdraw_only = false
orderbook_permission AmmStatus.liquidity_only = false
orderbook_permission AmmStatus.order_book_only = true
orderbook_permission AmmStatus.swap_only = false
orderbook_permission AmmStatus.waiting_trade = false

pub from_u64-into_u64 : (v : AmmStatus) → from_u64 (into_u64 v) ≡ ok v
unfolding from_u64 into_u64
from_u64-into_u64 AmmStatus.uninitialized = refl
from_u64-into_u64 AmmStatus.initialized = refl
from_u64-into_u64 AmmStatus.disabled = refl
from_u64-into_u64 AmmStatus.withdraw_only = refl
from_u64-into_u64 AmmStatus.liquidity_only = refl
from_u64-into_u64 AmmStatus.order_book_only = refl
from_u64-into_u64 AmmStatus.swap_only = refl
from_u64-into_u64 AmmStatus.waiting_trade = refl

pub into_u64_of_from_u64 : (n : ℕ) (v : AmmStatus) → from_u64 n ≡ ok v → into_u64 v ≡ n
unfolding from_u64 into_u64
into_u64_of_from_u64 n v h = ground arith

-- A number is read as a status exactly if it is the number of that status.
pub from_u64_iff : (n : ℕ) (v : AmmStatus) → (from_u64 n ≡ ok v) ↔ (into_u64 v ≡ n)
from_u64_iff n v = (into_u64_of_from_u64 n v, λ e. rw (← e) (from_u64-into_u64 v))

-- `valid_status` accepts the numbers of the statuses other than Uninitialized, and no others.
pub valid_status_iff : (n : ℕ) → (valid_status n ≡ true) ↔ ((1 ≤ n) × (n ≤ 7))
unfolding valid_status
valid_status_iff n = (λ h. ground arith, λ h. ground arith)

-- A status that lets users deposit, swap or trade on the order book also lets them withdraw; one that
-- lets them swap or trade on the order book also lets them deposit.
pub withdraw_permission_max :
    (v : AmmStatus)
    → deposit_permission v || swap_permission v || orderbook_permission v ≡ true
    → withdraw_permission v ≡ true
unfolding withdraw_permission deposit_permission swap_permission orderbook_permission
withdraw_permission_max v h = ground arith
