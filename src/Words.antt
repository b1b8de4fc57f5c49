-- ===== src/Words.antt =====
-- The checked arithmetic of Rust's `u64` and `u128` (the standard library's, at a width in bits) and
-- the interface of the crate `uint`, from which program/src/math.rs makes U128 and U256.
-- An unsigned value is the number that it stands for.
pub mod Std
pub mod Instance
pub mod Laws
mod Crate
pub use Crate.{Uint}
