-- ===== src/Math.antt =====
-- program/src/math.rs.
pub mod CeilDiv
pub mod Swap
pub mod Decimal
pub mod Exchange
pub mod Lots
pub mod Vault
pub mod Power
