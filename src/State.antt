-- ===== src/State.antt =====
-- program/src/state.rs.
pub mod Status
pub mod Machine
pub mod Params
pub mod ResetFlag
pub mod Simulate
pub mod Fees
pub mod Amm
pub mod Target
pub mod Config
