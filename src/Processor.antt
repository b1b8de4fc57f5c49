-- ===== src/Processor.antt =====
-- program/src/processor.rs.
pub mod TakePnl
pub mod Orders
pub mod Swap
pub mod Deposit
pub mod Withdraw
pub mod WithdrawPnl
pub mod Monitor
pub mod SetParams
