-- ===== src/Processor/WithdrawPnl.antt =====
-- program/src/processor.rs: `process_withdrawpnl`.
pub mod Accounts
pub mod Handler
pub mod Steps
pub mod Laws
