-- ===== src/Processor/Withdraw.antt =====
-- program/src/processor.rs: `process_withdraw`.
pub mod Accounts
pub mod Amounts
pub mod Handler
pub mod Laws
