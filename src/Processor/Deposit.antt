-- ===== src/Processor/Deposit.antt =====
-- program/src/processor.rs: `process_deposit`.
pub mod Accounts
pub mod Amounts
pub mod Handler
pub mod Laws
pub mod Measured
pub mod Paid
pub mod Next
pub mod Booked
