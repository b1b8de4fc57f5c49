-- ===== src/Processor/SetParams.antt =====
-- program/src/processor.rs: `process_set_params`.
pub mod Accounts
pub mod Param
pub mod Handler
pub mod Kept
pub mod Laws
