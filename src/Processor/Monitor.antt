-- ===== src/Processor/Monitor.antt =====
-- program/src/processor.rs: `process_monitor_step`, which keeps the pool's orders in the market, one step
-- of a state machine at a time.
pub mod Accounts
pub mod Idle
pub mod Cancel
pub mod Plan
pub mod Place
pub mod Step
pub mod Laws
