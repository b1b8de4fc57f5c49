-- ===== src/Tests.antt =====
-- Concrete runs of program/src, at the standard integers.
mod Data
mod Swap
mod Ratio
mod Lots
mod State
mod Instruction
mod Pool
mod Setup
mod Orders
mod Amounts
mod Chain
mod Swaps
mod Funds
mod Steps
