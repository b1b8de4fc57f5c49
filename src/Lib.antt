-- ===== src/Lib.antt =====
-- The Raydium AMM of solana-dex-amm: a constant product pool whose liquidity also stands in a market's
-- order book.
--
-- The program (program/src) keeps one account for each pool. An instruction is unpacked from bytes
-- (instruction.rs), a handler of processor.rs loads the pool's state (state.rs), computes with the
-- formulas of math.rs, and calls the token and the market program. What is modelled, by file:
--
--   Math      program/src/math.rs. Math/Swap: swap_token_amount_base_in and base_out; Math/CeilDiv:
--             CheckedCeilDiv for u128 and U128; Math/Exchange: InvariantToken and InvariantPool;
--             Math/Decimal: the conversions between a token's units, lots and the system's decimals;
--             Math/Lots: lots, order sizes at a price, and the Fibonacci distances of the order grid;
--             Math/Vault: what vault and market hold together; Math/Power: calc_x_power.
--   State     program/src/state.rs. State/Status, Machine, Params, ResetFlag, Simulate: the
--             enumerations and their numbers; State/Fees: Fees; State/Amm: StateData, AmmInfo and its
--             initialize; State/Target: TargetOrders; State/Config: AmmConfig.
--   Instruction   program/src/instruction.rs. Instruction/Unpack and Arguments: unpack;
--             Instruction/Pack: pack; Instruction/Read: the readers of integers; Packable says which
--             instructions are well formed.
--   Processor program/src/processor.rs. Processor/Swap: process_swap_base_in and process_swap_base_out, in
--             three steps: Swap/Prepare (accounts, checks, status, totals, direction), Swap itself (the
--             amounts), Swap/Settle (cancellations, transfers, accumulated amounts, and the two handlers
--             as a whole). Processor/Deposit, Withdraw, WithdrawPnl: process_deposit, process_withdraw,
--             process_withdrawpnl, each with its Accounts, its amounts and its Handler.
--             Processor/Monitor: process_monitor_step (Step) with check_accounts and the parsers
--             (Accounts) and the functions of the states: do_idle_state (Idle), do_plan_orderbook (Plan),
--             do_place_orders (Place), do_purge_orders, do_cancel_order and do_cancel_all_orders_state
--             (Cancel). Processor/SetParams: process_set_params and do_cancel_amm_orders.
--             Processor/TakePnl: calc_take_pnl, the profit that is taken off the pool's totals
--             before users deposit, withdraw or the pool plans orders; Processor/Orders: the batches of
--             order ids to cancel. Modules named Laws, and those named for what they show, hold what is
--             proved: TakePnl/Share says what goes off the totals, Deposit/Measured which accounts the
--             totals were read from, Deposit/Paid the checks and the payment, Deposit/Next the fields
--             that are written, and WithdrawPnl/Steps the payments of the profit.
--   Chain     the interface Chain: a state of the chain, what the handlers read of it (accounts that are
--             parsed by the token and the market program, the clock, derived addresses), and the call of
--             another program. Chain/Load: the checked loading of program/src/state.rs and processor.rs,
--             Chain/Book: get_amm_orders, Chain/Invokers: program/src/invokers.rs, as the call that each
--             function makes. Chain/Ledger: the documented effect of a token transfer on the balances.
--   Result    program/src/error.rs: AmmError, and how a call ends: a value, an error that the question
--             mark operator hands on, or a panic, which aborts the transaction. The crate is built with
--             overflow checks, so unchecked arithmetic that overflows is a panic too.
--   Words     the integers. A w-bit unsigned value is a natural number; a checked operation of Rust's
--             standard library is a function to Option (Words/Std). U128 and U256 are made by the crate
--             uint, which is not part of the repository: its operations are the interface Uint, with
--             its documented behaviour as laws, and Words/Instance fills it. The root of 256 bits is
--             found digit by digit, with as many rounds as the width has bits, two bits a round.
--   Bytes, Serum, Instruction/Key
--             little-endian bytes; what is read of serum_dex; the key type of solana_program, with the
--             laws of its 32 bytes as an interface that lists of bytes fill.
--   Prelude   names passed on, Boolean tests, list and division lemmas.
--   Tests     concrete runs; Tests/Chain is a small chain that fills the interface.
--
-- State that the code changes in place is returned: a handler takes the state of the chain and returns it
-- with the pool, and the target orders where it writes them. Loops are recursion on the list or on the
-- number of rounds that are left, so no fuel is chosen.
--
-- Not modelled: of processor.rs, initialization, migration, the config accounts,
-- the withdrawal of SRM, the administrator's cancellations and withdrawal, and the simulations; of
-- invokers.rs, the creation of accounts; logs; the builders of instructions for clients, and the command
-- line client.
pub mod Prelude
pub mod Result
pub mod Words
pub mod Bytes
pub mod Serum
pub mod Chain
pub mod State
pub mod Math
pub mod Instruction
pub mod Processor
pub mod Tests
