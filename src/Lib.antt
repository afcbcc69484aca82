-- ===== src/Lib.antt =====
-- The Raydium AMM program (program/src): a constant product pool for two tokens, coin and pc, that can
-- lend its reserves to an order book.
--
-- Parts of the program, and the files that model them:
--   * program/src/error.rs: Errors. `AmmError` and its numbers.
--   * program/src/math.rs: Math. Math.CeilDiv is `checked_ceil_div`, Math.Swap the curve of the swaps,
--     Math.Exchange the exchanges of `InvariantToken` and `InvariantPool` behind deposits and
--     withdrawals, Math.Decimal and Math.Lots the conversions of units, Math.Fibonacci the table of
--     order distances. The totals of the pool (`calc_exact_vault_in_serum`,
--     `calc_total_without_take_pnl` and its form without an order book) are in Swap.Prepare.
--   * program/src/state.rs: State. Status, MachineState, Params, ResetFlag and Simulate are the
--     enumerations, Fees the fee fractions and their bytes, Amm the pool's account (`StateData`,
--     `AmmInfo`), Orders the account of the planned orders (`TargetOrders`), Loading `AmmConfig` and
--     the checks with which accounts are loaded.
--   * program/src/instruction.rs: Instruction. Types, Unpack and Pack are the instructions, `unpack`
--     and `pack`; RoundTrip has the proofs.
--   * program/src/processor.rs: Pnl is `calc_take_pnl`, Pnl.Errors its errors; Swap has both swaps.
--     Swap.Prepare is what they share (checks of the accounts, status, totals, direction), Swap.Cancel
--     the batches of order ids, Swap.BaseIn and Swap.BaseOut `process_swap_base_in` and
--     `process_swap_base_out`, Swap.Gate, Swap.Fair, Swap.Flow and Swap.Totals what the theorems say of
--     them. Settings is `process_set_params`, from the `match` on the parameter;
--     Administration.SetParams is what comes before it. Administration.Config is
--     `process_create_config` and `process_update_config`, Administration.Srm `process_withdraw_srm`,
--     Administration.Orders `do_cancel_amm_orders` and `process_admin_cancel_orders`,
--     Administration.Migrate `process_migrate_to_openbook`. Initialization is `process_initialize2`:
--     Initialization.Create its three functions that create accounts, Initialization.Process the
--     handler; Initialization.Created says which calls create an account. Liquidity has
--     `process_deposit`, `process_withdraw` and `process_withdrawpnl`: Liquidity.Pool is what they
--     share, Liquidity.Withdraw.Orders its loop over bids and asks, Liquidity.Fit and Liquidity.Ready
--     what is known of a pool when the amounts are computed. Simulation has `process_simulate_info` and
--     the four simulations: PoolInfo, Quote (both swaps), RunCrank, and Dispatch; Simulation.Check is
--     `check_accounts`.
--   * Shares is an abstract specification of the pool: what it holds, how many pool tokens there are,
--     and the steps that a user can cause. Shares.Refinement relates the handlers to it, by what their
--     calls do to the holdings; Shares.Value follows the value of a pool token through runs and profit
--     calculations.
--   * Prelude has the helpers: `Outcome` (a value, an error, or a panic), checked words, bytes.
--   * Tests has the theorems at concrete inputs.
--
-- How the model corresponds to the code:
--   * An integer is a native number; a checked operation has its width written out, and an unchecked
--     one panics on overflow, since the release profile sets `overflow-checks`. A public key is the
--     number of its 32 bytes, and 0 the default key.
--   * What is changed through `&mut` is in the result. An error or a panic aborts the transaction, so
--     that its changes are not kept, and a result has no state in these cases.
--   * The `uint` crate is the record `Uint`: its operations, and its documented behaviour as laws.
--     Uint.Reference is an instance, for concrete inputs.
--   * The SPL token program, the order book's program and the runtime answer through the records
--     `Runtime`, `LiquidityRuntime`, `SimulateRuntime`, `CrankRuntime`, `InitRuntime`, `AdminRuntime`,
--     `MigrateRuntime` and `SettingsAnswers`; the keys that a build chooses are fields of them too. The
--     calls that change accounts are listed in the result of an instruction in their order (`Call`).
--     What such a call does is not modelled, but for the amounts that Shares.Refinement counts. An
--     account is a record of its key and of what the checks read.
--   * Every loop of the code is a recursion on a list or on a number that falls, so there is no fuel.
--
-- Not modelled: the monitor step, and `process`, which only calls the handler of an instruction;
-- `get_amm_orders` and `unpack_token_account`, whose answers are fields of the runtime records;
-- `get_max_buy_size_at_price` and its counterpart; the builders of instructions for clients (they only
-- list accounts); invokers.rs, which builds foreign calls; and logging.
pub mod Prelude
pub mod Errors
pub mod Uint
pub mod Math
pub mod State
pub mod Instruction
pub mod Pnl
pub mod Swap
pub mod Liquidity
pub mod Shares
pub mod Simulation
pub mod Settings
pub mod Initialization
pub mod Administration
pub mod Tests
