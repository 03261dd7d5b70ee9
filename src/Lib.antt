-- ===== src/Lib.antt =====
-- A model of the funding-arbitrage bot fandos1: delta-neutral pairs of perpetual futures on two
-- exchanges, and transfers that move capital between exchanges.
--
-- The parts, and the files of the repository that they model:
-- - Prelude: names of the libraries, lists, maps, signed integers.
-- - Decimal: fandos1/internal/decimal/decimal.go. The library shopspring/decimal, which is not part
--   of the repository, is the interface Decimal/Interface.antt: exact addition, subtraction,
--   multiplication and comparison, and a division that rounds. Decimal/Example.antt meets it with the
--   integers. Decimal/Fixed64.antt is Fixed64 of the same file over integers that wrap around as
--   int64 (`add_with`, `sub_with`, `negate`, `mul_int`).
-- - Portfolio: fandos1/internal/portfolio/state_machine.go and restore.go. The position is a record;
--   TransitionTo is `transition_to`, and its two critical sections are `begin_transition` and
--   `finish_transition` (`commit`, `rollback`). Portfolio/Concurrent.antt lets the sections of
--   several goroutines interleave around the callback of the persister.
-- - Rebalance: fandos1/internal/rebalance. Plan is state_machine.go, Planner is planner.go (`propose`
--   is Propose), Breaker is circuit_breaker.go, and Executor is executor.go with ValidateRoute of
--   address.go: ExecuteTest is `execute_test`, ExecuteMain is `execute_main`. The executor acts on the
--   plan, the breaker and a trace of effects; store, exchange, confirmation checker, clock and context
--   are an `Env`, which answers each effect by all the effects before it.
-- - Execution: fandos1/internal/execution. Orders is order_executor.go (`place` is Place), Close is
--   close.go (`coordinated_close` is CoordinatedClose), Repair is repair.go (`analyze_mismatch`,
--   `apply_top_up`). Close goes through Place of Orders for each leg; an exchange is an `Adapter`,
--   which answers each request by all the requests it has had.
-- - Lifecycle: fandos1/internal/lifecycle/lifecycle.go. Halter is SAFE_HALT (`halt` is Halt, `resume`
--   is Resume, `restore_from_db` is RestoreFromDB) over a lock in the database that may fail at any
--   call; each is two atomic steps, whose interleavings are in Halter/Concurrent.antt; Watchdog is DBWatchdog, which calls `halt`; Supervisor is Supervisor.
-- - OrderBook: fandos1/internal/orderbook/vwap.go (`walk` is walk, `vwap_buy` is VWAPBuy, `vwap_sell`
--   is VWAPSell, `check_depth_sufficient` is CheckDepthSufficient).
-- - KeyRotation: fandos1/internal/keyrotation/keyrotation.go (`kill_switch` is KillSwitch,
--   `rotate_key` is RotateKey), which calls `halt` of Lifecycle.
-- - Engine: fandos1/internal/engine/engine.go. World is the state of the engine and what it asks of
--   the outside; Closing is closePosition (`close_position`, with `close_steps` for the position),
--   Opening is openPosition (`open_position`) with placeEntryLegs and repairImbalance in
--   Opening/Legs.antt, Cycle is Tick, monitor, tryOpen and RequestClose (`tick`, `monitor`,
--   `try_open`, `request_close`), and Restoring is Restore. The engine moves positions of Portfolio by
--   `transition_to`, places orders by `place` of Orders, and calls `coordinated_close` of Close and
--   `analyze_mismatch`, `apply_top_up` and `place_reduce_order` of Repair. The registry, the market
--   data, the persister, the clock, the halter, the scanner and the executors are a `Deps`, and each
--   answers by the events and the requests so far; each tick and each visit of a position in it has
--   a `Deps` of its own, so that the outside may change in between.
-- - Allocation: fandos1/internal/allocation/allocator.go (`allocate` is Allocate, `allocate_one` the
--   body of its loop).
-- - Risk: fandos1/internal/risk/engine.go (`check_position` is CheckPosition, `check_daily_loss` is
--   CheckDailyLoss).
-- - Strategy: fandos1/internal/strategy, expected_pnl.go (`expected_net_pnl`, `check_eligibility`) and
--   funding_calendar.go (`build_funding_calendar` is BuildFundingCalendar).
--
-- Conventions. A time or a duration is a number; a clock that the code reads is an argument or an
-- effect. An error is a constructor, or none of an Option; texts of errors and messages are
-- parameters or constructors. A Go map is an association list. What a mutex covers is one step:
-- a whole method, or, in Lifecycle and in Portfolio, a part of one.
-- Errors of decimals (a zero divisor) are none.
--
-- Bounds and fuel. The loop of waitConfirmation runs on fuel, and two more than the deadline is
-- enough where each wait lets the clock advance by one. The loop of CoordinatedClose is bounded by
-- MaxRequotes + 1 in the code, and recurs on this number. The loops of the watchdog and of the
-- supervisor recur on the list of what they receive. The loop of the funding calendar runs on fuel; one
-- more than the units of the horizon is enough.
--
-- Not modelled: the implementations of the adapters, HTTP, SQL, Telegram, logging, cryptography and
-- the wiring of the processes, which are input and output; the rendering of client order ids, a
-- parameter of the close; the scores of the strategy, the scanner, market data, instrument and
-- outbox packages; and the conversions and the printing of decimals.
pub mod Prelude
pub mod Decimal
pub mod Portfolio
pub mod Rebalance
pub mod Execution
pub mod Lifecycle
pub mod OrderBook
pub mod KeyRotation
pub mod Engine
pub mod Allocation
pub mod Risk
pub mod Strategy
