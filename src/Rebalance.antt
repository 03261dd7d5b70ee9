-- ===== src/Rebalance.antt =====
-- fandos1/internal/rebalance: capital moves between two exchanges. Plan is the state machine of a
-- plan, Planner proposes one, Breaker is the withdrawal circuit breaker, Executor the two-phase TEST and MAIN transfer.
pub mod Plan
pub mod Breaker
pub mod Planner
pub mod Executor
mod Tests
