-- ===== src/Execution.antt =====
-- fandos1/internal/execution: orders, the coordinated close of both legs and the repair of a
-- mismatch.
pub mod Orders
pub mod Close
pub mod Repair
mod Tests
