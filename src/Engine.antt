-- ===== src/Engine.antt =====
-- fandos1/internal/engine/engine.go: the trading cycle over positions, orders, close and repair.
pub mod World
pub mod Moves
pub mod Closing
pub mod Opening
pub mod Cycle
pub mod Restoring
mod Tests
