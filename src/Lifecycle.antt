-- ===== src/Lifecycle.antt =====
-- fandos1/internal/lifecycle/lifecycle.go.
pub mod Halter
pub mod Watchdog
pub mod Supervisor
mod Tests
