-- ===== src/App/Coordinator.antt =====
-- internal/app/transfer_coordinator.go and transfer_coordinator_testonly.go: the saga over a
-- transfer between two tenants.
pub mod Movements
pub mod Process
pub mod Reversal
pub mod Attempt
pub mod Viewing
pub mod Sending
pub mod Ticker
pub mod Steady
