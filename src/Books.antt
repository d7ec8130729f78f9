-- ===== src/Books.antt =====
-- The invariant of the books, over the tables of internal/adapters/postgres: what
-- GET /health/trial-balance checks by a scan.
pub mod Sums
pub mod Sound
pub mod Movement
pub mod Opening
pub mod Recorded
pub mod TrialBalance
pub mod Verified
pub mod Drift
