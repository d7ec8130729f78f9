-- ===== src/App.antt =====
-- internal/app: the effect shell.
pub mod Transfer
pub mod Provisioning
pub mod Links
pub mod Reading
pub mod Keeping
pub mod Coordinator
