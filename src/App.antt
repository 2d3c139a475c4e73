-- ===== src/App.antt =====
-- src/app: the commands and background tasks that change the runs, and the queries on them.
pub mod Gc
pub mod Launch
pub mod Lifecycle
pub mod Reconcile
pub mod Refresh
pub mod Status
pub mod Tasks
