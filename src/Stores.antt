-- ===== src/Stores.antt =====
-- src/stores: the daemon's state in memory. A store is a value behind one mutex, so an operation is a
-- function of the store, and the operations of concurrent tasks follow one another.
pub mod AgentSessions
pub mod Globals
pub mod Navigation
pub mod Runs
pub mod Tasks
