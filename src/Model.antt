-- ===== src/Model.antt =====
-- src/model, src/app/handles.rs and the events of src/api.rs: the records that the daemon keeps in memory.
-- A handle is an `Arc` shared with a background task: it is its identity, and stopping it sets the
-- task's stop flag, so the operations return the handles that they stop.
pub mod Service
pub mod Run
pub mod Event
pub mod InstanceScope
