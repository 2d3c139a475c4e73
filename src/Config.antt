-- ===== src/Config.antt =====
-- src/config: the project's configuration file, its validation, and the plan of a stack.
pub mod Model
pub mod Service
pub mod Names
pub mod Plan
pub mod Selection
pub mod Validate
