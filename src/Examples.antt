-- ===== src/Examples.antt =====
-- Runs of the modelled code on small inputs, and the theorems at these.
mod Configs
mod Launches
mod Lines
mod Local
mod Ports
mod Registry
mod Runs
mod Stored
