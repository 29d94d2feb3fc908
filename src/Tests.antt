-- ===== src/Tests.antt =====
-- Examples on the environment in memory: each theorem at a concrete input.
pub mod Data
mod Runs
mod TokenRuns
mod Calls
mod Surprises
mod Memberships
mod Declared
mod Configured
mod Wiring
mod Hashed
mod Completed
