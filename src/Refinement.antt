-- ===== src/Refinement.antt =====
-- The operations of the manager against the specification of Graph.Step.
pub mod Plain
pub mod Keyed
pub mod Found
pub mod Histories
