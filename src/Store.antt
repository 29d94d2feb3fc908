-- ===== src/Store.antt =====
-- The entity graph's DataManager behind the environment: its documented behaviour, and the rules by
-- which the manager's calls are shown to follow the specification of `Graph.Step`.
pub mod Lawful
pub mod Keeps
pub mod From
pub mod Memory
pub mod Preserves
pub mod Reliable
