-- ===== src/Behaviour.antt =====
-- What single operations of the manager promise, in every store that behaves as documented.
pub mod Refusals
pub mod Roles
pub mod Scopes
pub mod Tokens
pub mod Revocation
pub mod Users
pub mod SeededRoles
pub mod Seeding
pub mod Invitations
pub mod Acceptance
pub mod Reuse
pub mod Memberships
pub mod Completion
pub mod Changes
