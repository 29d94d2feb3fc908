-- ===== src/Manager.antt =====
-- The OrgManager implementation (manager.go): its operations by group. The fields `sm` and `pub`
-- of `orgManager` are used by none of them.
pub mod Calls
pub mod Organizations
pub mod Users
pub mod Invitations
pub mod Roles
pub mod Scopes
pub mod Memberships
pub mod Clients
pub mod Tokens
pub mod Operations
