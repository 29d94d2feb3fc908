-- ===== src/Behaviour/Roles.antt =====
-- roles_scopes.go: a built-in role is refused by UpdateRole and DeleteRole.
use code_vald_org.Graph.State.{Graph}
