-- ===== src/Registrar/Methods.antt =====
-- proto/codevaldorg/v1/org.proto: the full names of the methods of the gRPC service.
use code_vald_org.Prelude.{String, ◌<>◌, Bool, true, false}
use code_vald_org.Server.Service.{Rpc}

abbrev pub method_name : Rpc → String
method_name (Rpc.init_organization req) = "InitOrganization"
method_name (Rpc.get_organization req) = "GetOrganization"
method_name (Rpc.update_organization req) = "UpdateOrganization"
method_name (Rpc.disable_organization req) = "DisableOrganization"
method_name (Rpc.delete_organization req) = "DeleteOrganization"
method_name (Rpc.invite_user req) = "InviteUser"
method_name (Rpc.accept_invitation req) = "AcceptInvitation"
method_name (Rpc.get_user req) = "GetUser"
method_name (Rpc.list_users req) = "ListUsers"
method_name (Rpc.suspend_user req) = "SuspendUser"
method_name (Rpc.reactivate_user req) = "ReactivateUser"
method_name (Rpc.delete_user req) = "DeleteUser"
method_name (Rpc.create_role req) = "CreateRole"
method_name (Rpc.update_role req) = "UpdateRole"
method_name (Rpc.delete_role req) = "DeleteRole"
method_name (Rpc.list_roles req) = "ListRoles"
method_name (Rpc.register_scope req) = "RegisterScope"
method_name (Rpc.deprecate_scope req) = "DeprecateScope"
method_name (Rpc.list_scopes req) = "ListScopes"
method_name (Rpc.grant_membership req) = "GrantMembership"
method_name (Rpc.revoke_membership req) = "RevokeMembership"
method_name (Rpc.list_memberships req) = "ListMemberships"
method_name (Rpc.create_oauth_client req) = "CreateOAuthClient"
method_name (Rpc.rotate_client_secret req) = "RotateClientSecret"
method_name (Rpc.list_oauth_clients req) = "ListOAuthClients"
method_name (Rpc.delete_oauth_client req) = "DeleteOAuthClient"
method_name (Rpc.authorize req) = "Authorize"
method_name (Rpc.token req) = "Token"
method_name (Rpc.introspect req) = "Introspect"
method_name (Rpc.revoke req) = "Revoke"
method_name (Rpc.list_audit_events req) = "ListAuditEvents"

-- The name under which gRPC calls the method.
abbrev pub full_method : Rpc → String
full_method q = "/codevaldorg.v1.OrgService/" <> method_name q

-- The methods that the OAuth endpoints of the service's own listener offer.
abbrev pub is_oauth : Rpc → Bool
is_oauth (Rpc.authorize req) = true
is_oauth (Rpc.token req) = true
is_oauth (Rpc.introspect req) = true
is_oauth (Rpc.revoke req) = true
is_oauth q = false
