-- ===== src/Server/Service.antt =====
-- internal/server/server.go: the methods of Server as data, one constructor for each, and the run of
-- a call. Of the answer it keeps the status error, if there is one.
use code_vald_org.Prelude.{String, Option, none, some}
use code_vald_org.Effects.{Env}
use code_vald_org.Models.{ManagerConfig}
use code_vald_org.Server.Mappers.{StatusError}
use code_vald_org.Server.Reply.{Reply, reply, refused, Call}
use code_vald_org.Server.Organizations
use code_vald_org.Server.Users
use code_vald_org.Server.Access
use code_vald_org.Server.OAuth
use code_vald_org.Server.Requests.{
  InitOrganizationRequest, GetOrganizationRequest, UpdateOrganizationRequest,
  DisableOrganizationRequest, DeleteOrganizationRequest, InviteUserRequest, AcceptInvitationRequest,
  GetUserRequest, ListUsersRequest, SuspendUserRequest, ReactivateUserRequest, DeleteUserRequest,
  CreateRoleRequest, UpdateRoleRequest, DeleteRoleRequest, ListRolesRequest, RegisterScopeRequest,
  DeprecateScopeRequest, ListScopesRequest, GrantMembershipRequest, RevokeMembershipRequest,
  ListMembershipsRequest, CreateOAuthClientRequest, RotateClientSecretRequest,
  ListOAuthClientsRequest, DeleteOAuthClientRequest, AuthorizeRequest, TokenRequest,
  IntrospectRequest, RevokeRequest, ListAuditEventsRequest,
}

pub data Rpc : Type 0 where
  init_organization : InitOrganizationRequest → Rpc
  get_organization : GetOrganizationRequest → Rpc
  update_organization : UpdateOrganizationRequest → Rpc
  disable_organization : DisableOrganizationRequest → Rpc
  delete_organization : DeleteOrganizationRequest → Rpc
  invite_user : InviteUserRequest → Rpc
  accept_invitation : AcceptInvitationRequest → Rpc
  get_user : GetUserRequest → Rpc
  list_users : ListUsersRequest → Rpc
  suspend_user : SuspendUserRequest → Rpc
  reactivate_user : ReactivateUserRequest → Rpc
  delete_user : DeleteUserRequest → Rpc
  create_role : CreateRoleRequest → Rpc
  update_role : UpdateRoleRequest → Rpc
  delete_role : DeleteRoleRequest → Rpc
  list_roles : ListRolesRequest → Rpc
  register_scope : RegisterScopeRequest → Rpc
  deprecate_scope : DeprecateScopeRequest → Rpc
  list_scopes : ListScopesRequest → Rpc
  grant_membership : GrantMembershipRequest → Rpc
  revoke_membership : RevokeMembershipRequest → Rpc
  list_memberships : ListMembershipsRequest → Rpc
  create_oauth_client : CreateOAuthClientRequest → Rpc
  rotate_client_secret : RotateClientSecretRequest → Rpc
  list_oauth_clients : ListOAuthClientsRequest → Rpc
  delete_oauth_client : DeleteOAuthClientRequest → Rpc
  authorize : AuthorizeRequest → Rpc
  token : TokenRequest → Rpc
  introspect : IntrospectRequest → Rpc
  revoke : RevokeRequest → Rpc
  list_audit_events : ListAuditEventsRequest → Rpc

-- `req.GetAgencyId()`
abbrev pub agency_of : Rpc → String
agency_of (init_organization req) = req.agency_id
agency_of (get_organization req) = req.agency_id
agency_of (update_organization req) = req.agency_id
agency_of (disable_organization req) = req.agency_id
agency_of (delete_organization req) = req.agency_id
agency_of (invite_user req) = req.agency_id
agency_of (accept_invitation req) = req.agency_id
agency_of (get_user req) = req.agency_id
agency_of (list_users req) = req.agency_id
agency_of (suspend_user req) = req.agency_id
agency_of (reactivate_user req) = req.agency_id
agency_of (delete_user req) = req.agency_id
agency_of (create_role req) = req.agency_id
agency_of (update_role req) = req.agency_id
agency_of (delete_role req) = req.agency_id
agency_of (list_roles req) = req.agency_id
agency_of (register_scope req) = req.agency_id
agency_of (deprecate_scope req) = req.agency_id
agency_of (list_scopes req) = req.agency_id
agency_of (grant_membership req) = req.agency_id
agency_of (revoke_membership req) = req.agency_id
agency_of (list_memberships req) = req.agency_id
agency_of (create_oauth_client req) = req.agency_id
agency_of (rotate_client_secret req) = req.agency_id
agency_of (list_oauth_clients req) = req.agency_id
agency_of (delete_oauth_client req) = req.agency_id
agency_of (authorize req) = req.agency_id
agency_of (token req) = req.agency_id
agency_of (introspect req) = req.agency_id
agency_of (revoke req) = req.agency_id
agency_of (list_audit_events req) = req.agency_id

abbrev pub status_of : {A : Type 0} → Reply A → Option StatusError
status_of (reply a) = none
status_of (refused e) = some e

-- The call, of whose answer the status is kept.
unfoldable pub outcome : {W A : Type 0} → Call W A → W → Option StatusError × W
outcome call w = let (r, w') = call w in (status_of r, w')

module _ (E : Env) (cfg : ManagerConfig) (agency_id : String) where
  unfoldable pub handle : Rpc → E.World → Option StatusError × E.World
  handle (init_organization req) = outcome (Organizations.init_organization E cfg agency_id req)
  handle (get_organization req) = outcome (Organizations.get_organization E cfg agency_id req)
  handle (update_organization req) = outcome (Organizations.update_organization E cfg agency_id req)
  handle (disable_organization req) =
      outcome (Organizations.disable_organization E cfg agency_id req)
  handle (delete_organization req) = outcome (Organizations.delete_organization E cfg agency_id req)
  handle (invite_user req) = outcome (Users.invite_user E cfg agency_id req)
  handle (accept_invitation req) = outcome (Users.accept_invitation E cfg agency_id req)
  handle (get_user req) = outcome (Users.get_user E cfg agency_id req)
  handle (list_users req) = outcome (Users.list_users E cfg agency_id req)
  handle (suspend_user req) = outcome (Users.suspend_user E cfg agency_id req)
  handle (reactivate_user req) = outcome (Users.reactivate_user E cfg agency_id req)
  handle (delete_user req) = outcome (Users.delete_user E cfg agency_id req)
  handle (create_role req) = outcome (Access.create_role E cfg agency_id req)
  handle (update_role req) = outcome (Access.update_role E cfg agency_id req)
  handle (delete_role req) = outcome (Access.delete_role E cfg agency_id req)
  handle (list_roles req) = outcome (Access.list_roles E cfg agency_id req)
  handle (register_scope req) = outcome (Access.register_scope E cfg agency_id req)
  handle (deprecate_scope req) = outcome (Access.deprecate_scope E cfg agency_id req)
  handle (list_scopes req) = outcome (Access.list_scopes E cfg agency_id req)
  handle (grant_membership req) = outcome (Access.grant_membership E cfg agency_id req)
  handle (revoke_membership req) = outcome (Access.revoke_membership E cfg agency_id req)
  handle (list_memberships req) = outcome (Access.list_memberships E cfg agency_id req)
  handle (create_oauth_client req) = outcome (OAuth.create_oauth_client E cfg agency_id req)
  handle (rotate_client_secret req) = outcome (OAuth.rotate_client_secret E cfg agency_id req)
  handle (list_oauth_clients req) = outcome (OAuth.list_oauth_clients E cfg agency_id req)
  handle (delete_oauth_client req) = outcome (OAuth.delete_oauth_client E cfg agency_id req)
  handle (authorize req) = outcome (OAuth.authorize E cfg agency_id req)
  handle (token req) = outcome (OAuth.token E cfg agency_id req)
  handle (introspect req) = outcome (OAuth.introspect E cfg agency_id req)
  handle (revoke req) = outcome (OAuth.revoke E cfg agency_id req)
  handle (list_audit_events req) = outcome (OAuth.list_audit_events E cfg agency_id req)
