-- ===== src/Manager/Operations.antt =====
-- manager.go: the interface OrgManager as data, one constructor for each method, and the run of a
-- sequence of calls.
use code_vald_org.Prelude.{String, List, [], ◌∷◌}
use code_vald_org.Effects.{Env, Action, pure, ◌>>◌}
use code_vald_org.Models.{ManagerConfig}
use code_vald_org.Models.Requests.{
  InitOrganizationRequest, UpdateOrganizationRequest, InviteUserRequest, ListRequest,
  ListUsersRequest, ListMembershipsRequest, CreateRoleRequest, UpdateRoleRequest,
  RegisterScopeRequest, GrantMembershipRequest, CreateOAuthClientRequest, AuthorizeRequest,
  TokenRequest, AuditEventFilter,
}
use code_vald_org.Manager.Organizations
use code_vald_org.Manager.Users
use code_vald_org.Manager.Invitations
use code_vald_org.Manager.Roles
use code_vald_org.Manager.Scopes
use code_vald_org.Manager.Memberships
use code_vald_org.Manager.Clients
use code_vald_org.Manager.Tokens

pub data Operation : Type 0 where
  init_organization : InitOrganizationRequest → Operation
  get_organization disable_organization delete_organization : Operation
  update_organization : UpdateOrganizationRequest → Operation
  invite_user : InviteUserRequest → Operation
  accept_invitation get_user suspend_user reactivate_user delete_user : String → Operation
  list_users : ListUsersRequest → Operation
  create_role : CreateRoleRequest → Operation
  update_role : String → UpdateRoleRequest → Operation
  delete_role : String → Operation
  list_roles list_scopes list_oauth_clients : ListRequest → Operation
  register_scope : RegisterScopeRequest → Operation
  deprecate_scope revoke_membership rotate_client_secret delete_oauth_client : String → Operation
  grant_membership : GrantMembershipRequest → Operation
  list_memberships : ListMembershipsRequest → Operation
  create_oauth_client : CreateOAuthClientRequest → Operation
  authorize : AuthorizeRequest → Operation
  token : TokenRequest → Operation
  introspect : String → Operation
  revoke : (token reason : String) → Operation
  list_audit_events : AuditEventFilter → Operation

module _ (E : Env) (cfg : ManagerConfig) where
  -- The call, without the value that it returns.
  unfoldable pub perform : Operation → Action E.World (Unit {0})
  perform (init_organization req) = Organizations.init_organization E cfg req >> pure tt
  perform get_organization = Organizations.get_organization E cfg >> pure tt
  perform disable_organization = Organizations.disable_organization E cfg >> pure tt
  perform delete_organization = Organizations.delete_organization E cfg
  perform (update_organization req) = Organizations.update_organization E cfg req >> pure tt
  perform (invite_user req) = Invitations.invite_user E cfg req >> pure tt
  perform (accept_invitation text) = Invitations.accept_invitation E cfg text >> pure tt
  perform (get_user id) = Users.get_user E cfg id >> pure tt
  perform (suspend_user id) = Users.suspend_user E cfg id >> pure tt
  perform (reactivate_user id) = Users.reactivate_user E cfg id >> pure tt
  perform (delete_user id) = Users.delete_user E cfg id
  perform (list_users req) = Users.list_users E cfg req >> pure tt
  perform (create_role req) = Roles.create_role E cfg req >> pure tt
  perform (update_role id req) = Roles.update_role E cfg id req >> pure tt
  perform (delete_role id) = Roles.delete_role E cfg id
  perform (list_roles req) = Roles.list_roles E cfg req >> pure tt
  perform (list_scopes req) = Scopes.list_scopes E cfg req >> pure tt
  perform (list_oauth_clients req) = Clients.list_oauth_clients E cfg req >> pure tt
  perform (register_scope req) = Scopes.register_scope E cfg req >> pure tt
  perform (deprecate_scope id) = Scopes.deprecate_scope E cfg id >> pure tt
  perform (revoke_membership id) = Memberships.revoke_membership E cfg id >> pure tt
  perform (rotate_client_secret id) = Clients.rotate_client_secret E cfg id >> pure tt
  perform (delete_oauth_client id) = Clients.delete_oauth_client E cfg id
  perform (grant_membership req) = Memberships.grant_membership E cfg req >> pure tt
  perform (list_memberships req) = Memberships.list_memberships E cfg req >> pure tt
  perform (create_oauth_client req) = Clients.create_oauth_client E cfg req >> pure tt
  perform (authorize req) = Tokens.authorize E cfg req >> pure tt
  perform (token req) = Tokens.token E cfg req >> pure tt
  perform (introspect text) = Tokens.introspect E cfg text >> pure tt
  perform (revoke text reason) = Tokens.revoke E cfg text reason
  perform (list_audit_events filter) = Tokens.list_audit_events E cfg filter >> pure tt

  -- Calls one after another, whatever each returns.
  unfoldable pub serve : List Operation → E.World → E.World
  serve [] w = w
  serve (o ∷ os) w = serve os (perform o w).1
