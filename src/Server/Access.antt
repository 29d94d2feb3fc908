-- ===== src/Server/Access.antt =====
-- internal/server/server.go: the handlers of roles, scopes and memberships.
use code_vald_org.Prelude.{String, map, List}
use code_vald_org.Effects.{Env}
use code_vald_org.Models.{ManagerConfig}
use code_vald_org.Manager.Roles
use code_vald_org.Manager.Scopes
use code_vald_org.Manager.Memberships
use code_vald_org.Server.Reply.{Call, with_agency, answer}
use code_vald_org.Server.Requests.{
  CreateRoleRequest, UpdateRoleRequest, DeleteRoleRequest, ListRolesRequest, RegisterScopeRequest,
  DeprecateScopeRequest, ListScopesRequest, GrantMembershipRequest, RevokeMembershipRequest,
  ListMembershipsRequest,
}
use code_vald_org.Server.Messages.{DeleteRoleResponse, MembershipMsg, RoleMsg, ScopeMsg}
use code_vald_org.Server.Convert.{to_proto_membership, to_proto_role, to_proto_scope}

-- The server's own agency, and the manager that it delegates to.
module _ (E : Env) (cfg : ManagerConfig) (agency_id : String) where
  unfoldable pub create_role : CreateRoleRequest → Call E.World (RoleMsg)
  create_role req = with_agency agency_id req.agency_id (
      answer E
        (Roles.create_role E cfg (record {
          name = req.name;
          display_name = req.display_name;
          description = req.description;
        }))
        to_proto_role)

  unfoldable pub update_role : UpdateRoleRequest → Call E.World (RoleMsg)
  update_role req = with_agency agency_id req.agency_id (
      answer E
        (Roles.update_role E cfg req.role_id
          (record { display_name = req.display_name; description = req.description }))
        to_proto_role)

  unfoldable pub delete_role : DeleteRoleRequest → Call E.World (DeleteRoleResponse)
  delete_role req = with_agency agency_id req.agency_id (
      answer E (Roles.delete_role E cfg req.role_id)
        (λ _. record { agency_id = agency_id; role_id = req.role_id }))

  unfoldable pub list_roles : ListRolesRequest → Call E.World (List RoleMsg)
  list_roles req = with_agency agency_id req.agency_id (
      answer E
        (Roles.list_roles E cfg (record { page_token = req.page_token; page_size = req.page_size }))
        (map to_proto_role))

  unfoldable pub register_scope : RegisterScopeRequest → Call E.World (ScopeMsg)
  register_scope req = with_agency agency_id req.agency_id (
      answer E
        (Scopes.register_scope E cfg (record {
          name = req.name;
          registered_by = req.registered_by;
          description = req.description;
        }))
        to_proto_scope)

  unfoldable pub deprecate_scope : DeprecateScopeRequest → Call E.World (ScopeMsg)
  deprecate_scope req =
      with_agency agency_id req.agency_id
        (answer E (Scopes.deprecate_scope E cfg req.scope_id) to_proto_scope)

  unfoldable pub list_scopes : ListScopesRequest → Call E.World (List ScopeMsg)
  list_scopes req = with_agency agency_id req.agency_id (
      answer E
        (Scopes.list_scopes E cfg
          (record { page_token = req.page_token; page_size = req.page_size }))
        (map to_proto_scope))

  unfoldable pub grant_membership : GrantMembershipRequest → Call E.World (MembershipMsg)
  grant_membership req = with_agency agency_id req.agency_id (
      answer E
        (Memberships.grant_membership E cfg
          (record { user_id = req.user_id; role_id = req.role_id; granted_by = req.granted_by }))
        to_proto_membership)

  unfoldable pub revoke_membership : RevokeMembershipRequest → Call E.World (MembershipMsg)
  revoke_membership req =
      with_agency agency_id req.agency_id
        (answer E (Memberships.revoke_membership E cfg req.membership_id) to_proto_membership)

  unfoldable pub list_memberships : ListMembershipsRequest → Call E.World (List MembershipMsg)
  list_memberships req = with_agency agency_id req.agency_id (
      answer E
        (Memberships.list_memberships E cfg (record {
          user_id = req.user_id;
          page_token = req.page_token;
          page_size = req.page_size;
        }))
        (map to_proto_membership))
