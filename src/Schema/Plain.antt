-- ===== src/Schema/Plain.antt =====
-- The operations whose writes the schema declares by their form: roles, scopes, memberships, users
-- and organizations.
use code_vald_org.Prelude.{String, ◌≡◌, refl, true, List, [], ◌∷◌, inl, inr}
use code_vald_org.Manager.Calls.{set_unless_empty}
use code_vald_org.Graph.{str, Properties, Entity}
use code_vald_org.Effects.{Env}
use code_vald_org.Models.{ManagerConfig}
use code_vald_org.Models.Requests.{
  ListUsersRequest, UpdateOrganizationRequest, InitOrganizationRequest, CreateRoleRequest,
  UpdateRoleRequest, ListRequest, RegisterScopeRequest, GrantMembershipRequest,
  ListMembershipsRequest,
}
use code_vald_org.Manager.Users.{get_user, list_users, suspend_user, reactivate_user, delete_user}
use code_vald_org.Manager.Organizations.{
  organization_patch, seed_role, seed_roles, seed_builtin_roles, init_organization,
  get_organization, update_organization, disable_organization, delete_organization,
}
use code_vald_org.Manager.Roles.{create_role, update_role, delete_role, list_roles}
use code_vald_org.Manager.Scopes.{register_over, register_scope, deprecate_scope, list_scopes}
use code_vald_org.Manager.Memberships.{
  grant_membership, revoke_membership, memberships_of, list_memberships,
}
use code_vald_org.Store.Preserves.{Preserves-then}
use code_vald_org.Schema.{default_org_schema}
use code_vald_org.Schema.Identity.{organization_type, role_type}
use code_vald_org.Schema.Conformance.{patches}
use code_vald_org.Schema.Recording.{recording}
use code_vald_org.Schema.Writes.{
  IsDeclared, Declares, declares_rules, allowed-set_unless_empty, patches_of,
}

module _ (E : Env) (cfg : ManagerConfig) where
  pub get_user-Declares : (id : String) → Declares E (get_user (recording E) cfg id)
  unfolding get_user
  get_user-Declares id = search declares_rules depth 12

  pub list_users-Declares : (req : ListUsersRequest) → Declares E (list_users (recording E) cfg req)
  unfolding list_users
  list_users-Declares req = search declares_rules depth 12

  pub suspend_user-Declares : (id : String) → Declares E (suspend_user (recording E) cfg id)
  unfolding suspend_user
  suspend_user-Declares id = search (declares_rules, get_user-Declares) depth 12

  pub reactivate_user-Declares : (id : String) → Declares E (reactivate_user (recording E) cfg id)
  unfolding reactivate_user
  reactivate_user-Declares id = search (declares_rules, get_user-Declares) depth 12

  pub delete_user-Declares : (id : String) → Declares E (delete_user (recording E) cfg id)
  unfolding delete_user
  delete_user-Declares id = search (declares_rules, get_user-Declares) depth 12

  pub get_organization-Declares : Declares E (get_organization (recording E) cfg)
  unfolding get_organization
  get_organization-Declares = search declares_rules depth 12

  organization_patch-patches :
      (req : UpdateOrganizationRequest) (now : String)
      → patches default_org_schema (organization_patch req now) ≡ true
  unfolding organization_patch
  organization_patch-patches req now =
      let stamp : Properties = ("updated_at", str now) ∷ [] in
      let named : Properties = set_unless_empty "name" req.name stamp in
      let described : Properties = set_unless_empty "description" req.description named in
      let reachable : Properties = set_unless_empty "contact_email" req.contact_email described in
      patches_of organization_type (set_unless_empty "logo_url" req.logo_url reachable) (inl refl)
        refl
        (allowed-set_unless_empty organization_type "logo_url" req.logo_url reachable refl (
          allowed-set_unless_empty organization_type "contact_email" req.contact_email described
            refl
            (allowed-set_unless_empty organization_type "description" req.description named refl
              (allowed-set_unless_empty organization_type "name" req.name stamp refl refl))))

  pub update_organization-Declares :
      (req : UpdateOrganizationRequest) → Declares E (update_organization (recording E) cfg req)
  unfolding update_organization
  update_organization-Declares req =
      search (declares_rules, get_organization-Declares, organization_patch-patches) depth 12

  pub disable_organization-Declares : Declares E (disable_organization (recording E) cfg)
  unfolding disable_organization
  disable_organization-Declares = search (declares_rules, get_organization-Declares) depth 12

  pub delete_organization-Declares : Declares E (delete_organization (recording E) cfg)
  unfolding delete_organization
  delete_organization-Declares = search (declares_rules, get_organization-Declares) depth 12

  seed_role-Declares :
      (now : String) (b : String × String) → Declares E (seed_role (recording E) cfg now b)
  unfolding seed_role
  seed_role-Declares now (name, display_name) = search declares_rules depth 12

  seed_roles-Declares :
      (now : String) (bs : List (String × String))
      → Declares E (seed_roles (recording E) cfg now bs)
  unfolding seed_roles
  seed_roles-Declares now [] = search declares_rules
  seed_roles-Declares now (b ∷ bs) =
      Preserves-then IsDeclared _ _ (seed_role-Declares now b) (seed_roles-Declares now bs)

  pub init_organization-Declares :
      (req : InitOrganizationRequest) → Declares E (init_organization (recording E) cfg req)
  unfolding init_organization seed_builtin_roles
  init_organization-Declares req = search (declares_rules, seed_roles-Declares) depth 14

  pub create_role-Declares :
      (req : CreateRoleRequest) → Declares E (create_role (recording E) cfg req)
  unfolding create_role
  create_role-Declares req = search declares_rules depth 14

  pub update_role-Declares :
      (id : String) (req : UpdateRoleRequest) → Declares E (update_role (recording E) cfg id req)
  unfolding update_role
  update_role-Declares id req = search (declares_rules, role_patch) depth 14
    where
      role_patch :
          (description display_name now : String)
          → patches default_org_schema (
              set_unless_empty "description" description
                (set_unless_empty "display_name" display_name (("updated_at", str now) ∷ [])))
            ≡ true
      role_patch description display_name now =
          let stamp : Properties = ("updated_at", str now) ∷ [] in
          let shown : Properties = set_unless_empty "display_name" display_name stamp in
          patches_of role_type (set_unless_empty "description" description shown)
            (inr (inr (inr (inl refl)))) refl
            (allowed-set_unless_empty role_type "description" description shown refl
              (allowed-set_unless_empty role_type "display_name" display_name stamp refl refl))

  pub delete_role-Declares : (id : String) → Declares E (delete_role (recording E) cfg id)
  unfolding delete_role
  delete_role-Declares id = search declares_rules depth 12

  pub list_roles-Declares : (req : ListRequest) → Declares E (list_roles (recording E) cfg req)
  unfolding list_roles
  list_roles-Declares req = search declares_rules depth 12

  register_over-Declares :
      (req : RegisterScopeRequest) (now : String) (es : List Entity)
      → Declares E (register_over (recording E) cfg req now es)
  unfolding register_over
  register_over-Declares req now [] = search declares_rules depth 12
  register_over-Declares req now (e ∷ es) = search declares_rules depth 12

  pub register_scope-Declares :
      (req : RegisterScopeRequest) → Declares E (register_scope (recording E) cfg req)
  unfolding register_scope
  register_scope-Declares req = search (declares_rules, register_over-Declares) depth 12

  pub deprecate_scope-Declares : (id : String) → Declares E (deprecate_scope (recording E) cfg id)
  unfolding deprecate_scope
  deprecate_scope-Declares id = search declares_rules depth 12

  pub list_scopes-Declares : (req : ListRequest) → Declares E (list_scopes (recording E) cfg req)
  unfolding list_scopes
  list_scopes-Declares req = search declares_rules depth 12

  pub grant_membership-Declares :
      (req : GrantMembershipRequest) → Declares E (grant_membership (recording E) cfg req)
  unfolding grant_membership
  grant_membership-Declares req = search declares_rules depth 14

  pub revoke_membership-Declares :
      (id : String) → Declares E (revoke_membership (recording E) cfg id)
  unfolding revoke_membership
  revoke_membership-Declares id = search declares_rules depth 12

  memberships_of-Declares :
      (id : String) (es : List Entity) → Declares E (memberships_of (recording E) cfg id es)
  unfolding memberships_of
  memberships_of-Declares id es = search declares_rules depth 12

  pub list_memberships-Declares :
      (req : ListMembershipsRequest) → Declares E (list_memberships (recording E) cfg req)
  unfolding list_memberships
  list_memberships-Declares req = search (declares_rules, memberships_of-Declares) depth 12
