-- ===== src/Registrar.antt =====
-- internal/registrar/registrar.go: what the service announces to Cross. The registrar itself is the
-- shared library's, and is the parameter `shared_new`.
pub mod Methods
pub mod Routes
pub mod ReadOnly
use code_vald_org.Prelude.{String, ◌<>◌, Bool, true, false, List, [], ◌∷◌}
use code_vald_org.Prelude.Int.{ℤ}

pub record PathBinding : Type 0 where
  pub url_param : String
  pub field : String

pub record RouteInfo : Type 0 where
  pub method : String
  pub pattern : String
  pub grpc_method : String
  pub path_bindings : List PathBinding
  pub is_write : Bool

abbrev path_binding : String → String → PathBinding
path_binding url_param field = record { url_param = url_param; field = field }

abbrev agency_binding : PathBinding
agency_binding = path_binding "agencyId" "agency_id"

abbrev user_binding : PathBinding
user_binding = path_binding "userId" "user_id"

abbrev role_binding : PathBinding
role_binding = path_binding "roleId" "role_id"

abbrev membership_binding : PathBinding
membership_binding = path_binding "membershipId" "membership_id"

abbrev client_binding : PathBinding
client_binding = path_binding "clientId" "client_id"

abbrev scope_binding : PathBinding
scope_binding = path_binding "scopeId" "scope_id"

-- One literal of the table: the pattern stands after the base, the method after the service.
abbrev route : (method suffix name : String) → List PathBinding → Bool → RouteInfo
route method suffix name bindings is_write = record {
  method = method;
  pattern = "/{agencyId}/org" <> suffix;
  grpc_method = "/codevaldorg.v1.OrgService/" <> name;
  path_bindings = agency_binding ∷ bindings;
  is_write = is_write;
}

unfoldable pub org_routes : String → List RouteInfo
org_routes agency_id =
    route "POST" "" "InitOrganization" [] true
    ∷ route "GET" "" "GetOrganization" [] false
    ∷ route "PATCH" "" "UpdateOrganization" [] true
    ∷ route "POST" "/disable" "DisableOrganization" [] true
    ∷ route "DELETE" "" "DeleteOrganization" [] true
    ∷ route "POST" "/users/invite" "InviteUser" [] true
    ∷ route "POST" "/invitations/accept" "AcceptInvitation" [] true
    ∷ route "GET" "/users" "ListUsers" [] false
    ∷ route "GET" "/users/{userId}" "GetUser" (user_binding ∷ []) false
    ∷ route "POST" "/users/{userId}/suspend" "SuspendUser" (user_binding ∷ []) true
    ∷ route "POST" "/users/{userId}/reactivate" "ReactivateUser" (user_binding ∷ []) true
    ∷ route "DELETE" "/users/{userId}" "DeleteUser" (user_binding ∷ []) true
    ∷ route "POST" "/roles" "CreateRole" [] true
    ∷ route "GET" "/roles" "ListRoles" [] false
    ∷ route "PATCH" "/roles/{roleId}" "UpdateRole" (role_binding ∷ []) true
    ∷ route "DELETE" "/roles/{roleId}" "DeleteRole" (role_binding ∷ []) true
    ∷ route "POST" "/scopes" "RegisterScope" [] true
    ∷ route "POST" "/scopes/{scopeId}/deprecate" "DeprecateScope" (scope_binding ∷ []) true
    ∷ route "GET" "/scopes" "ListScopes" [] false
    ∷ route "POST" "/memberships" "GrantMembership" [] true
    ∷ route "DELETE" "/memberships/{membershipId}" "RevokeMembership" (membership_binding ∷ []) true
    ∷ route "GET" "/memberships" "ListMemberships" [] false
    ∷ route "POST" "/oauth-clients" "CreateOAuthClient" [] true
    ∷ route "GET" "/oauth-clients" "ListOAuthClients" [] false
    ∷ route "POST" "/oauth-clients/{clientId}/rotate-secret" "RotateClientSecret"
        (client_binding ∷ []) true
    ∷ route "DELETE" "/oauth-clients/{clientId}" "DeleteOAuthClient" (client_binding ∷ []) true
    ∷ route "GET" "/audit" "ListAuditEvents" [] false
    ∷ []

-- The arguments with which the shared library's registrar is made.
pub record Registration : Type 0 where
  pub cross_addr : String
  pub advertise_addr : String
  pub agency_id : String
  pub service : String
  pub produces : List String
  pub consumes : List String
  pub routes : List RouteInfo
  pub ping_interval : ℤ
  pub ping_timeout : ℤ

-- `New`
abbrev pub new_registrar :
    {R : Type 0}
    → (Registration → R)
    → (cross_addr advertise_addr agency_id : String) → (ping_interval ping_timeout : ℤ) → R
new_registrar shared_new cross_addr advertise_addr agency_id ping_interval ping_timeout =
    shared_new (record {
      cross_addr = cross_addr;
      advertise_addr = advertise_addr;
      agency_id = agency_id;
      service = "codevaldorg";
      produces = ("cross.org." <> agency_id <> ".token.revoked") ∷ [];
      consumes = [];
      routes = org_routes agency_id;
      ping_interval = ping_interval;
      ping_timeout = ping_timeout;
    })
