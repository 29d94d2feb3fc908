-- ===== src/Models/Requests.antt =====
-- models.go: the request types.
use code_vald_org.Prelude.{String, List}
use code_vald_org.Prelude.Int.{ℤ}

pub record InitOrganizationRequest : Type 0 where
  pub name : String
  pub description : String
  pub contact_email : String
  pub logo_url : String

pub record UpdateOrganizationRequest : Type 0 where
  pub name : String
  pub description : String
  pub contact_email : String
  pub logo_url : String

pub record InviteUserRequest : Type 0 where
  pub email : String
  pub display_name : String
  pub invited_by_user_id : String
  pub role_ids : List String
  pub expires_in : ℤ

pub record ListRequest : Type 0 where
  pub page_token : String
  pub page_size : ℤ

pub record ListUsersRequest : Type 0 where
  pub status_filter : String
  pub page_token : String
  pub page_size : ℤ

pub record ListMembershipsRequest : Type 0 where
  pub user_id : String
  pub page_token : String
  pub page_size : ℤ

pub record CreateRoleRequest : Type 0 where
  pub name : String
  pub display_name : String
  pub description : String

pub record UpdateRoleRequest : Type 0 where
  pub display_name : String
  pub description : String

pub record RegisterScopeRequest : Type 0 where
  pub name : String
  pub registered_by : String
  pub description : String

pub record GrantMembershipRequest : Type 0 where
  pub user_id : String
  pub role_id : String
  pub granted_by : String

pub record CreateOAuthClientRequest : Type 0 where
  pub name : String
  pub client_type : String
  pub description : String
  pub allowed_grant_types : List String
  pub redirect_uris : List String
  pub allowed_scope_ids : List String

pub record AuthorizeRequest : Type 0 where
  pub client_id : String
  pub redirect_uri : String
  pub response_type : String
  pub state : String
  pub code_challenge : String
  pub code_challenge_method : String
  pub scopes : List String

pub record TokenRequest : Type 0 where
  pub grant_type : String
  pub client_id : String
  pub client_secret : String
  pub code : String
  pub redirect_uri : String
  pub code_verifier : String
  pub refresh_token : String
  pub scopes : List String

pub record AuditEventFilter : Type 0 where
  pub event_type_filter : String
  pub actor_id_filter : String
  pub subject_id_filter : String
  pub page_token : String
  pub page_size : ℤ
