-- ===== src/Server/Requests.antt =====
-- The request messages of proto/codevaldorg/v1/org.proto, as the handlers read them. The generated
-- getters return a field of a message that is not nil. `grant_type` is the enum's name, as its
-- `String` gives it.
use code_vald_org.Prelude.{String, List}
use code_vald_org.Prelude.Int.{ℤ}

pub record InitOrganizationRequest : Type 0 where
  pub agency_id : String
  pub name : String
  pub description : String
  pub contact_email : String
  pub logo_url : String

pub record GetOrganizationRequest : Type 0 where
  pub agency_id : String

pub record UpdateOrganizationRequest : Type 0 where
  pub agency_id : String
  pub name : String
  pub description : String
  pub contact_email : String
  pub logo_url : String

pub record DisableOrganizationRequest : Type 0 where
  pub agency_id : String

pub record DeleteOrganizationRequest : Type 0 where
  pub agency_id : String

pub record InviteUserRequest : Type 0 where
  pub agency_id : String
  pub email : String
  pub display_name : String
  pub invited_by_user_id : String
  pub role_ids : List String
  pub expires_in_seconds : ℤ

pub record AcceptInvitationRequest : Type 0 where
  pub agency_id : String
  pub token : String

pub record GetUserRequest : Type 0 where
  pub agency_id : String
  pub user_id : String

pub record ListUsersRequest : Type 0 where
  pub agency_id : String
  pub status_filter : String
  pub page_token : String
  pub page_size : ℤ

pub record SuspendUserRequest : Type 0 where
  pub agency_id : String
  pub user_id : String

pub record ReactivateUserRequest : Type 0 where
  pub agency_id : String
  pub user_id : String

pub record DeleteUserRequest : Type 0 where
  pub agency_id : String
  pub user_id : String

pub record CreateRoleRequest : Type 0 where
  pub agency_id : String
  pub name : String
  pub display_name : String
  pub description : String

pub record UpdateRoleRequest : Type 0 where
  pub agency_id : String
  pub role_id : String
  pub display_name : String
  pub description : String

pub record DeleteRoleRequest : Type 0 where
  pub agency_id : String
  pub role_id : String

pub record ListRolesRequest : Type 0 where
  pub agency_id : String
  pub page_token : String
  pub page_size : ℤ

pub record RegisterScopeRequest : Type 0 where
  pub agency_id : String
  pub name : String
  pub registered_by : String
  pub description : String

pub record DeprecateScopeRequest : Type 0 where
  pub agency_id : String
  pub scope_id : String

pub record ListScopesRequest : Type 0 where
  pub agency_id : String
  pub page_token : String
  pub page_size : ℤ

pub record GrantMembershipRequest : Type 0 where
  pub agency_id : String
  pub user_id : String
  pub role_id : String
  pub granted_by : String

pub record RevokeMembershipRequest : Type 0 where
  pub agency_id : String
  pub membership_id : String

pub record ListMembershipsRequest : Type 0 where
  pub agency_id : String
  pub user_id : String
  pub page_token : String
  pub page_size : ℤ

pub record CreateOAuthClientRequest : Type 0 where
  pub agency_id : String
  pub name : String
  pub client_type : String
  pub description : String
  pub allowed_grant_types : List String
  pub redirect_uris : List String
  pub allowed_scope_ids : List String

pub record RotateClientSecretRequest : Type 0 where
  pub agency_id : String
  pub client_id : String

pub record ListOAuthClientsRequest : Type 0 where
  pub agency_id : String
  pub page_token : String
  pub page_size : ℤ

pub record DeleteOAuthClientRequest : Type 0 where
  pub agency_id : String
  pub client_id : String

pub record AuthorizeRequest : Type 0 where
  pub agency_id : String
  pub client_id : String
  pub redirect_uri : String
  pub response_type : String
  pub state : String
  pub code_challenge : String
  pub code_challenge_method : String
  pub scopes : List String

pub record TokenRequest : Type 0 where
  pub agency_id : String
  pub grant_type : String
  pub client_id : String
  pub client_secret : String
  pub code : String
  pub redirect_uri : String
  pub code_verifier : String
  pub refresh_token : String
  pub scopes : List String

pub record IntrospectRequest : Type 0 where
  pub agency_id : String
  pub token : String

pub record RevokeRequest : Type 0 where
  pub agency_id : String
  pub token : String
  pub reason : String

pub record ListAuditEventsRequest : Type 0 where
  pub agency_id : String
  pub event_type_filter : String
  pub actor_id_filter : String
  pub subject_id_filter : String
  pub page_token : String
  pub page_size : ℤ
