-- ===== src/Server/Messages.antt =====
-- The reply messages of proto/codevaldorg/v1/org.proto. A timestamp is an instant, and absent where
-- the message has nil. A response that only wraps a list is the list.
use code_vald_org.Prelude.{ℕ, String, Bool, Option, List}
use code_vald_org.Prelude.Int.{ℤ}

pub data UserStatus : Type 0 where
  unspecified invited active suspended deleted : UserStatus

pub data InvitationStatus : Type 0 where
  unspecified pending accepted expired revoked : InvitationStatus

pub record OrganizationMsg : Type 0 where
  pub agency_id : String
  pub name : String
  pub enabled : Bool
  pub description : String
  pub contact_email : String
  pub logo_url : String
  pub created_at : Option ℕ
  pub updated_at : Option ℕ
  pub disabled_at : Option ℕ
  pub deleted_at : Option ℕ

pub record UserMsg : Type 0 where
  pub agency_id : String
  pub user_id : String
  pub email : String
  pub status : UserStatus
  pub display_name : String
  pub created_at : Option ℕ
  pub updated_at : Option ℕ
  pub deleted_at : Option ℕ

pub record RoleMsg : Type 0 where
  pub agency_id : String
  pub role_id : String
  pub name : String
  pub builtin : Bool
  pub display_name : String
  pub description : String
  pub created_at : Option ℕ
  pub updated_at : Option ℕ
  pub deleted_at : Option ℕ

pub record ScopeMsg : Type 0 where
  pub agency_id : String
  pub scope_id : String
  pub name : String
  pub registered_by : String
  pub description : String
  pub created_at : Option ℕ
  pub updated_at : Option ℕ
  pub deprecated_at : Option ℕ

pub record MembershipMsg : Type 0 where
  pub agency_id : String
  pub membership_id : String
  pub granted_by : String
  pub granted_at : Option ℕ
  pub revoked_at : Option ℕ

pub record InvitationMsg : Type 0 where
  pub agency_id : String
  pub invitation_id : String
  pub token : String
  pub status : InvitationStatus
  pub expires_at : Option ℕ
  pub created_at : Option ℕ
  pub accepted_at : Option ℕ
  pub revoked_at : Option ℕ

pub record OAuthClientMsg : Type 0 where
  pub agency_id : String
  pub client_id : String
  pub client_type : String
  pub name : String
  pub allowed_grant_types : List String
  pub description : String
  pub created_at : Option ℕ
  pub updated_at : Option ℕ
  pub disabled_at : Option ℕ
  pub deleted_at : Option ℕ

pub record AuditEventMsg : Type 0 where
  pub agency_id : String
  pub event_id : String
  pub event_type : String
  pub actor_id : String
  pub subject_id : String
  pub outcome : String
  pub event_at : Option ℕ
  pub payload : String

pub record DeleteOrganizationResponse : Type 0 where
  pub agency_id : String

pub record DeleteUserResponse : Type 0 where
  pub agency_id : String
  pub user_id : String

pub record DeleteRoleResponse : Type 0 where
  pub agency_id : String
  pub role_id : String

pub record DeleteOAuthClientResponse : Type 0 where
  pub agency_id : String
  pub client_id : String

pub record RotateClientSecretResponse : Type 0 where
  pub plaintext_secret : String

pub record CreateOAuthClientResponse : Type 0 where
  pub client : OAuthClientMsg
  pub plaintext_secret : String

pub record AuthorizeResponse : Type 0 where
  pub code : String
  pub state : String

pub record TokenResponse : Type 0 where
  pub access_token : String
  pub token_type : String
  pub expires_in : ℤ
  pub refresh_token : String
  pub scopes : List String

pub record IntrospectResponse : Type 0 where
  pub active : Bool
  pub scopes : List String
  pub sub : String
  pub client_id : String
  pub exp : Option ℕ
  pub iat : Option ℕ
  pub token_type : String

pub record RevokeResponse : Type 0 where
  pub agency_id : String
