-- ===== src/Models.antt =====
-- models.go: the domain structs and the configuration. A time is a number of nanoseconds since
-- `time.Time{}`, which is 0; a `*time.Time` is an option.
pub mod Requests
use code_vald_org.Prelude.{ℕ, String, Bool, Option, List}
use code_vald_org.Prelude.Int.{ℤ}

pub record Organization : Type 0 where
  pub id : String
  pub agency_id : String
  pub name : String
  pub enabled : Bool
  pub description : String
  pub contact_email : String
  pub logo_url : String
  pub created_at : ℕ
  pub updated_at : ℕ
  pub disabled_at : Option ℕ
  pub deleted_at : Option ℕ

pub record User : Type 0 where
  pub id : String
  pub agency_id : String
  pub email : String
  pub status : String
  pub display_name : String
  pub created_at : ℕ
  pub updated_at : ℕ
  pub deleted_at : Option ℕ

pub record Role : Type 0 where
  pub id : String
  pub agency_id : String
  pub name : String
  pub builtin : Bool
  pub display_name : String
  pub description : String
  pub created_at : ℕ
  pub updated_at : ℕ
  pub deleted_at : Option ℕ

pub record Scope : Type 0 where
  pub id : String
  pub agency_id : String
  pub name : String
  pub registered_by : String
  pub description : String
  pub created_at : ℕ
  pub updated_at : ℕ
  pub deprecated_at : Option ℕ

pub record Membership : Type 0 where
  pub id : String
  pub agency_id : String
  pub granted_at : ℕ
  pub granted_by : String
  pub revoked_at : Option ℕ
  pub revoked_by : String

pub record Invitation : Type 0 where
  pub id : String
  pub agency_id : String
  pub token_hash : String
  pub status : String
  pub expires_at : ℕ
  pub created_at : ℕ
  pub accepted_at : Option ℕ
  pub revoked_at : Option ℕ

pub record OAuthClient : Type 0 where
  pub id : String
  pub agency_id : String
  pub client_id : String
  pub client_type : String
  pub name : String
  pub allowed_grant_types : List String
  pub description : String
  pub created_at : ℕ
  pub updated_at : ℕ
  pub disabled_at : Option ℕ
  pub deleted_at : Option ℕ

pub record AuditEvent : Type 0 where
  pub id : String
  pub agency_id : String
  pub event_type : String
  pub actor_id : String
  pub subject_id : String
  pub outcome : String
  pub event_at : ℕ
  pub payload : String

pub record TokenResult : Type 0 where
  pub access_token : String
  pub token_type : String
  pub refresh_token : String
  pub expires_in : ℤ
  pub scopes : List String

pub record IntrospectResult : Type 0 where
  pub active : Bool
  pub scopes : List String
  pub sub : String
  pub client_id : String
  pub exp : ℕ
  pub iat : ℕ
  pub token_type : String

-- Durations are numbers of nanoseconds.
pub record ManagerConfig : Type 0 where
  pub agency_id : String
  pub issuer_url : String
  pub access_token_ttl : ℤ
  pub refresh_token_ttl : ℤ
  pub auth_code_ttl : ℤ
  pub client_secret_grace : ℤ
  pub argon2_time : ℕ
  pub argon2_memory_kib : ℕ
  pub argon2_threads : ℕ
