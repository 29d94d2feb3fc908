-- ===== src/Schema.antt =====
-- schema.go: the schema that is seeded at startup.
pub mod Types
pub mod Identity
pub mod OAuth
pub mod Artifacts
pub mod Conformance
pub mod Recording
pub mod Reads
pub mod Writes
pub mod Plain
pub mod TokenWrites
pub mod Histories
use code_vald_org.Prelude.{[], ◌∷◌}
use Types.{Schema}
use Identity.{
  organization_type, user_type, password_credential_type, role_type, scope_type, membership_type,
  invitation_type,
}
use OAuth.{oauth_client_type, client_secret_type, redirect_uri_type}
use Artifacts.{
  authorization_code_type, access_token_type, refresh_token_type, token_revocation_type,
  audit_event_type,
}

abbrev pub default_org_schema : Schema
default_org_schema = record {
  id = "org-schema-v1";
  version = 1;
  tag = "v1";
  types =
      organization_type ∷ user_type ∷ password_credential_type ∷ role_type ∷ scope_type
      ∷ membership_type ∷ invitation_type ∷ oauth_client_type ∷ client_secret_type
      ∷ redirect_uri_type ∷ authorization_code_type ∷ access_token_type ∷ refresh_token_type
      ∷ token_revocation_type ∷ audit_event_type ∷ [];
}
