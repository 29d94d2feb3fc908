-- ===== src/Schema/Artifacts.antt =====
-- schema.go: the types of the collections org_oauth_artifacts and org_audit_events.
use code_vald_org.Prelude.{true, false, [], ◌∷◌}
use code_vald_org.Schema.Types.{PropertyType, TypeDefinition, required, optional, one_of, relation}

abbrev pub authorization_code_type : TypeDefinition
authorization_code_type = record {
  name = "AuthorizationCode";
  display_name = "Authorization Code";
  path_segment = "authorization-codes";
  entity_id_param = "authorizationCodeId";
  storage_collection = "org_oauth_artifacts";
  immutable = true;
  properties =
      required "agency_id" PropertyType.string
      ∷ required "code_hash" PropertyType.string
      ∷ required "code_challenge" PropertyType.string
      ∷ required "redirect_uri" PropertyType.string
      ∷ required "expires_at" PropertyType.string
      ∷ optional "state" PropertyType.string
      ∷ optional "created_at" PropertyType.string
      ∷ optional "consumed_at" PropertyType.string
      ∷ [];
  relationships =
      relation "issued_to" "Client" "OAuthClient" false
      ∷ relation "issued_for" "User" "User" false
      ∷ relation "has_requested_scope" "Requested Scopes" "Scope" true
      ∷ [];
}

abbrev pub access_token_type : TypeDefinition
access_token_type = record {
  name = "AccessToken";
  display_name = "Access Token";
  path_segment = "access-tokens";
  entity_id_param = "accessTokenId";
  storage_collection = "org_oauth_artifacts";
  immutable = true;
  properties =
      required "agency_id" PropertyType.string
      ∷ required "token_hash" PropertyType.string
      ∷ required "expires_at" PropertyType.string
      ∷ optional "created_at" PropertyType.string
      ∷ [];
  relationships =
      relation "issued_to" "Client" "OAuthClient" false
      ∷ relation "issued_for" "User" "User" true
      ∷ relation "has_scope" "Scopes" "Scope" true
      ∷ [];
}

abbrev pub refresh_token_type : TypeDefinition
refresh_token_type = record {
  name = "RefreshToken";
  display_name = "Refresh Token";
  path_segment = "refresh-tokens";
  entity_id_param = "refreshTokenId";
  storage_collection = "org_oauth_artifacts";
  immutable = true;
  properties =
      required "agency_id" PropertyType.string
      ∷ required "token_hash" PropertyType.string
      ∷ required "expires_at" PropertyType.string
      ∷ optional "created_at" PropertyType.string
      ∷ optional "consumed_at" PropertyType.string
      ∷ [];
  relationships =
      relation "issued_to" "Client" "OAuthClient" false
      ∷ relation "issued_for" "User" "User" true
      ∷ relation "has_scope" "Scopes" "Scope" true
      ∷ relation "parent" "Parent Token" "RefreshToken" false
      ∷ [];
}

abbrev pub token_revocation_type : TypeDefinition
token_revocation_type = record {
  name = "TokenRevocation";
  display_name = "Token Revocation";
  path_segment = "token-revocations";
  entity_id_param = "tokenRevocationId";
  storage_collection = "org_oauth_artifacts";
  immutable = true;
  properties =
      required "agency_id" PropertyType.string
      ∷ required "token_hash" PropertyType.string
      ∷ required "revoked_at" PropertyType.string
      ∷ required "expires_at" PropertyType.string
      ∷ one_of "reason"
          ("user_logout" ∷ "admin_revoke" ∷ "refresh_reuse" ∷ "disable_org" ∷ "suspend_user" ∷ [])
      ∷ [];
  relationships = [];
}

abbrev pub audit_event_type : TypeDefinition
audit_event_type = record {
  name = "AuditEvent";
  display_name = "Audit Event";
  path_segment = "audit-events";
  entity_id_param = "auditEventId";
  storage_collection = "org_audit_events";
  immutable = true;
  properties =
      required "agency_id" PropertyType.string
      ∷ required "event_type" PropertyType.string
      ∷ optional "actor_id" PropertyType.string
      ∷ optional "subject_id" PropertyType.string
      ∷ optional "outcome" PropertyType.string
      ∷ required "event_at" PropertyType.string
      ∷ optional "payload" PropertyType.string
      ∷ [];
  relationships = [];
}
