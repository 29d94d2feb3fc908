-- ===== src/Schema/OAuth.antt =====
-- schema.go: the types of the collection org_oauth_clients.
use code_vald_org.Prelude.{true, false, [], ◌∷◌}
use code_vald_org.Schema.Types.{
  PropertyType, TypeDefinition, required, optional, required_one_of, array_of, relation,
}

abbrev pub oauth_client_type : TypeDefinition
oauth_client_type = record {
  name = "OAuthClient";
  display_name = "OAuth Client";
  path_segment = "oauth-clients";
  entity_id_param = "clientId";
  storage_collection = "org_oauth_clients";
  immutable = false;
  properties =
      required "agency_id" PropertyType.string
      ∷ required "client_id" PropertyType.string
      ∷ required_one_of "client_type" ("public" ∷ "confidential" ∷ [])
      ∷ required "name" PropertyType.string
      ∷ array_of "allowed_grant_types" PropertyType.string
      ∷ optional "description" PropertyType.string
      ∷ optional "created_at" PropertyType.string
      ∷ optional "updated_at" PropertyType.string
      ∷ optional "disabled_at" PropertyType.string
      ∷ optional "deleted_at" PropertyType.string
      ∷ [];
  relationships =
      relation "has_redirect_uri" "Redirect URIs" "RedirectURI" true
      ∷ relation "has_client_secret" "Client Secrets" "ClientSecret" true
      ∷ relation "allows_scope" "Allowed Scopes" "Scope" true
      ∷ [];
}

abbrev pub client_secret_type : TypeDefinition
client_secret_type = record {
  name = "ClientSecret";
  display_name = "Client Secret";
  path_segment = "client-secrets";
  entity_id_param = "clientSecretId";
  storage_collection = "org_oauth_clients";
  immutable = false;
  properties =
      required "agency_id" PropertyType.string
      ∷ required "secret_hash" PropertyType.string
      ∷ optional "created_at" PropertyType.string
      ∷ optional "last_used_at" PropertyType.string
      ∷ optional "revoked_at" PropertyType.string
      ∷ optional "grace_expires_at" PropertyType.string
      ∷ [];
  relationships = [];
}

abbrev pub redirect_uri_type : TypeDefinition
redirect_uri_type = record {
  name = "RedirectURI";
  display_name = "Redirect URI";
  path_segment = "redirect-uris";
  entity_id_param = "redirectUriId";
  storage_collection = "org_oauth_clients";
  immutable = false;
  properties =
      required "agency_id" PropertyType.string
      ∷ required "uri" PropertyType.string
      ∷ optional "created_at" PropertyType.string
      ∷ optional "last_used_at" PropertyType.string
      ∷ optional "revoked_at" PropertyType.string
      ∷ [];
  relationships = [];
}
