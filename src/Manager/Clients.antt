-- ===== src/Manager/Clients.antt =====
-- oauth_clients.go
use code_vald_org.Prelude.{String, ◌<>◌, ◌==◌, List, [], ◌∷◌, map, if◌then◌else◌}
use code_vald_org.Errors.{sentinel, oauth_client_not_found}
use code_vald_org.Graph.{str, strs}
use code_vald_org.Effects.{Env, Action, pure, lift, or_fail, first_or, ◌>>=◌, ◌>>◌}
use code_vald_org.Models.{OAuthClient, ManagerConfig}
use code_vald_org.Models.Requests.{CreateOAuthClientRequest, ListRequest}
use code_vald_org.Helpers.{entity_to_oauth_client}
use code_vald_org.Crypto.{hash_argon2id}
use code_vald_org.Manager.Calls.{or_unavailable, query, draft, edge, now_text}

module _ (E : Env) (cfg : ManagerConfig) where
  unfoldable pub create_client_secret : (entity_id now : String) → Action E.World (String × String)
  create_client_secret entity_id now = do
    uuid ← lift E.new_uuid
    let plaintext = "cv_cs_" <> uuid
    phc ←
        or_unavailable
          (hash_argon2id E plaintext cfg.argon2_time cfg.argon2_memory_kib cfg.argon2_threads)
    secret ← or_unavailable (
        E.create_entity (
          draft cfg "ClientSecret" (
            ("agency_id", str cfg.agency_id)
            ∷ ("secret_hash", str phc)
            ∷ ("created_at", str now)
            ∷ [])))
    or_unavailable (E.create_relationship (edge cfg "has_client_secret" entity_id secret.id))
    pure (plaintext, phc)

  -- The loop over `req.RedirectURIs`.
  unfoldable pub add_redirect_uris :
      (entity_id now : String) → List String → Action E.World (Unit {0})
  add_redirect_uris entity_id now [] = pure tt
  add_redirect_uris entity_id now (uri ∷ uris) = do
    e ← or_unavailable (
        E.create_entity (
          draft cfg "RedirectURI"
            (("agency_id", str cfg.agency_id) ∷ ("uri", str uri) ∷ ("created_at", str now) ∷ [])))
    or_unavailable (E.create_relationship (edge cfg "has_redirect_uri" entity_id e.id))
    add_redirect_uris entity_id now uris

  -- The loop over `req.AllowedScopeIDs`.
  unfoldable pub allow_scopes : String → List String → Action E.World (Unit {0})
  allow_scopes entity_id [] = pure tt
  allow_scopes entity_id (scope_id ∷ scope_ids) = do
    or_unavailable (E.create_relationship (edge cfg "allows_scope" entity_id scope_id))
    allow_scopes entity_id scope_ids

  -- The plaintext secret of a confidential client, and the empty text for any other.
  unfoldable pub secret_of_type : (client_type entity_id now : String) → Action E.World String
  secret_of_type client_type entity_id now =
      if client_type == "confidential"
      then (create_client_secret entity_id now >>= λ secret. pure secret.0)
      else pure ""

  unfoldable pub create_oauth_client :
      CreateOAuthClientRequest → Action E.World (OAuthClient × String)
  create_oauth_client req = do
    client_id ← lift E.new_uuid
    now ← now_text E
    e ← or_unavailable (
        E.create_entity (
          draft cfg "OAuthClient" (
            ("agency_id", str cfg.agency_id)
            ∷ ("client_id", str client_id)
            ∷ ("client_type", str req.client_type)
            ∷ ("name", str req.name)
            ∷ ("allowed_grant_types", strs req.allowed_grant_types)
            ∷ ("description", str req.description)
            ∷ ("created_at", str now)
            ∷ ("updated_at", str now)
            ∷ [])))
    add_redirect_uris e.id now req.redirect_uris
    allow_scopes e.id req.allowed_scope_ids
    plaintext_secret ← secret_of_type req.client_type e.id now
    pure (entity_to_oauth_client E e, plaintext_secret)

  unfoldable pub rotate_client_secret : String → Action E.World String
  rotate_client_secret client_id = do
    clients ←
        or_fail (E.list_entities (query cfg "OAuthClient" (("client_id", str client_id) ∷ [])))
          (sentinel oauth_client_not_found)
    client ← first_or clients (sentinel oauth_client_not_found)
    now ← now_text E
    secret ← create_client_secret client.id now
    pure secret.0

  unfoldable pub list_oauth_clients : ListRequest → Action E.World (List OAuthClient)
  list_oauth_clients req = do
    entities ← or_unavailable (E.list_entities (query cfg "OAuthClient" []))
    pure (map (entity_to_oauth_client E) entities)

  unfoldable pub delete_oauth_client : String → Action E.World (Unit {0})
  delete_oauth_client client_id = do
    clients ←
        or_fail (E.list_entities (query cfg "OAuthClient" (("client_id", str client_id) ∷ [])))
          (sentinel oauth_client_not_found)
    client ← first_or clients (sentinel oauth_client_not_found)
    or_unavailable (E.delete_entity cfg.agency_id client.id)
