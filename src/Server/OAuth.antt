-- ===== src/Server/OAuth.antt =====
-- internal/server/server.go: the handlers of OAuth clients, the OAuth protocol and the audit log.
use code_vald_org.Prelude.{String, map, List}
use code_vald_org.Effects.{Env}
use code_vald_org.Models.{ManagerConfig}
use code_vald_org.Manager.Clients
use code_vald_org.Manager.Tokens
use code_vald_org.Server.Reply.{Call, with_agency, answer}
use code_vald_org.Server.Requests.{
  CreateOAuthClientRequest, RotateClientSecretRequest, ListOAuthClientsRequest,
  DeleteOAuthClientRequest, AuthorizeRequest, TokenRequest, IntrospectRequest, RevokeRequest,
  ListAuditEventsRequest,
}
use code_vald_org.Server.Messages.{
  AuditEventMsg, AuthorizeResponse, CreateOAuthClientResponse, DeleteOAuthClientResponse,
  IntrospectResponse, OAuthClientMsg, RevokeResponse, RotateClientSecretResponse, TokenResponse,
}
use code_vald_org.Server.Convert.{
  to_introspect_response, to_proto_audit_event, to_proto_oauth_client, to_token_response,
}

-- The server's own agency, and the manager that it delegates to.
module _ (E : Env) (cfg : ManagerConfig) (agency_id : String) where
  unfoldable pub create_oauth_client :
      CreateOAuthClientRequest → Call E.World (CreateOAuthClientResponse)
  create_oauth_client req = with_agency agency_id req.agency_id (
      answer E
        (Clients.create_oauth_client E cfg (record {
          name = req.name;
          client_type = req.client_type;
          description = req.description;
          allowed_grant_types = req.allowed_grant_types;
          redirect_uris = req.redirect_uris;
          allowed_scope_ids = req.allowed_scope_ids;
        }))
        (λ (client, secret). record {
          client = to_proto_oauth_client client;
          plaintext_secret = secret;
        }))

  unfoldable pub rotate_client_secret :
      RotateClientSecretRequest → Call E.World (RotateClientSecretResponse)
  rotate_client_secret req = with_agency agency_id req.agency_id (
      answer E (Clients.rotate_client_secret E cfg req.client_id)
        (λ secret. record { plaintext_secret = secret }))

  unfoldable pub list_oauth_clients : ListOAuthClientsRequest → Call E.World (List OAuthClientMsg)
  list_oauth_clients req = with_agency agency_id req.agency_id (
      answer E
        (Clients.list_oauth_clients E cfg
          (record { page_token = req.page_token; page_size = req.page_size }))
        (map to_proto_oauth_client))

  unfoldable pub delete_oauth_client :
      DeleteOAuthClientRequest → Call E.World (DeleteOAuthClientResponse)
  delete_oauth_client req = with_agency agency_id req.agency_id (
      answer E (Clients.delete_oauth_client E cfg req.client_id)
        (λ _. record { agency_id = agency_id; client_id = req.client_id }))

  unfoldable pub authorize : AuthorizeRequest → Call E.World (AuthorizeResponse)
  authorize req = with_agency agency_id req.agency_id (
      answer E
        (Tokens.authorize E cfg (record {
          client_id = req.client_id;
          redirect_uri = req.redirect_uri;
          response_type = req.response_type;
          state = req.state;
          code_challenge = req.code_challenge;
          code_challenge_method = req.code_challenge_method;
          scopes = req.scopes;
        }))
        (λ (code, state). record { code = code; state = state }))

  unfoldable pub token : TokenRequest → Call E.World (TokenResponse)
  token req = with_agency agency_id req.agency_id (
      answer E
        (Tokens.token E cfg (record {
          grant_type = req.grant_type;
          client_id = req.client_id;
          client_secret = req.client_secret;
          code = req.code;
          redirect_uri = req.redirect_uri;
          code_verifier = req.code_verifier;
          refresh_token = req.refresh_token;
          scopes = req.scopes;
        }))
        to_token_response)

  unfoldable pub introspect : IntrospectRequest → Call E.World (IntrospectResponse)
  introspect req =
      with_agency agency_id req.agency_id
        (answer E (Tokens.introspect E cfg req.token) to_introspect_response)

  unfoldable pub revoke : RevokeRequest → Call E.World (RevokeResponse)
  revoke req =
      with_agency agency_id req.agency_id (
        answer E (Tokens.revoke E cfg req.token req.reason) (λ _. record { agency_id = agency_id }))

  unfoldable pub list_audit_events : ListAuditEventsRequest → Call E.World (List AuditEventMsg)
  list_audit_events req = with_agency agency_id req.agency_id (
      answer E
        (Tokens.list_audit_events E cfg (record {
          event_type_filter = req.event_type_filter;
          actor_id_filter = req.actor_id_filter;
          subject_id_filter = req.subject_id_filter;
          page_token = req.page_token;
          page_size = req.page_size;
        }))
        (map to_proto_audit_event))
