-- ===== src/Server/Statuses.antt =====
-- internal/server/mappers.go: the status of each domain error, against the catalogue of errors.
use code_vald_org.Prelude.{String, ◌≡◌, refl}
use code_vald_org.Errors.{Sentinel, sentinel, external, wrap, error_text, sentinel_text, error_is}
use code_vald_org.Effects.{Env}
use code_vald_org.Server.Mappers.{
  Code, to_grpc_error, first_case, invalid_argument, unauthenticated, permission_denied,
  unavailable, resource_exhausted, not_found, already_exists, failed_precondition,
}

-- The kinds of failure that the catalogue tells apart.
abbrev pub expected_code : Sentinel → Code
expected_code Sentinel.entity_not_found = not_found
expected_code Sentinel.org_not_found = not_found
expected_code Sentinel.user_not_found = not_found
expected_code Sentinel.role_not_found = not_found
expected_code Sentinel.scope_not_found = not_found
expected_code Sentinel.membership_not_found = not_found
expected_code Sentinel.invitation_not_found = not_found
expected_code Sentinel.oauth_client_not_found = not_found
expected_code Sentinel.org_already_exists = already_exists
expected_code Sentinel.user_already_exists = already_exists
expected_code Sentinel.role_already_exists = already_exists
expected_code Sentinel.scope_name_collision = already_exists
expected_code Sentinel.org_disabled = failed_precondition
expected_code Sentinel.user_suspended = failed_precondition
expected_code Sentinel.role_builtin_immutable = failed_precondition
expected_code Sentinel.invitation_expired = failed_precondition
expected_code Sentinel.invitation_already_accepted = failed_precondition
expected_code Sentinel.super_admin_required = failed_precondition
expected_code Sentinel.immutable_type = failed_precondition
expected_code Sentinel.invalid_client = unauthenticated
expected_code Sentinel.temporarily_unavailable = unavailable
expected_code Sentinel.rate_limit_exceeded = resource_exhausted
expected_code Sentinel.invalid_request = invalid_argument
expected_code Sentinel.unsupported_grant_type = invalid_argument
expected_code Sentinel.invalid_scope = invalid_argument
expected_code Sentinel.redirect_uri_mismatch = invalid_argument
expected_code Sentinel.pkce_required = invalid_argument
expected_code Sentinel.pkce_method_invalid = invalid_argument
expected_code Sentinel.invalid_grant = permission_denied
expected_code Sentinel.unauthorized_client = permission_denied
expected_code Sentinel.access_denied = permission_denied
expected_code Sentinel.scope_reserved = permission_denied
expected_code Sentinel.token_revoked = permission_denied
expected_code Sentinel.token_expired = permission_denied
expected_code Sentinel.pkce_mismatch = permission_denied

-- Each of the service's errors has its own case: it is answered with the code of its kind, never with
-- Internal, and with its own text.
pub to_grpc_error-sentinel :
    (E : Env) (s : Sentinel)
    → to_grpc_error E (sentinel s) ≡ record {
      code = expected_code s;
      message = sentinel_text E.entity_not_found_text E.immutable_type_text s;
    }
unfolding to_grpc_error first_case error_is error_text
to_grpc_error-sentinel E Sentinel.entity_not_found = refl
to_grpc_error-sentinel E Sentinel.org_not_found = refl
to_grpc_error-sentinel E Sentinel.user_not_found = refl
to_grpc_error-sentinel E Sentinel.role_not_found = refl
to_grpc_error-sentinel E Sentinel.scope_not_found = refl
to_grpc_error-sentinel E Sentinel.membership_not_found = refl
to_grpc_error-sentinel E Sentinel.invitation_not_found = refl
to_grpc_error-sentinel E Sentinel.oauth_client_not_found = refl
to_grpc_error-sentinel E Sentinel.org_already_exists = refl
to_grpc_error-sentinel E Sentinel.user_already_exists = refl
to_grpc_error-sentinel E Sentinel.role_already_exists = refl
to_grpc_error-sentinel E Sentinel.scope_name_collision = refl
to_grpc_error-sentinel E Sentinel.org_disabled = refl
to_grpc_error-sentinel E Sentinel.user_suspended = refl
to_grpc_error-sentinel E Sentinel.role_builtin_immutable = refl
to_grpc_error-sentinel E Sentinel.invitation_expired = refl
to_grpc_error-sentinel E Sentinel.invitation_already_accepted = refl
to_grpc_error-sentinel E Sentinel.super_admin_required = refl
to_grpc_error-sentinel E Sentinel.immutable_type = refl
to_grpc_error-sentinel E Sentinel.invalid_client = refl
to_grpc_error-sentinel E Sentinel.temporarily_unavailable = refl
to_grpc_error-sentinel E Sentinel.rate_limit_exceeded = refl
to_grpc_error-sentinel E Sentinel.invalid_request = refl
to_grpc_error-sentinel E Sentinel.unsupported_grant_type = refl
to_grpc_error-sentinel E Sentinel.invalid_scope = refl
to_grpc_error-sentinel E Sentinel.redirect_uri_mismatch = refl
to_grpc_error-sentinel E Sentinel.pkce_required = refl
to_grpc_error-sentinel E Sentinel.pkce_method_invalid = refl
to_grpc_error-sentinel E Sentinel.invalid_grant = refl
to_grpc_error-sentinel E Sentinel.unauthorized_client = refl
to_grpc_error-sentinel E Sentinel.access_denied = refl
to_grpc_error-sentinel E Sentinel.scope_reserved = refl
to_grpc_error-sentinel E Sentinel.token_revoked = refl
to_grpc_error-sentinel E Sentinel.token_expired = refl
to_grpc_error-sentinel E Sentinel.pkce_mismatch = refl

-- A failed lookup of a user wraps the store's error: whatever text the store gave, the answer is
-- NotFound.
pub to_grpc_error-user_lookup :
    (E : Env) (text : String)
    → (to_grpc_error E (wrap (sentinel Sentinel.user_not_found) (external text))).code ≡ not_found
unfolding to_grpc_error first_case error_is
to_grpc_error-user_lookup E text = refl
