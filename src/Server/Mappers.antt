-- ===== src/Server/Mappers.antt =====
-- internal/server/mappers.go: the translation of domain errors to gRPC status errors.
use code_vald_org.Prelude.{String, List, [], ◌∷◌, if◌then◌else◌}
use code_vald_org.Errors.{
  Sentinel, Error, error_is, error_text, invalid_request, invalid_client, invalid_grant,
  unauthorized_client, unsupported_grant_type, invalid_scope, access_denied,
  temporarily_unavailable, rate_limit_exceeded, org_not_found, user_not_found, role_not_found,
  scope_not_found, membership_not_found, invitation_not_found, oauth_client_not_found,
  entity_not_found, org_already_exists, user_already_exists, role_already_exists,
  scope_name_collision, org_disabled, user_suspended, role_builtin_immutable, invitation_expired,
  invitation_already_accepted, super_admin_required, immutable_type, scope_reserved, token_revoked,
  token_expired, pkce_mismatch, redirect_uri_mismatch, pkce_required, pkce_method_invalid,
}
use code_vald_org.Effects.{Env}

pub data Code : Type 0 where
  invalid_argument unauthenticated permission_denied unavailable resource_exhausted : Code
  not_found already_exists failed_precondition internal : Code

-- `status.Error(code, message)`
pub record StatusError : Type 0 where
  pub code : Code
  pub message : String

-- The cases of the `switch`, in their order: `case errors.Is(err, s): return status.Error(c, …)`.
abbrev pub switch_cases : List (Sentinel × Code)
switch_cases =
    (invalid_request, invalid_argument)
    ∷ (invalid_client, unauthenticated)
    ∷ (invalid_grant, permission_denied)
    ∷ (unauthorized_client, permission_denied)
    ∷ (unsupported_grant_type, invalid_argument)
    ∷ (invalid_scope, invalid_argument)
    ∷ (access_denied, permission_denied)
    ∷ (temporarily_unavailable, unavailable)
    ∷ (rate_limit_exceeded, resource_exhausted)
    ∷ (org_not_found, not_found)
    ∷ (user_not_found, not_found)
    ∷ (role_not_found, not_found)
    ∷ (scope_not_found, not_found)
    ∷ (membership_not_found, not_found)
    ∷ (invitation_not_found, not_found)
    ∷ (oauth_client_not_found, not_found)
    ∷ (entity_not_found, not_found)
    ∷ (org_already_exists, already_exists)
    ∷ (user_already_exists, already_exists)
    ∷ (role_already_exists, already_exists)
    ∷ (scope_name_collision, already_exists)
    ∷ (org_disabled, failed_precondition)
    ∷ (user_suspended, failed_precondition)
    ∷ (role_builtin_immutable, failed_precondition)
    ∷ (invitation_expired, failed_precondition)
    ∷ (invitation_already_accepted, failed_precondition)
    ∷ (super_admin_required, failed_precondition)
    ∷ (immutable_type, failed_precondition)
    ∷ (scope_reserved, permission_denied)
    ∷ (token_revoked, permission_denied)
    ∷ (token_expired, permission_denied)
    ∷ (pkce_mismatch, permission_denied)
    ∷ (redirect_uri_mismatch, invalid_argument)
    ∷ (pkce_required, invalid_argument)
    ∷ (pkce_method_invalid, invalid_argument)
    ∷ []

-- The first case that holds.
unfoldable pub first_case : Error → List (Sentinel × Code) → (text : String) → StatusError
first_case e [] text = record { code = internal; message = "internal error" }
first_case e ((s, c) ∷ cases) text =
    let rest = first_case e cases text in
    if error_is e s then record { code = c; message = text } else rest

-- `toGRPCError` of an error that is not nil.
unfoldable pub to_grpc_error : Env → Error → StatusError
unfolding first_case
to_grpc_error E e =
    first_case e switch_cases (error_text E.entity_not_found_text E.immutable_type_text e)
