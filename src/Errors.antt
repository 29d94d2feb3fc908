-- ===== src/Errors.antt =====
-- errors.go: the sentinel errors, error values and `errors.Is`.
use code_vald_org.Prelude.{String, ◌<>◌, Bool, false, ◌||◌, ℕ, nat_eq}

-- The package-level variables. The first two are the entity graph's, exported again.
pub data Sentinel : Type 0 where
  entity_not_found immutable_type : Sentinel
  invalid_request invalid_client invalid_grant unauthorized_client : Sentinel
  unsupported_grant_type invalid_scope access_denied temporarily_unavailable : Sentinel
  rate_limit_exceeded : Sentinel
  org_not_found org_already_exists org_disabled : Sentinel
  user_not_found user_already_exists user_suspended : Sentinel
  role_not_found role_already_exists role_builtin_immutable : Sentinel
  scope_not_found scope_name_collision scope_reserved : Sentinel
  membership_not_found : Sentinel
  invitation_not_found invitation_expired invitation_already_accepted : Sentinel
  oauth_client_not_found redirect_uri_mismatch : Sentinel
  pkce_required pkce_method_invalid pkce_mismatch : Sentinel
  token_revoked token_expired super_admin_required : Sentinel

-- Each variable is one allocated value: this number is its identity.
abbrev pub identity : Sentinel → ℕ
identity entity_not_found = 0
identity immutable_type = 1
identity invalid_request = 2
identity invalid_client = 3
identity invalid_grant = 4
identity unauthorized_client = 5
identity unsupported_grant_type = 6
identity invalid_scope = 7
identity access_denied = 8
identity temporarily_unavailable = 9
identity rate_limit_exceeded = 10
identity org_not_found = 11
identity org_already_exists = 12
identity org_disabled = 13
identity user_not_found = 14
identity user_already_exists = 15
identity user_suspended = 16
identity role_not_found = 17
identity role_already_exists = 18
identity role_builtin_immutable = 19
identity scope_not_found = 20
identity scope_name_collision = 21
identity scope_reserved = 22
identity membership_not_found = 23
identity invitation_not_found = 24
identity invitation_expired = 25
identity invitation_already_accepted = 26
identity oauth_client_not_found = 27
identity redirect_uri_mismatch = 28
identity pkce_required = 29
identity pkce_method_invalid = 30
identity pkce_mismatch = 31
identity token_revoked = 32
identity token_expired = 33
identity super_admin_required = 34

-- An error value: a sentinel, an error of another package with its text, or
-- `fmt.Errorf("%w: %w", a, b)`.
pub data Error : Type 0 where
  sentinel : Sentinel → Error
  external : String → Error
  wrap : Error → Error → Error

-- `errors.Is(err, target)`
unfoldable pub error_is : Error → Sentinel → Bool
error_is (sentinel s) target = nat_eq (identity s) (identity target)
error_is (external text) target = false
error_is (wrap a b) target = error_is a target || error_is b target

-- The texts given to `errors.New`; the entity graph's own two texts are the parameters.
unfoldable pub sentinel_text :
    (entity_not_found_text immutable_type_text : String) → Sentinel → String
sentinel_text e i entity_not_found = e
sentinel_text e i immutable_type = i
sentinel_text e i invalid_request = "invalid_request"
sentinel_text e i invalid_client = "invalid_client"
sentinel_text e i invalid_grant = "invalid_grant"
sentinel_text e i unauthorized_client = "unauthorized_client"
sentinel_text e i unsupported_grant_type = "unsupported_grant_type"
sentinel_text e i invalid_scope = "invalid_scope"
sentinel_text e i access_denied = "access_denied"
sentinel_text e i temporarily_unavailable = "temporarily_unavailable"
sentinel_text e i rate_limit_exceeded = "rate_limit_exceeded"
sentinel_text e i org_not_found = "organization not found"
sentinel_text e i org_already_exists = "organization already exists"
sentinel_text e i org_disabled = "organization disabled"
sentinel_text e i user_not_found = "user not found"
sentinel_text e i user_already_exists = "user already exists"
sentinel_text e i user_suspended = "user suspended"
sentinel_text e i role_not_found = "role not found"
sentinel_text e i role_already_exists = "role already exists"
sentinel_text e i role_builtin_immutable = "built-in role cannot be modified or deleted"
sentinel_text e i scope_not_found = "scope not found"
sentinel_text e i scope_name_collision = "scope name already registered by a different owner"
sentinel_text e i scope_reserved = "scope prefix is reserved"
sentinel_text e i membership_not_found = "membership not found"
sentinel_text e i invitation_not_found = "invitation not found"
sentinel_text e i invitation_expired = "invitation expired"
sentinel_text e i invitation_already_accepted = "invitation already accepted"
sentinel_text e i oauth_client_not_found = "oauth client not found"
sentinel_text e i redirect_uri_mismatch = "redirect_uri mismatch"
sentinel_text e i pkce_required = "pkce required for public clients"
sentinel_text e i pkce_method_invalid = "code_challenge_method must be S256"
sentinel_text e i pkce_mismatch = "code_verifier does not match code_challenge"
sentinel_text e i token_revoked = "token revoked"
sentinel_text e i token_expired = "token expired"
sentinel_text e i super_admin_required = "cannot remove the last super_admin"

-- `err.Error()`
unfoldable pub error_text : (entity_not_found_text immutable_type_text : String) → Error → String
unfolding sentinel_text
error_text e i (sentinel s) = sentinel_text e i s
error_text e i (external text) = text
error_text e i (wrap a b) = error_text e i a <> ": " <> error_text e i b
