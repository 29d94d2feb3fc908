-- ===== src/Server/Convert.antt =====
-- internal/server/server.go: the converters of domain structs to messages.
use code_vald_org.Prelude.{ℕ, String, ◌==◌, Option, none, some, nat_eq, if◌then◌else◌}
use code_vald_org.Models.{
  Organization, User, Role, Scope, Membership, Invitation, OAuthClient, AuditEvent, TokenResult,
  IntrospectResult,
}
use code_vald_org.Server.Messages.{
  UserStatus, InvitationStatus, OrganizationMsg, UserMsg, RoleMsg, ScopeMsg, MembershipMsg,
  InvitationMsg, OAuthClientMsg, AuditEventMsg, TokenResponse, IntrospectResponse,
}

-- `ts`: the zero time has no timestamp. `tsPtr` keeps an absent time absent.
abbrev pub ts : ℕ → Option ℕ
ts t = if nat_eq t 0 then none else some t

abbrev pub ts_ptr : Option ℕ → Option ℕ
ts_ptr t = t

unfoldable pub to_proto_user_status : String → UserStatus
to_proto_user_status s =
    if s == "invited"
    then UserStatus.invited
    else if s == "active"
    then UserStatus.active
    else if s == "suspended"
    then UserStatus.suspended
    else if s == "deleted"
    then UserStatus.deleted
    else UserStatus.unspecified

-- The `switch` in `toProtoInvitation`.
unfoldable pub to_proto_invitation_status : String → InvitationStatus
to_proto_invitation_status s =
    if s == "pending"
    then InvitationStatus.pending
    else if s == "accepted"
    then InvitationStatus.accepted
    else if s == "expired"
    then InvitationStatus.expired
    else if s == "revoked"
    then InvitationStatus.revoked
    else InvitationStatus.unspecified

unfoldable pub to_proto_org : Organization → OrganizationMsg
to_proto_org o = record {
  agency_id = o.agency_id;
  name = o.name;
  enabled = o.enabled;
  description = o.description;
  contact_email = o.contact_email;
  logo_url = o.logo_url;
  created_at = ts o.created_at;
  updated_at = ts o.updated_at;
  disabled_at = ts_ptr o.disabled_at;
  deleted_at = ts_ptr o.deleted_at;
}

unfoldable pub to_proto_user : User → UserMsg
to_proto_user u = record {
  agency_id = u.agency_id;
  user_id = u.id;
  email = u.email;
  status = to_proto_user_status u.status;
  display_name = u.display_name;
  created_at = ts u.created_at;
  updated_at = ts u.updated_at;
  deleted_at = ts_ptr u.deleted_at;
}

unfoldable pub to_proto_role : Role → RoleMsg
to_proto_role r = record {
  agency_id = r.agency_id;
  role_id = r.id;
  name = r.name;
  builtin = r.builtin;
  display_name = r.display_name;
  description = r.description;
  created_at = ts r.created_at;
  updated_at = ts r.updated_at;
  deleted_at = ts_ptr r.deleted_at;
}

unfoldable pub to_proto_scope : Scope → ScopeMsg
to_proto_scope sc = record {
  agency_id = sc.agency_id;
  scope_id = sc.id;
  name = sc.name;
  registered_by = sc.registered_by;
  description = sc.description;
  created_at = ts sc.created_at;
  updated_at = ts sc.updated_at;
  deprecated_at = ts_ptr sc.deprecated_at;
}

unfoldable pub to_proto_membership : Membership → MembershipMsg
to_proto_membership m = record {
  agency_id = m.agency_id;
  membership_id = m.id;
  granted_by = m.granted_by;
  granted_at = ts m.granted_at;
  revoked_at = ts_ptr m.revoked_at;
}

unfoldable pub to_proto_invitation : Invitation → InvitationMsg
to_proto_invitation inv = record {
  agency_id = inv.agency_id;
  invitation_id = inv.id;
  token = inv.token_hash;
  status = to_proto_invitation_status inv.status;
  expires_at = ts inv.expires_at;
  created_at = ts inv.created_at;
  accepted_at = ts_ptr inv.accepted_at;
  revoked_at = ts_ptr inv.revoked_at;
}

unfoldable pub to_proto_oauth_client : OAuthClient → OAuthClientMsg
to_proto_oauth_client c = record {
  agency_id = c.agency_id;
  client_id = c.client_id;
  client_type = c.client_type;
  name = c.name;
  allowed_grant_types = c.allowed_grant_types;
  description = c.description;
  created_at = ts c.created_at;
  updated_at = ts c.updated_at;
  disabled_at = ts_ptr c.disabled_at;
  deleted_at = ts_ptr c.deleted_at;
}

unfoldable pub to_proto_audit_event : AuditEvent → AuditEventMsg
to_proto_audit_event e = record {
  agency_id = e.agency_id;
  event_id = e.id;
  event_type = e.event_type;
  actor_id = e.actor_id;
  subject_id = e.subject_id;
  outcome = e.outcome;
  event_at = ts e.event_at;
  payload = e.payload;
}

-- The literal in the handler `Token`.
unfoldable pub to_token_response : TokenResult → TokenResponse
to_token_response r = record {
  access_token = r.access_token;
  token_type = r.token_type;
  expires_in = r.expires_in;
  refresh_token = r.refresh_token;
  scopes = r.scopes;
}

-- The literal in the handler `Introspect`, whose times are set for an active token only.
unfoldable pub to_introspect_response : IntrospectResult → IntrospectResponse
to_introspect_response r = record {
  active = r.active;
  scopes = r.scopes;
  sub = r.sub;
  client_id = r.client_id;
  exp = if r.active then ts r.exp else none;
  iat = if r.active then ts r.iat else none;
  token_type = r.token_type;
}
