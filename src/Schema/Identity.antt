-- ===== src/Schema/Identity.antt =====
-- schema.go: the types of the collection org_entities.
use code_vald_org.Prelude.{true, false, [], ◌∷◌}
use code_vald_org.Schema.Types.{
  PropertyType, TypeDefinition, required, optional, required_one_of, relation,
}

abbrev pub organization_type : TypeDefinition
organization_type = record {
  name = "Organization";
  display_name = "Organization";
  path_segment = "organizations";
  entity_id_param = "organizationId";
  storage_collection = "org_entities";
  immutable = false;
  properties =
      required "agency_id" PropertyType.string
      ∷ required "name" PropertyType.string
      ∷ required "enabled" PropertyType.boolean
      ∷ optional "description" PropertyType.string
      ∷ optional "contact_email" PropertyType.string
      ∷ optional "logo_url" PropertyType.string
      ∷ optional "created_at" PropertyType.string
      ∷ optional "updated_at" PropertyType.string
      ∷ optional "disabled_at" PropertyType.string
      ∷ optional "deleted_at" PropertyType.string
      ∷ [];
  relationships =
      relation "has_user" "Users" "User" true
      ∷ relation "has_role" "Roles" "Role" true
      ∷ relation "has_scope" "Scopes" "Scope" true
      ∷ relation "has_oauth_client" "OAuth Clients" "OAuthClient" true
      ∷ relation "has_audit_event" "Audit Events" "AuditEvent" true
      ∷ [];
}

abbrev pub user_type : TypeDefinition
user_type = record {
  name = "User";
  display_name = "User";
  path_segment = "users";
  entity_id_param = "userId";
  storage_collection = "org_entities";
  immutable = false;
  properties =
      required "agency_id" PropertyType.string
      ∷ required "email" PropertyType.string
      ∷ required_one_of "status" ("invited" ∷ "active" ∷ "suspended" ∷ "deleted" ∷ [])
      ∷ optional "display_name" PropertyType.string
      ∷ optional "created_at" PropertyType.string
      ∷ optional "updated_at" PropertyType.string
      ∷ optional "deleted_at" PropertyType.string
      ∷ [];
  relationships =
      relation "has_password_credential" "Password Credential" "PasswordCredential" false
      ∷ relation "has_membership" "Memberships" "Membership" true
      ∷ relation "has_invitation" "Invitations" "Invitation" true
      ∷ [];
}

abbrev pub password_credential_type : TypeDefinition
password_credential_type = record {
  name = "PasswordCredential";
  display_name = "Password Credential";
  path_segment = "password-credentials";
  entity_id_param = "passwordCredentialId";
  storage_collection = "org_entities";
  immutable = false;
  properties =
      required "agency_id" PropertyType.string
      ∷ required "password_hash" PropertyType.string
      ∷ optional "created_at" PropertyType.string
      ∷ optional "last_used_at" PropertyType.string
      ∷ optional "revoked_at" PropertyType.string
      ∷ optional "expires_at" PropertyType.string
      ∷ [];
  relationships = [];
}

abbrev pub role_type : TypeDefinition
role_type = record {
  name = "Role";
  display_name = "Role";
  path_segment = "roles";
  entity_id_param = "roleId";
  storage_collection = "org_entities";
  immutable = false;
  properties =
      required "agency_id" PropertyType.string
      ∷ required "name" PropertyType.string
      ∷ required "builtin" PropertyType.boolean
      ∷ optional "display_name" PropertyType.string
      ∷ optional "description" PropertyType.string
      ∷ optional "created_at" PropertyType.string
      ∷ optional "updated_at" PropertyType.string
      ∷ optional "deleted_at" PropertyType.string
      ∷ [];
  relationships = relation "has_scope" "Scopes" "Scope" true ∷ [];
}

abbrev pub scope_type : TypeDefinition
scope_type = record {
  name = "Scope";
  display_name = "Scope";
  path_segment = "scopes";
  entity_id_param = "scopeId";
  storage_collection = "org_entities";
  immutable = false;
  properties =
      required "agency_id" PropertyType.string
      ∷ required "name" PropertyType.string
      ∷ required "registered_by" PropertyType.string
      ∷ optional "description" PropertyType.string
      ∷ optional "created_at" PropertyType.string
      ∷ optional "updated_at" PropertyType.string
      ∷ optional "deprecated_at" PropertyType.string
      ∷ [];
  relationships = [];
}

abbrev pub membership_type : TypeDefinition
membership_type = record {
  name = "Membership";
  display_name = "Membership";
  path_segment = "memberships";
  entity_id_param = "membershipId";
  storage_collection = "org_entities";
  immutable = false;
  properties =
      required "agency_id" PropertyType.string
      ∷ optional "granted_at" PropertyType.string
      ∷ optional "granted_by" PropertyType.string
      ∷ optional "revoked_at" PropertyType.string
      ∷ optional "revoked_by" PropertyType.string
      ∷ [];
  relationships = relation "grants_role" "Role" "Role" false ∷ [];
}

abbrev pub invitation_type : TypeDefinition
invitation_type = record {
  name = "Invitation";
  display_name = "Invitation";
  path_segment = "invitations";
  entity_id_param = "invitationId";
  storage_collection = "org_entities";
  immutable = false;
  properties =
      required "agency_id" PropertyType.string
      ∷ required "token_hash" PropertyType.string
      ∷ required_one_of "status" ("pending" ∷ "accepted" ∷ "expired" ∷ "revoked" ∷ [])
      ∷ required "expires_at" PropertyType.string
      ∷ optional "created_at" PropertyType.string
      ∷ optional "accepted_at" PropertyType.string
      ∷ optional "revoked_at" PropertyType.string
      ∷ [];
  relationships =
      relation "invited_by" "Invited By" "User" false
      ∷ relation "will_grant_role" "Will Grant Roles" "Role" true
      ∷ [];
}
