-- ===== src/Tests/Declared.antt =====
-- The schema at concrete inputs: what it declares, and a run of the manager that it declares.
use code_vald_org.Prelude.{◌≡◌, ◌==◌, refl, true, List, [], ◌∷◌, all, any, keep, map}
use code_vald_org.Manager.Operations.{Operation, serve}
use code_vald_org.Models.Requests.{CreateOAuthClientRequest}
use code_vald_org.Schema.{default_org_schema}
use code_vald_org.Schema.Types.{TypeDefinition}
use code_vald_org.Schema.Recording.{Recording, recording}
use code_vald_org.Schema.Writes.{IsDeclared}
use code_vald_org.Schema.Histories.{serve-IsDeclared}
use code_vald_org.Store.Memory.{Memory, memory}
use code_vald_org.Graph.{str, Entity}
use code_vald_org.Helpers.{
  entity_to_org, entity_to_user, entity_to_role, entity_to_scope, entity_to_membership,
  entity_to_invitation, entity_to_oauth_client, entity_to_audit_event,
}
use code_vald_org.Schema.Identity.{
  organization_type, user_type, role_type, scope_type, membership_type, invitation_type,
}
use code_vald_org.Schema.OAuth.{oauth_client_type}
use code_vald_org.Schema.Artifacts.{audit_event_type}
use code_vald_org.Schema.Reads.{declared_only, converters-declared_only}
use code_vald_org.Tests.Data.{entity, cfg, empty, acme, guest}

types_run :
    map (λ (t : TypeDefinition). t.name) default_org_schema.types
    ≡ "Organization" ∷ "User" ∷ "PasswordCredential" ∷ "Role" ∷ "Scope" ∷ "Membership"
      ∷ "Invitation" ∷ "OAuthClient" ∷ "ClientSecret" ∷ "RedirectURI" ∷ "AuthorizationCode"
      ∷ "AccessToken" ∷ "RefreshToken" ∷ "TokenRevocation" ∷ "AuditEvent" ∷ []
types_run = refl

-- The types that `TestDefaultOrgSchema_ImmutableTypes` lists.
immutable_run :
    map
      (λ (t : TypeDefinition). t.name)
      (keep (λ (t : TypeDefinition). t.immutable) default_org_schema.types)
    ≡ "AuthorizationCode" ∷ "AccessToken" ∷ "RefreshToken" ∷ "TokenRevocation" ∷ "AuditEvent" ∷ []
immutable_run = refl

-- Each relationship leads to a declared type.
targets_run :
    all
      (λ (t : TypeDefinition).
        all
          (λ r. any (λ (u : TypeDefinition). u.name == r.to_type) default_org_schema.types)
          t.relationships)
      default_org_schema.types
    ≡ true
targets_run = refl

abbrev start : Recording Memory
start = record { world = empty; creations = []; patches = []; edges = [] }

abbrev start-IsDeclared : IsDeclared start
start-IsDeclared = record { creations = refl; patches = refl; edges = refl }

abbrev console : CreateOAuthClientRequest
console = record {
  name = "console";
  client_type = "public";
  description = "";
  allowed_grant_types = "authorization_code" ∷ [];
  redirect_uris = "https://console/callback" ∷ [];
  allowed_scope_ids = "s1" ∷ [];
}

abbrev calls : List Operation
calls =
    Operation.init_organization acme
    ∷ Operation.invite_user guest
    ∷ Operation.create_oauth_client console
    ∷ Operation.revoke "t" ""
    ∷ []

serve-IsDeclared_example : IsDeclared (serve (recording memory) cfg calls start)
serve-IsDeclared_example =
    serve-IsDeclared memory cfg calls start (refl, (refl, (refl, (refl, tt)))) start-IsDeclared

abbrev stray : Entity
stray = entity "u1" "User" (("email", str "x@y") ∷ ("colour", str "red") ∷ [])

converters-declared_only_example :
    (entity_to_org memory (declared_only organization_type stray) ≡ entity_to_org memory stray)
    × (entity_to_user memory (declared_only user_type stray) ≡ entity_to_user memory stray)
    × (entity_to_role memory (declared_only role_type stray) ≡ entity_to_role memory stray)
    × (entity_to_scope memory (declared_only scope_type stray) ≡ entity_to_scope memory stray)
    × (entity_to_membership memory (declared_only membership_type stray)
        ≡ entity_to_membership memory stray)
    × (entity_to_invitation memory (declared_only invitation_type stray)
        ≡ entity_to_invitation memory stray)
    × (entity_to_oauth_client memory (declared_only oauth_client_type stray)
        ≡ entity_to_oauth_client memory stray)
    × (entity_to_audit_event memory (declared_only audit_event_type stray)
        ≡ entity_to_audit_event memory stray)
converters-declared_only_example = converters-declared_only memory stray
