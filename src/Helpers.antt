-- ===== src/Helpers.antt =====
-- helpers.go: readers of an entity's properties, and the converters of entities to domain
-- structs. Reading a time goes through `time.Parse`, which is part of the environment.
use code_vald_org.Prelude.{
  ℕ, String, ◌==◌, Bool, false, Option, none, some, List, [], ◌∷◌, if◌then◌else◌,
}
use code_vald_org.Graph.{
  Item, text, non_text, Value, str, bool, strs, anys, Properties, lookup, Entity,
}
use code_vald_org.Effects.{Env}
use code_vald_org.Models.{
  Organization, User, Role, Scope, Membership, Invitation, OAuthClient, AuditEvent,
}

-- `v.(string)`, and the empty text where that fails
abbrev as_string : Value → String
as_string (str s) = s
as_string _ = ""

abbrev as_bool : Value → Bool
as_bool (bool b) = b
as_bool _ = false

abbrev pub prop_str : Properties → String → String
prop_str props key = elim (lookup key props) [ none ↦ "" | some v ↦ as_string v ]

abbrev pub prop_bool : Properties → String → Bool
prop_bool props key = elim (lookup key props) [ none ↦ false | some v ↦ as_bool v ]

-- the loop over a `[]any`
abbrev texts_of : List Item → List String
texts_of [] = []
texts_of (text s ∷ items) = s ∷ texts_of items
texts_of (non_text ∷ items) = texts_of items

abbrev as_strings : Value → List String
as_strings (strs ss) = ss
as_strings (anys items) = texts_of items
as_strings _ = []

abbrev pub prop_str_slice : Properties → String → List String
prop_str_slice props key = elim (lookup key props) [ none ↦ [] | some v ↦ as_strings v ]

module _ (E : Env) where
  -- The zero time where the property is absent, empty or no RFC 3339 time.
  abbrev pub prop_time : Properties → String → ℕ
  prop_time props key =
      let s = prop_str props key in
      if s == "" then 0 else elim (E.parse_time s) [ none ↦ 0 | some t ↦ t ]

  abbrev pub prop_time_ptr : Properties → String → Option ℕ
  prop_time_ptr props key = let s = prop_str props key in if s == "" then none else E.parse_time s

  unfoldable pub entity_to_org : Entity → Organization
  entity_to_org e =
      let p = e.properties in
      record {
        id = e.id;
        agency_id = prop_str p "agency_id";
        name = prop_str p "name";
        enabled = prop_bool p "enabled";
        description = prop_str p "description";
        contact_email = prop_str p "contact_email";
        logo_url = prop_str p "logo_url";
        created_at = prop_time p "created_at";
        updated_at = prop_time p "updated_at";
        disabled_at = prop_time_ptr p "disabled_at";
        deleted_at = prop_time_ptr p "deleted_at";
      }

  unfoldable pub entity_to_user : Entity → User
  entity_to_user e =
      let p = e.properties in
      record {
        id = e.id;
        agency_id = prop_str p "agency_id";
        email = prop_str p "email";
        status = prop_str p "status";
        display_name = prop_str p "display_name";
        created_at = prop_time p "created_at";
        updated_at = prop_time p "updated_at";
        deleted_at = prop_time_ptr p "deleted_at";
      }

  unfoldable pub entity_to_role : Entity → Role
  entity_to_role e =
      let p = e.properties in
      record {
        id = e.id;
        agency_id = prop_str p "agency_id";
        name = prop_str p "name";
        builtin = prop_bool p "builtin";
        display_name = prop_str p "display_name";
        description = prop_str p "description";
        created_at = prop_time p "created_at";
        updated_at = prop_time p "updated_at";
        deleted_at = prop_time_ptr p "deleted_at";
      }

  unfoldable pub entity_to_scope : Entity → Scope
  entity_to_scope e =
      let p = e.properties in
      record {
        id = e.id;
        agency_id = prop_str p "agency_id";
        name = prop_str p "name";
        registered_by = prop_str p "registered_by";
        description = prop_str p "description";
        created_at = prop_time p "created_at";
        updated_at = prop_time p "updated_at";
        deprecated_at = prop_time_ptr p "deprecated_at";
      }

  unfoldable pub entity_to_membership : Entity → Membership
  entity_to_membership e =
      let p = e.properties in
      record {
        id = e.id;
        agency_id = prop_str p "agency_id";
        granted_at = prop_time p "granted_at";
        granted_by = prop_str p "granted_by";
        revoked_at = prop_time_ptr p "revoked_at";
        revoked_by = prop_str p "revoked_by";
      }

  unfoldable pub entity_to_invitation : Entity → Invitation
  entity_to_invitation e =
      let p = e.properties in
      record {
        id = e.id;
        agency_id = prop_str p "agency_id";
        token_hash = prop_str p "token_hash";
        status = prop_str p "status";
        expires_at = prop_time p "expires_at";
        created_at = prop_time p "created_at";
        accepted_at = prop_time_ptr p "accepted_at";
        revoked_at = prop_time_ptr p "revoked_at";
      }

  unfoldable pub entity_to_oauth_client : Entity → OAuthClient
  entity_to_oauth_client e =
      let p = e.properties in
      record {
        id = e.id;
        agency_id = prop_str p "agency_id";
        client_id = prop_str p "client_id";
        client_type = prop_str p "client_type";
        name = prop_str p "name";
        allowed_grant_types = prop_str_slice p "allowed_grant_types";
        description = prop_str p "description";
        created_at = prop_time p "created_at";
        updated_at = prop_time p "updated_at";
        disabled_at = prop_time_ptr p "disabled_at";
        deleted_at = prop_time_ptr p "deleted_at";
      }

  unfoldable pub entity_to_audit_event : Entity → AuditEvent
  entity_to_audit_event e =
      let p = e.properties in
      record {
        id = e.id;
        agency_id = prop_str p "agency_id";
        event_type = prop_str p "event_type";
        actor_id = prop_str p "actor_id";
        subject_id = prop_str p "subject_id";
        outcome = prop_str p "outcome";
        event_at = prop_time p "event_at";
        payload = prop_str p "payload";
      }
