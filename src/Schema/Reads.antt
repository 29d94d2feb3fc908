-- ===== src/Schema/Reads.antt =====
-- helpers.go against the schema: the converters read declared properties only.
use code_vald_org.Prelude.{
  String, ◌==◌, ◌≡◌, refl, Bool, true, false, none, some, ap, [], ◌∷◌, keep, any, arith, eq_iff,
  Bool-cases, inl, inr, if◌then◌else◌,
}
use code_vald_org.Graph.{Value, Properties, lookup, Entity}
use code_vald_org.Effects.{Env}
use code_vald_org.Helpers.{
  prop_str, prop_bool, prop_str_slice, prop_time, prop_time_ptr, entity_to_org, entity_to_user,
  entity_to_role, entity_to_scope, entity_to_membership, entity_to_invitation,
  entity_to_oauth_client, entity_to_audit_event,
}
use code_vald_org.Schema.Types.{PropertyDefinition, TypeDefinition}
use code_vald_org.Schema.Identity.{
  organization_type, user_type, role_type, scope_type, membership_type, invitation_type,
}
use code_vald_org.Schema.OAuth.{oauth_client_type}
use code_vald_org.Schema.Artifacts.{audit_event_type}

abbrev pub is_declared : TypeDefinition → String → Bool
is_declared t key = any (λ (d : PropertyDefinition). d.name == key) t.properties

-- The entity without the properties that its type does not declare.
abbrev pub declared_only : TypeDefinition → Entity → Entity
declared_only t e = record e {
  properties = keep (λ (kv : String × Value). is_declared t kv.0) e.properties;
}

lookup-keep :
    (q : String → Bool) (key : String) (props : Properties)
    → q key ≡ true
    → lookup key (keep (λ (kv : String × Value). q kv.0) props) ≡ lookup key props
lookup-keep q key [] h = refl
lookup-keep q key ((k, v) ∷ props) h =
    let rest = lookup-keep q key props h in
    elim (Bool-cases (q k)) [
      | inl kept ↦ rw (kept, rest) refl
      | inr dropped ↦
          let other_ : (k == key) ≡ false = ground (arith, eq_iff k key) in
          rw (dropped, other_, rest) refl
    ]

module _ (t : TypeDefinition) (e : Entity) (key : String)
    (declared : is_declared t key ≡ true) where
  same_lookup : lookup key (declared_only t e).properties ≡ lookup key e.properties
  same_lookup = lookup-keep (is_declared t) key e.properties declared

  same_str : prop_str (declared_only t e).properties key ≡ prop_str e.properties key
  same_str = rw (prop_str, same_lookup) refl

  same_bool : prop_bool (declared_only t e).properties key ≡ prop_bool e.properties key
  same_bool = rw (prop_bool, same_lookup) refl

  same_str_slice :
      prop_str_slice (declared_only t e).properties key ≡ prop_str_slice e.properties key
  same_str_slice = rw (prop_str_slice, same_lookup) refl

  same_time :
      (E : Env) → prop_time E (declared_only t e).properties key ≡ prop_time E e.properties key
  same_time E =
      ap (λ s. if s == "" then 0 else elim (E.parse_time s) [ none ↦ 0 | some x ↦ x ]) same_str

  same_time_ptr :
      (E : Env)
      → prop_time_ptr E (declared_only t e).properties key ≡ prop_time_ptr E e.properties key
  same_time_ptr E = ap (λ s. if s == "" then none else E.parse_time s) same_str

module _ (E : Env) where
  entity_to_org-declared_only :
      (e : Entity) → entity_to_org E (declared_only organization_type e) ≡ entity_to_org E e
  unfolding entity_to_org
  entity_to_org-declared_only e = λ i. record {
    id = e.id;
    agency_id = same_str organization_type e "agency_id" refl i;
    name = same_str organization_type e "name" refl i;
    enabled = same_bool organization_type e "enabled" refl i;
    description = same_str organization_type e "description" refl i;
    contact_email = same_str organization_type e "contact_email" refl i;
    logo_url = same_str organization_type e "logo_url" refl i;
    created_at = same_time organization_type e "created_at" refl E i;
    updated_at = same_time organization_type e "updated_at" refl E i;
    disabled_at = same_time_ptr organization_type e "disabled_at" refl E i;
    deleted_at = same_time_ptr organization_type e "deleted_at" refl E i;
  }

  entity_to_user-declared_only :
      (e : Entity) → entity_to_user E (declared_only user_type e) ≡ entity_to_user E e
  unfolding entity_to_user
  entity_to_user-declared_only e = λ i. record {
    id = e.id;
    agency_id = same_str user_type e "agency_id" refl i;
    email = same_str user_type e "email" refl i;
    status = same_str user_type e "status" refl i;
    display_name = same_str user_type e "display_name" refl i;
    created_at = same_time user_type e "created_at" refl E i;
    updated_at = same_time user_type e "updated_at" refl E i;
    deleted_at = same_time_ptr user_type e "deleted_at" refl E i;
  }

  entity_to_role-declared_only :
      (e : Entity) → entity_to_role E (declared_only role_type e) ≡ entity_to_role E e
  unfolding entity_to_role
  entity_to_role-declared_only e = λ i. record {
    id = e.id;
    agency_id = same_str role_type e "agency_id" refl i;
    name = same_str role_type e "name" refl i;
    builtin = same_bool role_type e "builtin" refl i;
    display_name = same_str role_type e "display_name" refl i;
    description = same_str role_type e "description" refl i;
    created_at = same_time role_type e "created_at" refl E i;
    updated_at = same_time role_type e "updated_at" refl E i;
    deleted_at = same_time_ptr role_type e "deleted_at" refl E i;
  }

  entity_to_scope-declared_only :
      (e : Entity) → entity_to_scope E (declared_only scope_type e) ≡ entity_to_scope E e
  unfolding entity_to_scope
  entity_to_scope-declared_only e = λ i. record {
    id = e.id;
    agency_id = same_str scope_type e "agency_id" refl i;
    name = same_str scope_type e "name" refl i;
    registered_by = same_str scope_type e "registered_by" refl i;
    description = same_str scope_type e "description" refl i;
    created_at = same_time scope_type e "created_at" refl E i;
    updated_at = same_time scope_type e "updated_at" refl E i;
    deprecated_at = same_time_ptr scope_type e "deprecated_at" refl E i;
  }

  entity_to_membership-declared_only :
      (e : Entity)
      → entity_to_membership E (declared_only membership_type e) ≡ entity_to_membership E e
  unfolding entity_to_membership
  entity_to_membership-declared_only e = λ i. record {
    id = e.id;
    agency_id = same_str membership_type e "agency_id" refl i;
    granted_at = same_time membership_type e "granted_at" refl E i;
    granted_by = same_str membership_type e "granted_by" refl i;
    revoked_at = same_time_ptr membership_type e "revoked_at" refl E i;
    revoked_by = same_str membership_type e "revoked_by" refl i;
  }

  entity_to_invitation-declared_only :
      (e : Entity)
      → entity_to_invitation E (declared_only invitation_type e) ≡ entity_to_invitation E e
  unfolding entity_to_invitation
  entity_to_invitation-declared_only e = λ i. record {
    id = e.id;
    agency_id = same_str invitation_type e "agency_id" refl i;
    token_hash = same_str invitation_type e "token_hash" refl i;
    status = same_str invitation_type e "status" refl i;
    expires_at = same_time invitation_type e "expires_at" refl E i;
    created_at = same_time invitation_type e "created_at" refl E i;
    accepted_at = same_time_ptr invitation_type e "accepted_at" refl E i;
    revoked_at = same_time_ptr invitation_type e "revoked_at" refl E i;
  }

  entity_to_oauth_client-declared_only :
      (e : Entity)
      → entity_to_oauth_client E (declared_only oauth_client_type e) ≡ entity_to_oauth_client E e
  unfolding entity_to_oauth_client
  entity_to_oauth_client-declared_only e = λ i. record {
    id = e.id;
    agency_id = same_str oauth_client_type e "agency_id" refl i;
    client_id = same_str oauth_client_type e "client_id" refl i;
    client_type = same_str oauth_client_type e "client_type" refl i;
    name = same_str oauth_client_type e "name" refl i;
    allowed_grant_types = same_str_slice oauth_client_type e "allowed_grant_types" refl i;
    description = same_str oauth_client_type e "description" refl i;
    created_at = same_time oauth_client_type e "created_at" refl E i;
    updated_at = same_time oauth_client_type e "updated_at" refl E i;
    disabled_at = same_time_ptr oauth_client_type e "disabled_at" refl E i;
    deleted_at = same_time_ptr oauth_client_type e "deleted_at" refl E i;
  }

  entity_to_audit_event-declared_only :
      (e : Entity)
      → entity_to_audit_event E (declared_only audit_event_type e) ≡ entity_to_audit_event E e
  unfolding entity_to_audit_event
  entity_to_audit_event-declared_only e = λ i. record {
    id = e.id;
    agency_id = same_str audit_event_type e "agency_id" refl i;
    event_type = same_str audit_event_type e "event_type" refl i;
    actor_id = same_str audit_event_type e "actor_id" refl i;
    subject_id = same_str audit_event_type e "subject_id" refl i;
    outcome = same_str audit_event_type e "outcome" refl i;
    event_at = same_time audit_event_type e "event_at" refl E i;
    payload = same_str audit_event_type e "payload" refl i;
  }

  -- Each converter gives the same for an entity without the properties that its type does not
  -- declare.
  pub converters-declared_only :
      (e : Entity)
      → (entity_to_org E (declared_only organization_type e) ≡ entity_to_org E e)
        × (entity_to_user E (declared_only user_type e) ≡ entity_to_user E e)
        × (entity_to_role E (declared_only role_type e) ≡ entity_to_role E e)
        × (entity_to_scope E (declared_only scope_type e) ≡ entity_to_scope E e)
        × (entity_to_membership E (declared_only membership_type e) ≡ entity_to_membership E e)
        × (entity_to_invitation E (declared_only invitation_type e) ≡ entity_to_invitation E e)
        × (entity_to_oauth_client E (declared_only oauth_client_type e)
            ≡ entity_to_oauth_client E e)
        × (entity_to_audit_event E (declared_only audit_event_type e) ≡ entity_to_audit_event E e)
  converters-declared_only e = (
    entity_to_org-declared_only e,
    entity_to_user-declared_only e,
    entity_to_role-declared_only e,
    entity_to_scope-declared_only e,
    entity_to_membership-declared_only e,
    entity_to_invitation-declared_only e,
    entity_to_oauth_client-declared_only e,
    entity_to_audit_event-declared_only e,
  )
