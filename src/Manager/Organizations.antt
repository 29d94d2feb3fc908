-- ===== src/Manager/Organizations.antt =====
-- org_lifecycle.go: the Organization's life cycle and the seeding of the built-in roles.
use code_vald_org.Prelude.{String, true, false, List, [], ◌∷◌, if◌then◌else◌}
use code_vald_org.Errors.{sentinel, org_already_exists, org_not_found}
use code_vald_org.Graph.{str, bool, Properties}
use code_vald_org.Effects.{Env, Action, pure, fail_if, first_or, is_nonempty, ◌>>=◌, ◌>>◌}
use code_vald_org.Models.{Organization, ManagerConfig}
use code_vald_org.Models.Requests.{InitOrganizationRequest, UpdateOrganizationRequest}
use code_vald_org.Helpers.{entity_to_org}
use code_vald_org.Manager.Calls.{or_unavailable, set_unless_empty, query, draft, now_text}

abbrev pub builtins : List (String × String)
builtins =
    ("super_admin", "Super Admin")
    ∷ ("admin", "Admin")
    ∷ ("member", "Member")
    ∷ ("viewer", "Viewer")
    ∷ []

-- The properties that an update sets.
unfoldable pub organization_patch : UpdateOrganizationRequest → String → Properties
organization_patch req now = set_unless_empty "logo_url" req.logo_url (
    set_unless_empty "contact_email" req.contact_email (
      set_unless_empty "description" req.description
        (set_unless_empty "name" req.name (("updated_at", str now) ∷ []))))

module _ (E : Env) (cfg : ManagerConfig) where
  -- One round of the loop: a role of that name is kept.
  unfoldable pub seed_role : String → String × String → Action E.World (Unit {0})
  seed_role now (name, display_name) = do
    existing ← or_unavailable (E.list_entities (query cfg "Role" (("name", str name) ∷ [])))
    if is_nonempty existing then pure tt else do
      or_unavailable (
          E.create_entity (
            draft cfg "Role" (
              ("agency_id", str cfg.agency_id)
              ∷ ("name", str name)
              ∷ ("builtin", bool true)
              ∷ ("display_name", str display_name)
              ∷ ("created_at", str now)
              ∷ ("updated_at", str now)
              ∷ [])))
      pure tt

  unfoldable pub seed_roles : String → List (String × String) → Action E.World (Unit {0})
  seed_roles now [] = pure tt
  seed_roles now (b ∷ bs) = do seed_role now b; seed_roles now bs

  unfoldable pub seed_builtin_roles : String → Action E.World (Unit {0})
  seed_builtin_roles now = seed_roles now builtins

  unfoldable pub init_organization : InitOrganizationRequest → Action E.World Organization
  init_organization req = do
    existing ← or_unavailable (E.list_entities (query cfg "Organization" []))
    fail_if (is_nonempty existing) (sentinel org_already_exists)
    now ← now_text E
    e ← or_unavailable (
        E.create_entity (
          draft cfg "Organization" (
            ("agency_id", str cfg.agency_id)
            ∷ ("name", str req.name)
            ∷ ("enabled", bool true)
            ∷ ("description", str req.description)
            ∷ ("contact_email", str req.contact_email)
            ∷ ("logo_url", str req.logo_url)
            ∷ ("created_at", str now)
            ∷ ("updated_at", str now)
            ∷ [])))
    seed_builtin_roles now
    pure (entity_to_org E e)

  unfoldable pub get_organization : Action E.World Organization
  get_organization = do
    entities ← or_unavailable (E.list_entities (query cfg "Organization" []))
    e ← first_or entities (sentinel org_not_found)
    pure (entity_to_org E e)

  unfoldable pub update_organization : UpdateOrganizationRequest → Action E.World Organization
  update_organization req = do
    org ← get_organization
    now ← now_text E
    e ← or_unavailable (E.update_entity cfg.agency_id org.id (organization_patch req now))
    pure (entity_to_org E e)

  unfoldable pub disable_organization : Action E.World Organization
  disable_organization = do
    org ← get_organization
    now ← now_text E
    e ← or_unavailable (
        E.update_entity cfg.agency_id org.id
          (("enabled", bool false) ∷ ("disabled_at", str now) ∷ ("updated_at", str now) ∷ []))
    pure (entity_to_org E e)

  unfoldable pub delete_organization : Action E.World (Unit {0})
  delete_organization = do
    org ← get_organization
    or_unavailable (E.delete_entity cfg.agency_id org.id)
