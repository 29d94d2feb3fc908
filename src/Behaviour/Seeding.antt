-- ===== src/Behaviour/Seeding.antt =====
-- org_lifecycle.go: what InitOrganization leaves in the graph.
use code_vald_org.Prelude.{String, ◌≡◌, true, ◌⊎◌, [], ◌∷◌}
use code_vald_org.Graph.{str, bool, Entity, CreateEntityRequest}
use code_vald_org.Graph.State.{Graph, Occurs, selects}
use code_vald_org.Effects.{Env}
use code_vald_org.Models.{ManagerConfig}
use code_vald_org.Models.Requests.{InitOrganizationRequest}
use code_vald_org.Helpers.{prop_bool}
use code_vald_org.Store.Lawful.{IsLawful}
use code_vald_org.Manager.Calls.{query, draft}
use code_vald_org.Behaviour.SeededRoles.{Grows, Present, role_named}

module _ (E : Env) (view : E.World → Graph) (L : IsLawful E view) (cfg : ManagerConfig) where
  -- A Role of the name is in the second graph: one that is flagged as built-in, or was in the first.
  abbrev pub HasRole : Graph → Graph → String → Type 0
  HasRole g h name =
      (a : Entity) × Occurs a h.entities
      × (selects (role_named E view L cfg name) a ≡ true)
      × (Occurs a g.entities ⊎ (prop_bool a.properties "builtin" ≡ true))

  -- What InitOrganization leaves: all that was there, an Organization, and the four built-in roles;
  -- and nothing else.
  abbrev pub Initialised : Graph → Graph → Type 0
  Initialised g h =
      Grows g h
      × Present (query cfg "Organization" []) h
      × HasRole g h "super_admin"
      × HasRole g h "admin"
      × HasRole g h "member"
      × HasRole g h "viewer"

  unfoldable organization_request : InitOrganizationRequest → String → CreateEntityRequest
  organization_request req now = draft cfg "Organization" (
      ("agency_id", str cfg.agency_id)
      ∷ ("name", str req.name)
      ∷ ("enabled", bool true)
      ∷ ("description", str req.description)
      ∷ ("contact_email", str req.contact_email)
      ∷ ("logo_url", str req.logo_url)
      ∷ ("created_at", str now)
      ∷ ("updated_at", str now)
      ∷ [])
