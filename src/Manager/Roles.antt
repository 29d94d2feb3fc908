-- ===== src/Manager/Roles.antt =====
-- roles_scopes.go: roles.
use code_vald_org.Prelude.{String, false, List, [], ◌∷◌, map}
use code_vald_org.Errors.{sentinel, role_already_exists, role_not_found, role_builtin_immutable}
use code_vald_org.Graph.{str, bool}
use code_vald_org.Effects.{Env, Action, pure, fail_if, or_fail, is_nonempty, ◌>>=◌, ◌>>◌}
use code_vald_org.Models.{Role, ManagerConfig}
use code_vald_org.Models.Requests.{CreateRoleRequest, UpdateRoleRequest, ListRequest}
use code_vald_org.Helpers.{entity_to_role, prop_bool}
use code_vald_org.Manager.Calls.{or_unavailable, set_unless_empty, query, draft, now_text}

module _ (E : Env) (cfg : ManagerConfig) where
  unfoldable pub create_role : CreateRoleRequest → Action E.World Role
  create_role req = do
    existing ← or_unavailable (E.list_entities (query cfg "Role" (("name", str req.name) ∷ [])))
    fail_if (is_nonempty existing) (sentinel role_already_exists)
    now ← now_text E
    e ← or_unavailable (
        E.create_entity (
          draft cfg "Role" (
            ("agency_id", str cfg.agency_id)
            ∷ ("name", str req.name)
            ∷ ("builtin", bool false)
            ∷ ("display_name", str req.display_name)
            ∷ ("description", str req.description)
            ∷ ("created_at", str now)
            ∷ ("updated_at", str now)
            ∷ [])))
    pure (entity_to_role E e)

  unfoldable pub update_role : String → UpdateRoleRequest → Action E.World Role
  update_role role_id req = do
    existing ← or_fail (E.get_entity cfg.agency_id role_id) (sentinel role_not_found)
    fail_if (prop_bool existing.properties "builtin") (sentinel role_builtin_immutable)
    now ← now_text E
    let props =
        set_unless_empty "description" req.description
          (set_unless_empty "display_name" req.display_name (("updated_at", str now) ∷ []))
    e ← or_unavailable (E.update_entity cfg.agency_id role_id props)
    pure (entity_to_role E e)

  unfoldable pub delete_role : String → Action E.World (Unit {0})
  delete_role role_id = do
    existing ← or_fail (E.get_entity cfg.agency_id role_id) (sentinel role_not_found)
    fail_if (prop_bool existing.properties "builtin") (sentinel role_builtin_immutable)
    or_unavailable (E.delete_entity cfg.agency_id role_id)

  unfoldable pub list_roles : ListRequest → Action E.World (List Role)
  list_roles req = do
    entities ← or_unavailable (E.list_entities (query cfg "Role" []))
    pure (map (entity_to_role E) entities)
