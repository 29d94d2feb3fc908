-- ===== src/Manager/Users.antt =====
-- org_lifecycle.go: users.
use code_vald_org.Prelude.{String, ◌==◌, not, List, [], ◌∷◌, map, if◌then◌else◌}
use code_vald_org.Errors.{sentinel, wrap, user_not_found}
use code_vald_org.Graph.{str, Properties}
use code_vald_org.Effects.{Env, Action, pure, fail_if, on_error, ◌>>=◌, ◌>>◌}
use code_vald_org.Models.{User, ManagerConfig}
use code_vald_org.Models.Requests.{ListUsersRequest}
use code_vald_org.Helpers.{entity_to_user}
use code_vald_org.Manager.Calls.{or_unavailable, query, now_text}

module _ (E : Env) (cfg : ManagerConfig) where
  unfoldable pub get_user : String → Action E.World User
  get_user user_id = do
    e ← on_error (E.get_entity cfg.agency_id user_id) (λ e. wrap (sentinel user_not_found) e)
    fail_if (not (e.type_id == "User")) (sentinel user_not_found)
    pure (entity_to_user E e)

  unfoldable pub list_users : ListUsersRequest → Action E.World (List User)
  list_users req = do
    let props : Properties =
        if req.status_filter == "" then [] else ("status", str req.status_filter) ∷ []
    entities ← or_unavailable (E.list_entities (query cfg "User" props))
    pure (map (entity_to_user E) entities)

  unfoldable pub suspend_user : String → Action E.World User
  suspend_user user_id = do
    get_user user_id
    now ← now_text E
    e ← or_unavailable (
        E.update_entity cfg.agency_id user_id
          (("status", str "suspended") ∷ ("updated_at", str now) ∷ []))
    pure (entity_to_user E e)

  unfoldable pub reactivate_user : String → Action E.World User
  reactivate_user user_id = do
    get_user user_id
    now ← now_text E
    e ← or_unavailable (
        E.update_entity cfg.agency_id user_id
          (("status", str "active") ∷ ("updated_at", str now) ∷ []))
    pure (entity_to_user E e)

  unfoldable pub delete_user : String → Action E.World (Unit {0})
  delete_user user_id = do
    get_user user_id
    now ← now_text E
    or_unavailable (
        E.update_entity cfg.agency_id user_id
          (("status", str "deleted") ∷ ("deleted_at", str now) ∷ ("updated_at", str now) ∷ []))
    pure tt
