-- ===== src/Manager/Scopes.antt =====
-- roles_scopes.go: scopes.
pub mod Grammar
pub mod Names
use code_vald_org.Prelude.{String, ◌==◌, Bool, true, false, not, ◌&&◌, List, [], ◌∷◌, map, any}
use code_vald_org.Errors.{
  sentinel, invalid_scope, scope_reserved, scope_name_collision, scope_not_found,
}
use code_vald_org.Graph.{str, Entity}
use code_vald_org.Effects.{Env, Action, pure, fail_if, or_fail, ◌>>=◌, ◌>>◌}
use code_vald_org.Models.{Scope, ManagerConfig}
use code_vald_org.Models.Requests.{RegisterScopeRequest, ListRequest}
use code_vald_org.Helpers.{entity_to_scope}
use code_vald_org.Manager.Calls.{or_unavailable, query, draft, now_text}
use Grammar.{scope_grammar, before_colon}

abbrev pub reserved_prefixes : List String
reserved_prefixes = "org" ∷ "audit" ∷ []

-- The loop over the reserved prefixes: whether some round returns ErrScopeReserved.
abbrev pub is_refused : String → String → List String → Bool
is_refused prefix registered_by rps =
    any (λ rp. prefix == rp && not (registered_by == "codevaldorg")) rps

module _ (E : Env) (cfg : ManagerConfig) where
  -- What follows the lookup: `existing[0]` is refreshed, or a scope is created.
  unfoldable pub register_over : RegisterScopeRequest → String → List Entity → Action E.World Scope
  register_over req now (old ∷ others) = do
    fail_if (not ((entity_to_scope E old).registered_by == req.registered_by))
        (sentinel scope_name_collision)
    e ← or_unavailable (
        E.update_entity cfg.agency_id old.id (
          ("description", str req.description)
          ∷ ("updated_at", str now)
          ∷ ("deprecated_at", str "")
          ∷ []))
    pure (entity_to_scope E e)
  register_over req now [] = do
    e ← or_unavailable (
        E.create_entity (
          draft cfg "Scope" (
            ("agency_id", str cfg.agency_id)
            ∷ ("name", str req.name)
            ∷ ("registered_by", str req.registered_by)
            ∷ ("description", str req.description)
            ∷ ("created_at", str now)
            ∷ ("updated_at", str now)
            ∷ [])))
    pure (entity_to_scope E e)

  unfoldable pub register_scope : RegisterScopeRequest → Action E.World Scope
  register_scope req = do
    fail_if (not (scope_grammar req.name)) (sentinel invalid_scope)
    fail_if (is_refused (before_colon req.name) req.registered_by reserved_prefixes)
        (sentinel scope_reserved)
    existing ← or_unavailable (E.list_entities (query cfg "Scope" (("name", str req.name) ∷ [])))
    now ← now_text E
    register_over req now existing

  unfoldable pub deprecate_scope : String → Action E.World Scope
  deprecate_scope scope_id = do
    or_fail (E.get_entity cfg.agency_id scope_id) (sentinel scope_not_found)
    now ← now_text E
    e ← or_unavailable (
        E.update_entity cfg.agency_id scope_id
          (("deprecated_at", str now) ∷ ("updated_at", str now) ∷ []))
    pure (entity_to_scope E e)

  unfoldable pub list_scopes : ListRequest → Action E.World (List Scope)
  list_scopes req = do
    entities ← or_unavailable (E.list_entities (query cfg "Scope" []))
    pure (map (entity_to_scope E) entities)
