-- ===== src/Tests/Calls.antt =====
-- The theorems on single calls of the manager, at concrete inputs.
use code_vald_org.Prelude.{String, ◌≡◌, refl, true, inl, [], ◌∷◌, ◌↔◌, arith}
use code_vald_org.Errors.{sentinel, invalid_scope, scope_reserved}
use code_vald_org.Graph.{str, bool, Properties, Entity}
use code_vald_org.Graph.State.{amended}
use code_vald_org.Effects.{ok, err}
use code_vald_org.Models.{User}
use code_vald_org.Models.Requests.{CreateRoleRequest, UpdateRoleRequest, RegisterScopeRequest}
use code_vald_org.Helpers.{entity_to_user}
use code_vald_org.Crypto.{decimal_from}
use code_vald_org.Store.Memory.{memory, graph_of, memory-IsLawful, find_named}
use code_vald_org.Manager.Calls.{query, manager_calls}
use code_vald_org.Manager.Scopes.{register_scope}
use code_vald_org.Manager.Scopes.Grammar.{codes, is_word, matches_scope, before_colon}
use code_vald_org.Manager.Scopes.Names.{IsScopeName, matches_scope-IsScopeName}
use code_vald_org.Manager.Users.{get_user, suspend_user, reactivate_user, delete_user}
use code_vald_org.Behaviour.Scopes.{
  codes-before_colon, register_scope-malformed, register_scope-reserved,
}
use code_vald_org.Behaviour.Users.{
  Fetched, Changed, Shows, suspension, reactivation, tombstone, get_user-Fetched,
  suspend_user-Changed, reactivate_user-Changed, delete_user-Changed,
}
use code_vald_org.Manager.Calls.{query}
use code_vald_org.Tests.Data.{entity, cfg, empty, with_user, user, unique_one}

abbrev second_admin : CreateRoleRequest
second_admin = record { name = "admin"; display_name = "A"; description = "" }

abbrev renaming : UpdateRoleRequest
renaming = record { display_name = "Owner"; description = "" }

abbrev scope_request : String → RegisterScopeRequest
scope_request name = record { name = name; registered_by = "tasks"; description = "" }

bare_name : ¬ IsScopeName (codes "tasks")
unfolding matches_scope is_word
bare_name h =
    let e : matches_scope (codes "tasks") ≡ true =
      (matches_scope-IsScopeName (codes "tasks")).1 h in
    cc

register_scope-malformed_example :
    register_scope memory cfg (scope_request "tasks") empty ≡ (err (sentinel invalid_scope), empty)
register_scope-malformed_example =
    register_scope-malformed memory graph_of memory-IsLawful cfg (scope_request "tasks") empty
      bare_name

register_scope-reserved_example :
    register_scope memory cfg (scope_request "org:read") empty
    ≡ (err (sentinel scope_reserved), empty)
unfolding is_word
register_scope-reserved_example =
    register_scope-reserved memory graph_of memory-IsLawful cfg (scope_request "org:read") "org"
      (codes "read") empty refl (inl refl) refl (omega arith) (omega arith) refl

codes-before_colon_example : codes (before_colon "org:read") ≡ codes "org"
unfolding is_word
codes-before_colon_example = codes-before_colon "org:read" (codes "org") (codes "read") refl refl

matches_scope-IsScopeName_example :
    (matches_scope (codes "org:read") ≡ true) ↔ IsScopeName (codes "org:read")
matches_scope-IsScopeName_example = matches_scope-IsScopeName (codes "org:read")

get_user-Fetched_example :
    Fetched memory graph_of memory-IsLawful cfg "u1" with_user.graph
      (get_user memory cfg "u1" with_user).0
    × (graph_of (get_user memory cfg "u1" with_user).1 ≡ graph_of with_user)
get_user-Fetched_example = get_user-Fetched memory graph_of memory-IsLawful cfg "u1" with_user

abbrev patched : Properties → User
patched p = entity_to_user memory (amended p user)

suspended_run :
    (suspend_user memory cfg "u1" with_user).0
    ≡ ok (patched (("status", str "suspended") ∷ ("updated_at", str "100") ∷ []))
unfolding suspend_user get_user manager_calls find_named decimal_from
suspended_run = refl

suspend_user-Changed_example :
    Changed memory graph_of memory-IsLawful cfg "u1"
      (suspension memory graph_of memory-IsLawful cfg)
      with_user.graph
      (graph_of (suspend_user memory cfg "u1" with_user).1)
      (Shows memory graph_of memory-IsLawful cfg
        (patched (("status", str "suspended") ∷ ("updated_at", str "100") ∷ []))
        "suspended")
suspend_user-Changed_example =
    suspend_user-Changed memory graph_of memory-IsLawful cfg "u1" _ with_user (unique_one user)
      suspended_run

reactivated_run :
    (reactivate_user memory cfg "u1" with_user).0
    ≡ ok (patched (("status", str "active") ∷ ("updated_at", str "100") ∷ []))
unfolding reactivate_user get_user manager_calls find_named decimal_from
reactivated_run = refl

reactivate_user-Changed_example :
    Changed memory graph_of memory-IsLawful cfg "u1"
      (reactivation memory graph_of memory-IsLawful cfg)
      with_user.graph
      (graph_of (reactivate_user memory cfg "u1" with_user).1)
      (Shows memory graph_of memory-IsLawful cfg
        (patched (("status", str "active") ∷ ("updated_at", str "100") ∷ []))
        "active")
reactivate_user-Changed_example =
    reactivate_user-Changed memory graph_of memory-IsLawful cfg "u1" _ with_user (unique_one user)
      reactivated_run

deleted_run : (delete_user memory cfg "u1" with_user).0 ≡ ok tt
unfolding delete_user get_user manager_calls find_named
deleted_run = refl

delete_user-Changed_example :
    Changed memory graph_of memory-IsLawful cfg "u1"
      (tombstone memory graph_of memory-IsLawful cfg)
      with_user.graph
      (graph_of (delete_user memory cfg "u1" with_user).1)
      (λ _. Unit {0})
delete_user-Changed_example =
    delete_user-Changed memory graph_of memory-IsLawful cfg "u1" with_user (unique_one user)
      deleted_run

abbrev acme_entity : Entity
acme_entity = record {
  id = "e10";
  agency_id = "a1";
  type_id = "Organization";
  properties =
      ("agency_id", str "a1")
      ∷ ("name", str "Acme")
      ∷ ("enabled", bool true)
      ∷ ("description", str "")
      ∷ ("contact_email", str "")
      ∷ ("logo_url", str "")
      ∷ ("created_at", str "100")
      ∷ ("updated_at", str "100")
      ∷ [];
}

abbrev tasks_read : Entity
tasks_read = entity "s1" "Scope" (("name", str "tasks:read") ∷ ("registered_by", str "other") ∷ [])
