-- ===== src/Refinement/Histories.antt =====
-- What holds after any sequence of calls of the manager.
use code_vald_org.Prelude.{String, List, [], ◌∷◌}
use code_vald_org.Graph.State.{Graph}
use code_vald_org.Graph.Step.{Reach, here, Reach-trans}
use code_vald_org.Graph.Sound.{IsSound, Reach-IsSound}
use code_vald_org.Graph.Builtin.{HasBuiltin, Reach-HasBuiltin}
use code_vald_org.Effects.{Env}
use code_vald_org.Models.{ManagerConfig}
use code_vald_org.Store.Lawful.{IsLawful}
use code_vald_org.Store.Keeps.{Keeps, keeps_rules}
use code_vald_org.Manager.Operations.{Operation, perform, serve}
use code_vald_org.Manager.Operations.{init_organization}
use code_vald_org.Refinement.Plain.{
  get_user-Keeps, list_users-Keeps, suspend_user-Keeps, reactivate_user-Keeps, delete_user-Keeps,
  grant_membership-Keeps, revoke_membership-Keeps, memberships_of-Keeps, list_memberships-Keeps,
  update_role-Keeps, list_roles-Keeps, deprecate_scope-Keeps, list_scopes-Keeps,
  get_organization-Keeps, disable_organization-Keeps, list_oauth_clients-Keeps, authorize-Keeps,
  token-Keeps, introspect_found-Keeps, list_audit_events-Keeps, introspect_listed-Keeps,
  introspect_unless-Keeps, introspect-Keeps, revoke-Keeps, create_oauth_client-Keeps,
  rotate_client_secret-Keeps, accept_invitation-Keeps,
}
use code_vald_org.Refinement.Keyed.{
  create_role-Keeps, init_organization-Keeps, invite_user-Keeps, register_scope-Keeps,
}
use code_vald_org.Refinement.Found.{
  delete_role-Keeps, delete_oauth_client-Keeps, delete_organization-Keeps,
  update_organization-Keeps,
}

pub ruleset operation_rules = (
  keeps_rules, get_user-Keeps, list_users-Keeps, suspend_user-Keeps, reactivate_user-Keeps,
  delete_user-Keeps, grant_membership-Keeps, revoke_membership-Keeps, memberships_of-Keeps,
  list_memberships-Keeps, update_role-Keeps, list_roles-Keeps, deprecate_scope-Keeps,
  list_scopes-Keeps, get_organization-Keeps, disable_organization-Keeps, list_oauth_clients-Keeps,
  authorize-Keeps, token-Keeps, introspect_found-Keeps, list_audit_events-Keeps,
  introspect_listed-Keeps, introspect_unless-Keeps, introspect-Keeps, revoke-Keeps,
  create_oauth_client-Keeps, rotate_client_secret-Keeps, accept_invitation-Keeps, create_role-Keeps,
  init_organization-Keeps, invite_user-Keeps, register_scope-Keeps, delete_role-Keeps,
  delete_oauth_client-Keeps, delete_organization-Keeps, update_organization-Keeps,
)

module _ (E : Env) (view : E.World → Graph) (L : IsLawful E view) (cfg : ManagerConfig) where
  perform-Keeps : (o : Operation) → Keeps E view (perform E cfg o)
  unfolding perform
  perform-Keeps (init_organization req) = search operation_rules
  perform-Keeps _ = search operation_rules

  -- Whatever a call of the manager returns, the graph has moved by steps of the specification only.
  pub perform-Reach : (o : Operation) (w : E.World) → Reach (view w) (view (perform E cfg o w).1)
  perform-Reach o w = (perform-Keeps o).at w

  pub serve-Reach : (os : List Operation) (w : E.World) → Reach (view w) (view (serve E cfg os w))
  unfolding serve
  serve-Reach [] w = here
  serve-Reach (o ∷ os) w = Reach-trans (perform-Reach o w) (serve-Reach os (perform E cfg o w).1)

  -- If ids and keys are unique in the graph (one Organization to an agency, one User to an email, one
  -- Role to a name, one Scope to a name), they are unique after any calls, failed ones included.
  pub serve-IsSound :
      (os : List Operation) (w : E.World) → IsSound (view w) → IsSound (view (serve E cfg os w))
  serve-IsSound os w s = Reach-IsSound (serve-Reach os w) s

  -- In a graph with unique ids and keys, a built-in role is still there, with its id, name and flag,
  -- after any calls.
  pub serve-HasBuiltin :
      (os : List Operation) (agency id name : String) (w : E.World)
      → IsSound (view w)
      → HasBuiltin agency id name (view w)
      → HasBuiltin agency id name (view (serve E cfg os w))
  serve-HasBuiltin os agency id name w s k = Reach-HasBuiltin agency id name (serve-Reach os w) s k
