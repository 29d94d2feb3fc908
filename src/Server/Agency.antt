-- ===== src/Server/Agency.antt =====
-- internal/server/server.go: the agency check of all methods, and what a call does to the graph.
use code_vald_org.Prelude.{String, ◌==◌, ◌≡◌, refl, false, some, Bool-cases, inl, inr}
use code_vald_org.Graph.State.{Graph}
use code_vald_org.Graph.Step.{Reach, here}
use code_vald_org.Effects.{Env, Action}
use code_vald_org.Models.{ManagerConfig}
use code_vald_org.Store.Lawful.{IsLawful}
use code_vald_org.Store.Keeps.{Keeps}
use code_vald_org.Refinement.Histories.{operation_rules}
use code_vald_org.Server.Mappers.{permission_denied}
use code_vald_org.Server.Reply.{with_agency, answer, agency_mismatch, Call}
use code_vald_org.Server.Service.{Rpc, agency_of, handle, outcome}
use code_vald_org.Server.Organizations
use code_vald_org.Server.Users
use code_vald_org.Server.Access
use code_vald_org.Server.OAuth

outcome-mismatch :
    {W A : Type 0} (own requested : String) (call : Call W A) (w : W)
    → (requested == own) ≡ false
    → outcome (with_agency own requested call) w ≡ (some agency_mismatch, w)
unfolding outcome with_agency
outcome-mismatch own requested call w e = rw e refl

-- Every method refuses a request for another agency with PermissionDenied, and the store, the clock
-- and the random source are as before: none was called.
pub handle-mismatch :
    (E : Env) (cfg : ManagerConfig) (own : String) (q : Rpc) (w : E.World)
    → (agency_of q == own) ≡ false
    → handle E cfg own q w
      ≡ (some (record { code = permission_denied; message = "agency_id mismatch" }), w)
unfolding handle Organizations.init_organization Organizations.get_organization
    Organizations.update_organization Organizations.disable_organization
    Organizations.delete_organization Users.invite_user Users.accept_invitation Users.get_user
    Users.list_users Users.suspend_user Users.reactivate_user Users.delete_user Access.create_role
    Access.update_role Access.delete_role Access.list_roles Access.register_scope
    Access.deprecate_scope Access.list_scopes Access.grant_membership Access.revoke_membership
    Access.list_memberships OAuth.create_oauth_client OAuth.rotate_client_secret
    OAuth.list_oauth_clients OAuth.delete_oauth_client OAuth.authorize OAuth.token OAuth.introspect
    OAuth.revoke OAuth.list_audit_events
handle-mismatch E cfg own (Rpc.init_organization req) w e = outcome-mismatch own req.agency_id _ w e
handle-mismatch E cfg own (Rpc.get_organization req) w e = outcome-mismatch own req.agency_id _ w e
handle-mismatch E cfg own (Rpc.update_organization req) w e =
    outcome-mismatch own req.agency_id _ w e
handle-mismatch E cfg own (Rpc.disable_organization req) w e =
    outcome-mismatch own req.agency_id _ w e
handle-mismatch E cfg own (Rpc.delete_organization req) w e =
    outcome-mismatch own req.agency_id _ w e
handle-mismatch E cfg own (Rpc.invite_user req) w e = outcome-mismatch own req.agency_id _ w e
handle-mismatch E cfg own (Rpc.accept_invitation req) w e = outcome-mismatch own req.agency_id _ w e
handle-mismatch E cfg own (Rpc.get_user req) w e = outcome-mismatch own req.agency_id _ w e
handle-mismatch E cfg own (Rpc.list_users req) w e = outcome-mismatch own req.agency_id _ w e
handle-mismatch E cfg own (Rpc.suspend_user req) w e = outcome-mismatch own req.agency_id _ w e
handle-mismatch E cfg own (Rpc.reactivate_user req) w e = outcome-mismatch own req.agency_id _ w e
handle-mismatch E cfg own (Rpc.delete_user req) w e = outcome-mismatch own req.agency_id _ w e
handle-mismatch E cfg own (Rpc.create_role req) w e = outcome-mismatch own req.agency_id _ w e
handle-mismatch E cfg own (Rpc.update_role req) w e = outcome-mismatch own req.agency_id _ w e
handle-mismatch E cfg own (Rpc.delete_role req) w e = outcome-mismatch own req.agency_id _ w e
handle-mismatch E cfg own (Rpc.list_roles req) w e = outcome-mismatch own req.agency_id _ w e
handle-mismatch E cfg own (Rpc.register_scope req) w e = outcome-mismatch own req.agency_id _ w e
handle-mismatch E cfg own (Rpc.deprecate_scope req) w e = outcome-mismatch own req.agency_id _ w e
handle-mismatch E cfg own (Rpc.list_scopes req) w e = outcome-mismatch own req.agency_id _ w e
handle-mismatch E cfg own (Rpc.grant_membership req) w e = outcome-mismatch own req.agency_id _ w e
handle-mismatch E cfg own (Rpc.revoke_membership req) w e = outcome-mismatch own req.agency_id _ w e
handle-mismatch E cfg own (Rpc.list_memberships req) w e = outcome-mismatch own req.agency_id _ w e
handle-mismatch E cfg own (Rpc.create_oauth_client req) w e =
    outcome-mismatch own req.agency_id _ w e
handle-mismatch E cfg own (Rpc.rotate_client_secret req) w e =
    outcome-mismatch own req.agency_id _ w e
handle-mismatch E cfg own (Rpc.list_oauth_clients req) w e =
    outcome-mismatch own req.agency_id _ w e
handle-mismatch E cfg own (Rpc.delete_oauth_client req) w e =
    outcome-mismatch own req.agency_id _ w e
handle-mismatch E cfg own (Rpc.authorize req) w e = outcome-mismatch own req.agency_id _ w e
handle-mismatch E cfg own (Rpc.token req) w e = outcome-mismatch own req.agency_id _ w e
handle-mismatch E cfg own (Rpc.introspect req) w e = outcome-mismatch own req.agency_id _ w e
handle-mismatch E cfg own (Rpc.revoke req) w e = outcome-mismatch own req.agency_id _ w e
handle-mismatch E cfg own (Rpc.list_audit_events req) w e = outcome-mismatch own req.agency_id _ w e

module _ (E : Env) (view : E.World → Graph) (L : IsLawful E view) (cfg : ManagerConfig)
    (own : String) where
  outcome-Reach :
      {A B : Type 0} (requested : String) (m : Action E.World A) (convert : A → B) (w : E.World)
      → Keeps E view m
      → Reach (view w) (view (outcome (with_agency own requested (answer E m convert)) w).1)
  unfolding outcome with_agency answer
  outcome-Reach requested m convert w k = elim (Bool-cases (requested == own)) [
    | inl same ↦ rw same (k.at w)
    | inr other_ ↦ rw other_ here
  ]

  -- Whatever the request and the answer, a call of the service moves the graph by steps of the
  -- specification only.
  pub handle-Reach : (q : Rpc) (w : E.World) → Reach (view w) (view (handle E cfg own q w).1)
  unfolding handle Organizations.init_organization Organizations.get_organization
      Organizations.update_organization Organizations.disable_organization
      Organizations.delete_organization Users.invite_user Users.accept_invitation Users.get_user
      Users.list_users Users.suspend_user Users.reactivate_user Users.delete_user Access.create_role
      Access.update_role Access.delete_role Access.list_roles Access.register_scope
      Access.deprecate_scope Access.list_scopes Access.grant_membership Access.revoke_membership
      Access.list_memberships OAuth.create_oauth_client OAuth.rotate_client_secret
      OAuth.list_oauth_clients OAuth.delete_oauth_client OAuth.authorize OAuth.token
      OAuth.introspect OAuth.revoke OAuth.list_audit_events
  handle-Reach (Rpc.init_organization req) w =
      outcome-Reach req.agency_id _ _ w (search operation_rules)
  handle-Reach (Rpc.get_organization req) w =
      outcome-Reach req.agency_id _ _ w (search operation_rules)
  handle-Reach (Rpc.update_organization req) w =
      outcome-Reach req.agency_id _ _ w (search operation_rules)
  handle-Reach (Rpc.disable_organization req) w =
      outcome-Reach req.agency_id _ _ w (search operation_rules)
  handle-Reach (Rpc.delete_organization req) w =
      outcome-Reach req.agency_id _ _ w (search operation_rules)
  handle-Reach (Rpc.invite_user req) w = outcome-Reach req.agency_id _ _ w (search operation_rules)
  handle-Reach (Rpc.accept_invitation req) w =
      outcome-Reach req.agency_id _ _ w (search operation_rules)
  handle-Reach (Rpc.get_user req) w = outcome-Reach req.agency_id _ _ w (search operation_rules)
  handle-Reach (Rpc.list_users req) w = outcome-Reach req.agency_id _ _ w (search operation_rules)
  handle-Reach (Rpc.suspend_user req) w = outcome-Reach req.agency_id _ _ w (search operation_rules)
  handle-Reach (Rpc.reactivate_user req) w =
      outcome-Reach req.agency_id _ _ w (search operation_rules)
  handle-Reach (Rpc.delete_user req) w = outcome-Reach req.agency_id _ _ w (search operation_rules)
  handle-Reach (Rpc.create_role req) w = outcome-Reach req.agency_id _ _ w (search operation_rules)
  handle-Reach (Rpc.update_role req) w = outcome-Reach req.agency_id _ _ w (search operation_rules)
  handle-Reach (Rpc.delete_role req) w = outcome-Reach req.agency_id _ _ w (search operation_rules)
  handle-Reach (Rpc.list_roles req) w = outcome-Reach req.agency_id _ _ w (search operation_rules)
  handle-Reach (Rpc.register_scope req) w =
      outcome-Reach req.agency_id _ _ w (search operation_rules)
  handle-Reach (Rpc.deprecate_scope req) w =
      outcome-Reach req.agency_id _ _ w (search operation_rules)
  handle-Reach (Rpc.list_scopes req) w = outcome-Reach req.agency_id _ _ w (search operation_rules)
  handle-Reach (Rpc.grant_membership req) w =
      outcome-Reach req.agency_id _ _ w (search operation_rules)
  handle-Reach (Rpc.revoke_membership req) w =
      outcome-Reach req.agency_id _ _ w (search operation_rules)
  handle-Reach (Rpc.list_memberships req) w =
      outcome-Reach req.agency_id _ _ w (search operation_rules)
  handle-Reach (Rpc.create_oauth_client req) w =
      outcome-Reach req.agency_id _ _ w (search operation_rules)
  handle-Reach (Rpc.rotate_client_secret req) w =
      outcome-Reach req.agency_id _ _ w (search operation_rules)
  handle-Reach (Rpc.list_oauth_clients req) w =
      outcome-Reach req.agency_id _ _ w (search operation_rules)
  handle-Reach (Rpc.delete_oauth_client req) w =
      outcome-Reach req.agency_id _ _ w (search operation_rules)
  handle-Reach (Rpc.authorize req) w = outcome-Reach req.agency_id _ _ w (search operation_rules)
  handle-Reach (Rpc.token req) w = outcome-Reach req.agency_id _ _ w (search operation_rules)
  handle-Reach (Rpc.introspect req) w = outcome-Reach req.agency_id _ _ w (search operation_rules)
  handle-Reach (Rpc.revoke req) w = outcome-Reach req.agency_id _ _ w (search operation_rules)
  handle-Reach (Rpc.list_audit_events req) w =
      outcome-Reach req.agency_id _ _ w (search operation_rules)
