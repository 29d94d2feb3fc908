-- ===== src/Schema/Histories.antt =====
-- The manager against the schema: all that any sequence of calls asks of the store.
use code_vald_org.Prelude.{◌==◌, ◌≡◌, Bool, true, All, List, [], ◌∷◌, if◌then◌else◌}
use code_vald_org.Effects.{Env}
use code_vald_org.Models.{ManagerConfig}
use code_vald_org.Manager.Operations.{Operation, create_oauth_client, revoke, perform, serve}
use code_vald_org.Store.Preserves.{Preserves-then, Preserves-pure}
use code_vald_org.Schema.Recording.{Recording, recording}
use code_vald_org.Schema.Writes.{IsDeclared, Declares, declares_rules}
use code_vald_org.Schema.Plain.{
  get_user-Declares, list_users-Declares, suspend_user-Declares, reactivate_user-Declares,
  delete_user-Declares, get_organization-Declares, update_organization-Declares,
  disable_organization-Declares, delete_organization-Declares, init_organization-Declares,
  create_role-Declares, update_role-Declares, delete_role-Declares, list_roles-Declares,
  register_scope-Declares, deprecate_scope-Declares, list_scopes-Declares,
  grant_membership-Declares, revoke_membership-Declares, list_memberships-Declares,
}
use code_vald_org.Schema.TokenWrites.{
  client_types, reasons, is_one_of, invite_user-Declares, accept_invitation-Declares,
  create_oauth_client-Declares, rotate_client_secret-Declares, list_oauth_clients-Declares,
  delete_oauth_client-Declares, authorize-Declares, token-Declares, introspect-Declares,
  revoke-Declares, list_audit_events-Declares,
}

-- The two values of a request that are stored under an option of the schema are among its options.
abbrev pub has_options : Operation → Bool
has_options (create_oauth_client req) = is_one_of client_types req.client_type
has_options (revoke text reason) =
    is_one_of reasons (if reason == "" then "user_logout" else reason)
has_options _ = true

ruleset operation_rules = (
  declares_rules, get_user-Declares, list_users-Declares, suspend_user-Declares,
  reactivate_user-Declares, delete_user-Declares, get_organization-Declares,
  update_organization-Declares, disable_organization-Declares, delete_organization-Declares,
  init_organization-Declares, create_role-Declares, update_role-Declares, delete_role-Declares,
  list_roles-Declares, register_scope-Declares, deprecate_scope-Declares, list_scopes-Declares,
  grant_membership-Declares, revoke_membership-Declares, list_memberships-Declares,
  invite_user-Declares, accept_invitation-Declares, rotate_client_secret-Declares,
  list_oauth_clients-Declares, delete_oauth_client-Declares, authorize-Declares, token-Declares,
  introspect-Declares, list_audit_events-Declares,
)

module _ (E : Env) (cfg : ManagerConfig) where
  perform-Declares :
      (o : Operation) → has_options o ≡ true → Declares E (perform (recording E) cfg o)
  unfolding perform
  perform-Declares (Operation.init_organization req) h = search operation_rules
  perform-Declares Operation.get_organization h = search operation_rules
  perform-Declares Operation.disable_organization h = search operation_rules
  perform-Declares Operation.delete_organization h = search operation_rules
  perform-Declares (Operation.update_organization req) h = search operation_rules
  perform-Declares (Operation.invite_user req) h = search operation_rules
  perform-Declares (Operation.accept_invitation text) h = search operation_rules
  perform-Declares (Operation.get_user id) h = search operation_rules
  perform-Declares (Operation.suspend_user id) h = search operation_rules
  perform-Declares (Operation.reactivate_user id) h = search operation_rules
  perform-Declares (Operation.delete_user id) h = search operation_rules
  perform-Declares (Operation.list_users req) h = search operation_rules
  perform-Declares (Operation.create_role req) h = search operation_rules
  perform-Declares (Operation.update_role id req) h = search operation_rules
  perform-Declares (Operation.delete_role id) h = search operation_rules
  perform-Declares (Operation.list_roles req) h = search operation_rules
  perform-Declares (Operation.list_scopes req) h = search operation_rules
  perform-Declares (Operation.list_oauth_clients req) h = search operation_rules
  perform-Declares (Operation.register_scope req) h = search operation_rules
  perform-Declares (Operation.deprecate_scope id) h = search operation_rules
  perform-Declares (Operation.revoke_membership id) h = search operation_rules
  perform-Declares (Operation.rotate_client_secret id) h = search operation_rules
  perform-Declares (Operation.delete_oauth_client id) h = search operation_rules
  perform-Declares (Operation.grant_membership req) h = search operation_rules
  perform-Declares (Operation.list_memberships req) h = search operation_rules
  perform-Declares (Operation.create_oauth_client req) h =
      Preserves-then IsDeclared _ _ (create_oauth_client-Declares E cfg req h)
        (Preserves-pure IsDeclared tt)
  perform-Declares (Operation.authorize req) h = search operation_rules
  perform-Declares (Operation.token req) h = search operation_rules
  perform-Declares (Operation.introspect text) h = search operation_rules
  perform-Declares (Operation.revoke text reason) h = revoke-Declares E cfg text reason h
  perform-Declares (Operation.list_audit_events filter) h = search operation_rules

  -- Whatever the store answers, all that the calls ask of it is declared by the schema: each entity is
  -- of a declared type, has declared properties only, with values of their types, and has those that
  -- are required; each patch has declared properties of one type that is not immutable; and each edge
  -- has a declared name. The calls are such that a client's type and a reason for a revocation are
  -- among the schema's options.
  pub serve-IsDeclared :
      (os : List Operation) (w : Recording E.World)
      → All (λ o. has_options o ≡ true) os
      → IsDeclared w
      → IsDeclared (serve (recording E) cfg os w)
  unfolding serve
  serve-IsDeclared [] w h d = d
  serve-IsDeclared (o ∷ os) w h d =
      serve-IsDeclared os (perform (recording E) cfg o w).1 h.1 ((perform-Declares o h.0).at w d)
