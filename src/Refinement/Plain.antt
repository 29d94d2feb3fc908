-- ===== src/Refinement/Plain.antt =====
-- Operations that follow the specification by their form alone.
use code_vald_org.Prelude.{ℕ, String, List, [], ◌∷◌}
use code_vald_org.Graph.{Entity}
use code_vald_org.Graph.State.{Graph}
use code_vald_org.Effects.{Env, Action, Result, ok, err}
use code_vald_org.Models.{ManagerConfig}
use code_vald_org.Models.Requests.{
  ListUsersRequest, GrantMembershipRequest, ListMembershipsRequest, UpdateRoleRequest, ListRequest,
  AuthorizeRequest, TokenRequest, AuditEventFilter, CreateOAuthClientRequest,
}
use code_vald_org.Store.Lawful.{IsLawful}
use code_vald_org.Store.Keeps.{Keeps, Keeps-bind, Keeps-then, keeps_rules}
use code_vald_org.Graph.Lookup.{is_neutral-set_unless_empty}
use code_vald_org.Manager.Users.{get_user, list_users, suspend_user, reactivate_user, delete_user}
use code_vald_org.Manager.Memberships.{
  grant_membership, revoke_membership, memberships_of, list_memberships,
}
use code_vald_org.Manager.Roles.{update_role, list_roles}
use code_vald_org.Manager.Scopes.{deprecate_scope, list_scopes}
use code_vald_org.Manager.Organizations.{get_organization, disable_organization}
use code_vald_org.Manager.Clients.{
  list_oauth_clients, create_client_secret, secret_of_type, add_redirect_uris, allow_scopes,
  create_oauth_client, rotate_client_secret,
}
use code_vald_org.Manager.Invitations.{accept_invitation}
use code_vald_org.Crypto.{hash_argon2id}
use code_vald_org.Manager.Tokens.{
  authorize, token, introspect_found, introspect_listed, introspect_unless, introspect, expiry_or,
  find_expiry, revoke, list_audit_events,
}

module _ (E : Env) (view : E.World → Graph) (L : IsLawful E view) (cfg : ManagerConfig) where
  pub get_user-Keeps : (id : String) → Keeps E view (get_user E cfg id)
  unfolding get_user
  get_user-Keeps id = search keeps_rules depth 12

  pub list_users-Keeps : (req : ListUsersRequest) → Keeps E view (list_users E cfg req)
  unfolding list_users
  list_users-Keeps req = search keeps_rules depth 12

  pub suspend_user-Keeps : (id : String) → Keeps E view (suspend_user E cfg id)
  unfolding suspend_user
  suspend_user-Keeps id = search (keeps_rules, get_user-Keeps) depth 12

  pub reactivate_user-Keeps : (id : String) → Keeps E view (reactivate_user E cfg id)
  unfolding reactivate_user
  reactivate_user-Keeps id = search (keeps_rules, get_user-Keeps) depth 12

  pub delete_user-Keeps : (id : String) → Keeps E view (delete_user E cfg id)
  unfolding delete_user
  delete_user-Keeps id = search (keeps_rules, get_user-Keeps) depth 12

  pub grant_membership-Keeps :
      (req : GrantMembershipRequest) → Keeps E view (grant_membership E cfg req)
  unfolding grant_membership
  grant_membership-Keeps req = search keeps_rules depth 12

  pub revoke_membership-Keeps : (id : String) → Keeps E view (revoke_membership E cfg id)
  unfolding revoke_membership
  revoke_membership-Keeps id = search keeps_rules depth 12

  pub memberships_of-Keeps :
      (id : String) (entities : List Entity) → Keeps E view (memberships_of E cfg id entities)
  unfolding memberships_of
  memberships_of-Keeps id entities = search keeps_rules depth 12

  pub list_memberships-Keeps :
      (req : ListMembershipsRequest) → Keeps E view (list_memberships E cfg req)
  unfolding list_memberships
  list_memberships-Keeps req = search (keeps_rules, memberships_of-Keeps) depth 12

  pub update_role-Keeps :
      (id : String) (req : UpdateRoleRequest) → Keeps E view (update_role E cfg id req)
  unfolding update_role
  update_role-Keeps id req = search (keeps_rules, is_neutral-set_unless_empty) depth 12

  pub list_roles-Keeps : (req : ListRequest) → Keeps E view (list_roles E cfg req)
  unfolding list_roles
  list_roles-Keeps req = search keeps_rules depth 12

  pub deprecate_scope-Keeps : (id : String) → Keeps E view (deprecate_scope E cfg id)
  unfolding deprecate_scope
  deprecate_scope-Keeps id = search keeps_rules depth 12

  pub list_scopes-Keeps : (req : ListRequest) → Keeps E view (list_scopes E cfg req)
  unfolding list_scopes
  list_scopes-Keeps req = search keeps_rules depth 12

  pub get_organization-Keeps : Keeps E view (get_organization E cfg)
  unfolding get_organization
  get_organization-Keeps = search keeps_rules depth 12

  pub disable_organization-Keeps : Keeps E view (disable_organization E cfg)
  unfolding disable_organization
  disable_organization-Keeps = search (keeps_rules, get_organization-Keeps) depth 12

  pub list_oauth_clients-Keeps : (req : ListRequest) → Keeps E view (list_oauth_clients E cfg req)
  unfolding list_oauth_clients
  list_oauth_clients-Keeps req = search keeps_rules depth 12

  pub authorize-Keeps : (req : AuthorizeRequest) → Keeps E view (authorize E cfg req)
  unfolding authorize
  authorize-Keeps req = search keeps_rules depth 12

  pub token-Keeps : (req : TokenRequest) → Keeps E view (token E cfg req)
  unfolding token
  token-Keeps req = search keeps_rules depth 12

  pub introspect_found-Keeps : (t : Entity) → Keeps E view (introspect_found E cfg t)
  unfolding introspect_found
  introspect_found-Keeps t = search keeps_rules depth 12

  pub list_audit_events-Keeps :
      (filter : AuditEventFilter) → Keeps E view (list_audit_events E cfg filter)
  unfolding list_audit_events
  list_audit_events-Keeps filter = search keeps_rules depth 12

  pub introspect_listed-Keeps :
      (r : Result (List Entity)) → Keeps E view (introspect_listed E cfg r)
  unfolding introspect_listed
  introspect_listed-Keeps (err e) = search keeps_rules
  introspect_listed-Keeps (ok []) = search keeps_rules
  introspect_listed-Keeps (ok (t ∷ ts)) = introspect_found-Keeps t

  pub introspect_unless-Keeps :
      (h : String) (r : Result (List Entity)) → Keeps E view (introspect_unless E cfg h r)
  unfolding introspect_unless
  introspect_unless-Keeps h (err e) = search keeps_rules
  introspect_unless-Keeps h (ok (x ∷ xs)) = search keeps_rules
  introspect_unless-Keeps h (ok []) = search (keeps_rules, introspect_listed-Keeps)

  pub introspect-Keeps : (text : String) → Keeps E view (introspect E cfg text)
  unfolding introspect
  introspect-Keeps text = search (keeps_rules, introspect_unless-Keeps)

  expiry_or-Keeps :
      (r : Result (List Entity)) (rest : Action E.World String)
      → Keeps E view rest
      → Keeps E view (expiry_or E cfg r rest)
  unfolding expiry_or
  expiry_or-Keeps (err e) rest k = k
  expiry_or-Keeps (ok []) rest k = k
  expiry_or-Keeps (ok (t ∷ ts)) rest k = search keeps_rules

  find_expiry-Keeps : (h : String) (types : List String) → Keeps E view (find_expiry E cfg h types)
  unfolding find_expiry
  find_expiry-Keeps h [] = search keeps_rules
  find_expiry-Keeps h (t ∷ ts) =
      Keeps-bind E view _ _ (search keeps_rules) (λ r. expiry_or-Keeps r _ (find_expiry-Keeps h ts))

  pub revoke-Keeps : (text reason : String) → Keeps E view (revoke E cfg text reason)
  unfolding revoke
  revoke-Keeps text reason = search (keeps_rules, find_expiry-Keeps) depth 12

  hash_argon2id-Keeps :
      (password : String) (t m p : ℕ) → Keeps E view (hash_argon2id E password t m p)
  unfolding hash_argon2id
  hash_argon2id-Keeps password t m p = search keeps_rules

  create_client_secret-Keeps : (id now : String) → Keeps E view (create_client_secret E cfg id now)
  unfolding create_client_secret
  create_client_secret-Keeps id now = search (keeps_rules, hash_argon2id-Keeps) depth 14

  secret_of_type-Keeps : (type id now : String) → Keeps E view (secret_of_type E cfg type id now)
  unfolding secret_of_type
  secret_of_type-Keeps type id now = search (keeps_rules, create_client_secret-Keeps)

  add_redirect_uris-Keeps :
      (id now : String) (uris : List String) → Keeps E view (add_redirect_uris E cfg id now uris)
  unfolding add_redirect_uris
  add_redirect_uris-Keeps id now [] = search keeps_rules
  add_redirect_uris-Keeps id now (uri ∷ uris) =
      Keeps-bind E view _ _ (search keeps_rules)
        (λ e. Keeps-then E view _ _ (search keeps_rules) (add_redirect_uris-Keeps id now uris))

  allow_scopes-Keeps : (id : String) (ids : List String) → Keeps E view (allow_scopes E cfg id ids)
  unfolding allow_scopes
  allow_scopes-Keeps id [] = search keeps_rules
  allow_scopes-Keeps id (s ∷ ids) =
      Keeps-then E view _ _ (search keeps_rules) (allow_scopes-Keeps id ids)

  pub create_oauth_client-Keeps :
      (req : CreateOAuthClientRequest) → Keeps E view (create_oauth_client E cfg req)
  unfolding create_oauth_client
  create_oauth_client-Keeps req =
      search (keeps_rules, add_redirect_uris-Keeps, allow_scopes-Keeps, secret_of_type-Keeps) depth
        16

  pub rotate_client_secret-Keeps : (id : String) → Keeps E view (rotate_client_secret E cfg id)
  unfolding rotate_client_secret
  rotate_client_secret-Keeps id = search (keeps_rules, create_client_secret-Keeps) depth 12

  -- Accepting an invitation patches a status only.
  pub accept_invitation-Keeps : (text : String) → Keeps E view (accept_invitation E cfg text)
  unfolding accept_invitation
  accept_invitation-Keeps text = search keeps_rules depth 20
