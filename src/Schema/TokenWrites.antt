-- ===== src/Schema/TokenWrites.antt =====
-- The operations whose writes the schema declares: invitations, OAuth clients and tokens.
use code_vald_org.Prelude.{
  ℕ, String, ◌==◌, ◌≡◌, refl, Bool, true, List, [], ◌∷◌, any, if◌then◌else◌,
}
use code_vald_org.Graph.{str, strs, Entity}
use code_vald_org.Effects.{Env, Result, ok, err, Action}
use code_vald_org.Models.{ManagerConfig}
use code_vald_org.Models.Requests.{
  InviteUserRequest, CreateOAuthClientRequest, ListRequest, AuthorizeRequest, TokenRequest,
  AuditEventFilter,
}
use code_vald_org.Crypto.{generate_token, hash_argon2id}
use code_vald_org.Manager.Calls.{draft}
use code_vald_org.Manager.Invitations.{grant_roles, link_inviter, invite_user, accept_invitation}
use code_vald_org.Manager.Clients.{
  create_client_secret, add_redirect_uris, allow_scopes, secret_of_type, create_oauth_client,
  rotate_client_secret, list_oauth_clients, delete_oauth_client,
}
use code_vald_org.Manager.Tokens.{
  authorize, token, introspect_found, introspect_listed, introspect_unless, introspect, expiry_or,
  find_expiry, revoke, list_audit_events,
}
use code_vald_org.Store.Preserves.{Preserves-then, Preserves-bind}
use code_vald_org.Schema.{default_org_schema}
use code_vald_org.Schema.Conformance.{conforms}
use code_vald_org.Schema.Recording.{Recording, recording}
use code_vald_org.Schema.Writes.{IsDeclared, Declares, declares_rules}

-- The options that the schema gives a client's type and the reason of a revocation.
abbrev pub client_types : List String
client_types = "public" ∷ "confidential" ∷ []

abbrev pub reasons : List String
reasons = "user_logout" ∷ "admin_revoke" ∷ "refresh_reuse" ∷ "disable_org" ∷ "suspend_user" ∷ []

abbrev pub is_one_of : List String → String → Bool
is_one_of options s = any (λ o. s == o) options

module _ (E : Env) (cfg : ManagerConfig) where
  grant_roles-Declares :
      (id : String) (ids : List String) → Declares E (grant_roles (recording E) cfg id ids)
  unfolding grant_roles
  grant_roles-Declares id [] = search declares_rules
  grant_roles-Declares id (r ∷ ids) =
      Preserves-then IsDeclared _ _ (search declares_rules) (grant_roles-Declares id ids)

  link_inviter-Declares :
      (id inviter : String) → Declares E (link_inviter (recording E) cfg id inviter)
  unfolding link_inviter
  link_inviter-Declares id inviter = search declares_rules depth 12

  generate_token-Declares : (prefix : String) → Declares E (generate_token (recording E) prefix)
  unfolding generate_token
  generate_token-Declares prefix = search declares_rules depth 12

  pub invite_user-Declares :
      (req : InviteUserRequest) → Declares E (invite_user (recording E) cfg req)
  unfolding invite_user
  invite_user-Declares req =
      search (declares_rules, grant_roles-Declares, link_inviter-Declares, generate_token-Declares)
        depth 24

  pub accept_invitation-Declares :
      (text : String) → Declares E (accept_invitation (recording E) cfg text)
  unfolding accept_invitation
  accept_invitation-Declares text = search declares_rules depth 24

  hash_argon2id-Declares :
      (password : String) (t m p : ℕ) → Declares E (hash_argon2id (recording E) password t m p)
  unfolding hash_argon2id
  hash_argon2id-Declares password t m p = search declares_rules

  create_client_secret-Declares :
      (id now : String) → Declares E (create_client_secret (recording E) cfg id now)
  unfolding create_client_secret
  create_client_secret-Declares id now = search (declares_rules, hash_argon2id-Declares) depth 16

  secret_of_type-Declares :
      (type id now : String) → Declares E (secret_of_type (recording E) cfg type id now)
  unfolding secret_of_type
  secret_of_type-Declares type id now = search (declares_rules, create_client_secret-Declares)

  add_redirect_uris-Declares :
      (id now : String) (uris : List String)
      → Declares E (add_redirect_uris (recording E) cfg id now uris)
  unfolding add_redirect_uris
  add_redirect_uris-Declares id now [] = search declares_rules
  add_redirect_uris-Declares id now (uri ∷ uris) =
      Preserves-bind IsDeclared _ _ (search declares_rules) (λ e.
        Preserves-then IsDeclared _ _ (search declares_rules)
          (add_redirect_uris-Declares id now uris))

  allow_scopes-Declares :
      (id : String) (ids : List String) → Declares E (allow_scopes (recording E) cfg id ids)
  unfolding allow_scopes
  allow_scopes-Declares id [] = search declares_rules
  allow_scopes-Declares id (s ∷ ids) =
      Preserves-then IsDeclared _ _ (search declares_rules) (allow_scopes-Declares id ids)

  client_conforms :
      (req : CreateOAuthClientRequest) (id now : String)
      → is_one_of client_types req.client_type ≡ true
      → conforms default_org_schema (
          draft cfg "OAuthClient" (
            ("agency_id", str cfg.agency_id)
            ∷ ("client_id", str id)
            ∷ ("client_type", str req.client_type)
            ∷ ("name", str req.name)
            ∷ ("allowed_grant_types", strs req.allowed_grant_types)
            ∷ ("description", str req.description)
            ∷ ("created_at", str now)
            ∷ ("updated_at", str now)
            ∷ []))
        ≡ true
  client_conforms req id now h = rw h refl

  pub create_oauth_client-Declares :
      (req : CreateOAuthClientRequest)
      → is_one_of client_types req.client_type ≡ true
      → Declares E (create_oauth_client (recording E) cfg req)
  unfolding create_oauth_client
  create_oauth_client-Declares req h =
      search
        (
          declares_rules, client_conforms, add_redirect_uris-Declares, allow_scopes-Declares,
          secret_of_type-Declares,
        )
        depth 20

  pub rotate_client_secret-Declares :
      (id : String) → Declares E (rotate_client_secret (recording E) cfg id)
  unfolding rotate_client_secret
  rotate_client_secret-Declares id = search (declares_rules, create_client_secret-Declares) depth 12

  pub list_oauth_clients-Declares :
      (req : ListRequest) → Declares E (list_oauth_clients (recording E) cfg req)
  unfolding list_oauth_clients
  list_oauth_clients-Declares req = search declares_rules depth 12

  pub delete_oauth_client-Declares :
      (id : String) → Declares E (delete_oauth_client (recording E) cfg id)
  unfolding delete_oauth_client
  delete_oauth_client-Declares id = search declares_rules depth 12

  pub authorize-Declares : (req : AuthorizeRequest) → Declares E (authorize (recording E) cfg req)
  unfolding authorize
  authorize-Declares req = search declares_rules

  pub token-Declares : (req : TokenRequest) → Declares E (token (recording E) cfg req)
  unfolding token
  token-Declares req = search declares_rules

  introspect_found-Declares : (t : Entity) → Declares E (introspect_found (recording E) cfg t)
  unfolding introspect_found
  introspect_found-Declares t = search declares_rules depth 12

  introspect_listed-Declares :
      (r : Result (List Entity)) → Declares E (introspect_listed (recording E) cfg r)
  unfolding introspect_listed
  introspect_listed-Declares (err e) = search declares_rules
  introspect_listed-Declares (ok []) = search declares_rules
  introspect_listed-Declares (ok (t ∷ ts)) = introspect_found-Declares t

  introspect_unless-Declares :
      (h : String) (r : Result (List Entity)) → Declares E (introspect_unless (recording E) cfg h r)
  unfolding introspect_unless
  introspect_unless-Declares h (err e) = search declares_rules
  introspect_unless-Declares h (ok (x ∷ xs)) = search declares_rules
  introspect_unless-Declares h (ok []) = search (declares_rules, introspect_listed-Declares)

  pub introspect-Declares : (text : String) → Declares E (introspect (recording E) cfg text)
  unfolding introspect
  introspect-Declares text = search (declares_rules, introspect_unless-Declares)

  expiry_or-Declares :
      (r : Result (List Entity)) (rest : Action (Recording E.World) String)
      → Declares E rest
      → Declares E (expiry_or (recording E) cfg r rest)
  unfolding expiry_or
  expiry_or-Declares (err e) rest k = k
  expiry_or-Declares (ok []) rest k = k
  expiry_or-Declares (ok (t ∷ ts)) rest k = search declares_rules

  find_expiry-Declares :
      (h : String) (types : List String) → Declares E (find_expiry (recording E) cfg h types)
  unfolding find_expiry
  find_expiry-Declares h [] = search declares_rules
  find_expiry-Declares h (t ∷ ts) =
      Preserves-bind IsDeclared _ _ (search declares_rules)
        (λ r. expiry_or-Declares r _ (find_expiry-Declares h ts))

  revocation_conforms :
      (hash now expires_at reason : String)
      → is_one_of reasons (if reason == "" then "user_logout" else reason) ≡ true
      → conforms default_org_schema (
          draft cfg "TokenRevocation" (
            ("agency_id", str cfg.agency_id)
            ∷ ("token_hash", str hash)
            ∷ ("revoked_at", str now)
            ∷ ("expires_at", str expires_at)
            ∷ ("reason", str (if reason == "" then "user_logout" else reason))
            ∷ []))
        ≡ true
  revocation_conforms hash now expires_at reason h = rw h refl

  pub revoke-Declares :
      (text reason : String)
      → is_one_of reasons (if reason == "" then "user_logout" else reason) ≡ true
      → Declares E (revoke (recording E) cfg text reason)
  unfolding revoke
  revoke-Declares text reason h =
      search (declares_rules, find_expiry-Declares, revocation_conforms) depth 12

  pub list_audit_events-Declares :
      (filter : AuditEventFilter) → Declares E (list_audit_events (recording E) cfg filter)
  unfolding list_audit_events
  list_audit_events-Declares filter = search declares_rules depth 12
