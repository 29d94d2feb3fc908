-- ===== src/Refinement/Keyed.antt =====
-- Operations that create an entity with a key: a lookup finds the key free before each creation.
use code_vald_org.Prelude.{String, ◌≡◌, refl, List, [], ◌∷◌, if◌then◌else◌}
use code_vald_org.Graph.{Entity, str, CreateEntityRequest, EntityFilter}
use code_vald_org.Graph.State.{Graph, selects}
use code_vald_org.Graph.Step.{has_key, key_of}
use code_vald_org.Effects.{Env, is_nonempty, pure, ◌>>◌}
use code_vald_org.Models.{ManagerConfig}
use code_vald_org.Models.Requests.{
  CreateRoleRequest, InitOrganizationRequest, InviteUserRequest, RegisterScopeRequest,
}
use code_vald_org.Store.Lawful.{IsLawful}
use code_vald_org.Store.Keeps.{Keeps, Keeps-then, keeps_rules}
use code_vald_org.Store.From.{
  KeepsFrom, Listed, create_unused, guarded-Keeps, guarded, from_Keeps, after_lookup, timed_text,
  timed,
}
use code_vald_org.Manager.Calls.{or_unavailable, query}
use code_vald_org.Manager.Roles.{create_role}
use code_vald_org.Manager.Organizations.{
  init_organization, seed_role, seed_roles, seed_builtin_roles,
}
use code_vald_org.Manager.Invitations.{invite_user, grant_roles, link_inviter}
use code_vald_org.Manager.Scopes.{register_scope, register_over}
use code_vald_org.Crypto.{generate_token}

module _ (E : Env) (view : E.World → Graph) (L : IsLawful E view) (cfg : ManagerConfig) where
  pub create_role-Keeps : (req : CreateRoleRequest) → Keeps E view (create_role E cfg req)
  unfolding create_role or_unavailable
  create_role-Keeps req =
      let f = query cfg "Role" (("name", str req.name) ∷ []) in
      after_lookup E view L f _ _ λ es. guarded E view _ _ _ _ λ unused.
        timed_text E view L _ _
          λ now. create_unused E view L f es _ _ unused refl (λ e. search keeps_rules)

  -- One round of the seeding loop creates a role only where its name is free.
  seed_if_unused :
      (f : EntityFilter) (es : List Entity) (req : CreateEntityRequest)
      → has_key req.agency_id req.type_id (key_of req.type_id req.properties) ≡ selects f
      → KeepsFrom E view
          (Listed es f)
          (if is_nonempty es then pure tt else (or_unavailable (E.create_entity req) >> pure tt))
  unfolding or_unavailable ◌>>◌
  seed_if_unused f (x ∷ es) req same = from_Keeps E view _ _ (search keeps_rules)
  seed_if_unused f [] req same =
      create_unused E view L f [] req (λ _. pure tt) refl same (λ e. search keeps_rules)

  pub seed_role-Keeps : (now : String) (b : String × String) → Keeps E view (seed_role E cfg now b)
  unfolding seed_role or_unavailable
  seed_role-Keeps now (name, display_name) =
      let f = query cfg "Role" (("name", str name) ∷ []) in
      after_lookup E view L f _ _ λ es. seed_if_unused f es _ refl

  pub seed_roles-Keeps :
      (now : String) (bs : List (String × String)) → Keeps E view (seed_roles E cfg now bs)
  unfolding seed_roles
  seed_roles-Keeps now [] = search keeps_rules
  seed_roles-Keeps now (b ∷ bs) =
      Keeps-then E view _ _ (seed_role-Keeps now b) (seed_roles-Keeps now bs)

  pub init_organization-Keeps :
      (req : InitOrganizationRequest) → Keeps E view (init_organization E cfg req)
  unfolding init_organization seed_builtin_roles or_unavailable
  init_organization-Keeps req =
      let f = query cfg "Organization" [] in
      after_lookup E view L f _ _ λ es. guarded E view _ _ _ _ λ unused.
        timed_text E view L _ _ λ now.
          create_unused E view L f es _ _ unused refl (λ e. search (keeps_rules, seed_roles-Keeps))

  pub grant_roles-Keeps :
      (id : String) (role_ids : List String) → Keeps E view (grant_roles E cfg id role_ids)
  unfolding grant_roles
  grant_roles-Keeps id [] = search keeps_rules
  grant_roles-Keeps id (r ∷ rs) =
      Keeps-then E view _ _ (search keeps_rules) (grant_roles-Keeps id rs)

  pub link_inviter-Keeps : (id inviter : String) → Keeps E view (link_inviter E cfg id inviter)
  unfolding link_inviter
  link_inviter-Keeps id inviter = search keeps_rules

  pub generate_token-Keeps : (prefix : String) → Keeps E view (generate_token E prefix)
  unfolding generate_token
  generate_token-Keeps prefix = search keeps_rules

  pub invite_user-Keeps : (req : InviteUserRequest) → Keeps E view (invite_user E cfg req)
  unfolding invite_user or_unavailable
  invite_user-Keeps req =
      let f = query cfg "User" (("email", str req.email) ∷ []) in
      after_lookup E view L f _ _ λ es. guarded E view _ _ _ _ λ unused. timed E view L _ _ λ now.
        create_unused E view L f es _ _ unused refl (λ e.
          search (keeps_rules, generate_token-Keeps, link_inviter-Keeps, grant_roles-Keeps) depth
            14)

  pub register_over-Keeps :
      (req : RegisterScopeRequest) (now : String) (es : List Entity)
      → KeepsFrom E view
          (Listed es (query cfg "Scope" (("name", str req.name) ∷ [])))
          (register_over E cfg req now es)
  unfolding register_over
  register_over-Keeps req now (old ∷ es) = from_Keeps E view _ _ (search keeps_rules depth 12)
  register_over-Keeps req now [] =
      create_unused E view L (query cfg "Scope" (("name", str req.name) ∷ [])) [] _ _ refl refl
        (λ e. search keeps_rules)

  pub register_scope-Keeps : (req : RegisterScopeRequest) → Keeps E view (register_scope E cfg req)
  unfolding register_scope or_unavailable
  register_scope-Keeps req = guarded-Keeps E view _ _ _ λ _. guarded-Keeps E view _ _ _ λ _.
      after_lookup E view L (query cfg "Scope" (("name", str req.name) ∷ [])) _ _
        λ es. timed_text E view L _ _ λ now. register_over-Keeps req now es
