-- ===== src/Registrar/ReadOnly.antt =====
-- The routes that are not announced as writes: the methods behind them leave the graph alone.
use code_vald_org.Prelude.{
  String, ◌==◌, ◌≡◌, refl, ◌∙◌, Bool, true, not, ◌&&◌, any, Bool-cases, inl, inr, List,
}
use code_vald_org.Graph.{Entity, EntityFilter, RelationshipFilter}
use code_vald_org.Graph.State.{Graph}
use code_vald_org.Effects.{Env, Action}
use code_vald_org.Models.{ManagerConfig}
use code_vald_org.Models.Requests.{
  ListRequest, ListUsersRequest, ListMembershipsRequest, AuditEventFilter,
}
use code_vald_org.Manager.Organizations.{get_organization}
use code_vald_org.Manager.Users.{get_user, list_users}
use code_vald_org.Manager.Roles.{list_roles}
use code_vald_org.Manager.Scopes.{list_scopes}
use code_vald_org.Manager.Memberships.{list_memberships, memberships_of}
use code_vald_org.Manager.Clients.{list_oauth_clients}
use code_vald_org.Manager.Tokens.{list_audit_events}
use code_vald_org.Store.Lawful.{IsLawful}
use code_vald_org.Store.Preserves.{Preserves, preserves_rules}
use code_vald_org.Server.Reply.{with_agency, answer}
use code_vald_org.Server.Service.{Rpc, handle, outcome}
use code_vald_org.Server.Organizations
use code_vald_org.Server.Users
use code_vald_org.Server.Access
use code_vald_org.Server.OAuth
use code_vald_org.Registrar.{RouteInfo, org_routes}
use code_vald_org.Registrar.Methods.{full_method}

-- A route to the method is announced that is not marked as a write.
abbrev pub has_read_route : String → Rpc → Bool
has_read_route agency_id q =
    any (λ (r : RouteInfo). r.grpc_method == full_method q && not r.is_write) (org_routes agency_id)

module _ (E : Env) (view : E.World → Graph) (L : IsLawful E view) where
  abbrev Reads : Graph → {A : Type 0} → Action E.World A → Type 0
  Reads g {A} m = Preserves (λ w. view w ≡ g) {A = A} m

  module _ (g : Graph) where
    Reads-list_entities : (f : EntityFilter) → Reads g (E.list_entities f)
    Reads-list_entities f = record { at = λ w e. L.list_entities-view f w ∙ e }

    Reads-get_entity : (agency id : String) → Reads g (E.get_entity agency id)
    Reads-get_entity agency id = record { at = λ w e. L.get_entity-view agency id w ∙ e }

    Reads-list_relationships : (f : RelationshipFilter) → Reads g (E.list_relationships f)
    Reads-list_relationships f = record { at = λ w e. L.list_relationships-view f w ∙ e }

  ruleset reads_rules =
      (preserves_rules, Reads-list_entities, Reads-get_entity, Reads-list_relationships)

  module _ (cfg : ManagerConfig) (g : Graph) where
    get_organization-Reads : Reads g (get_organization E cfg)
    unfolding get_organization
    get_organization-Reads = search reads_rules depth 12

    get_user-Reads : (id : String) → Reads g (get_user E cfg id)
    unfolding get_user
    get_user-Reads id = search reads_rules depth 12

    list_users-Reads : (req : ListUsersRequest) → Reads g (list_users E cfg req)
    unfolding list_users
    list_users-Reads req = search reads_rules depth 12

    list_roles-Reads : (req : ListRequest) → Reads g (list_roles E cfg req)
    unfolding list_roles
    list_roles-Reads req = search reads_rules depth 12

    list_scopes-Reads : (req : ListRequest) → Reads g (list_scopes E cfg req)
    unfolding list_scopes
    list_scopes-Reads req = search reads_rules depth 12

    list_oauth_clients-Reads : (req : ListRequest) → Reads g (list_oauth_clients E cfg req)
    unfolding list_oauth_clients
    list_oauth_clients-Reads req = search reads_rules depth 12

    list_audit_events-Reads : (filter : AuditEventFilter) → Reads g (list_audit_events E cfg filter)
    unfolding list_audit_events
    list_audit_events-Reads filter = search reads_rules depth 12

    memberships_of-Reads :
        (id : String) (entities : List Entity) → Reads g (memberships_of E cfg id entities)
    unfolding memberships_of
    memberships_of-Reads id entities = search reads_rules depth 12

    list_memberships-Reads : (req : ListMembershipsRequest) → Reads g (list_memberships E cfg req)
    unfolding list_memberships
    list_memberships-Reads req = search (reads_rules, memberships_of-Reads) depth 12

  outcome-view :
      {A B : Type 0} (own requested : String) (m : Action E.World A) (convert : A → B) (w : E.World)
      → Reads (view w) m
      → view (outcome (with_agency own requested (answer E m convert)) w).1 ≡ view w
  unfolding outcome with_agency answer
  outcome-view own requested m convert w k = elim (Bool-cases (requested == own)) [
    | inl same ↦ rw same (k.at w refl)
    | inr other_ ↦ rw other_ refl
  ]

  -- A method that Cross is told to be no write leaves the graph as it was, whatever it answers, in
  -- every store that behaves as documented.
  pub handle-view :
      (cfg : ManagerConfig) (own : String) (q : Rpc) (w : E.World)
      → has_read_route own q ≡ true
      → view (handle E cfg own q w).1 ≡ view w
  unfolding handle org_routes Organizations.get_organization Users.get_user Users.list_users
      Access.list_roles Access.list_scopes Access.list_memberships OAuth.list_oauth_clients
      OAuth.list_audit_events
  handle-view cfg own (Rpc.init_organization req) w h = cc
  handle-view cfg own (Rpc.get_organization req) w h =
      outcome-view own req.agency_id _ _ w (get_organization-Reads cfg _)
  handle-view cfg own (Rpc.update_organization req) w h = cc
  handle-view cfg own (Rpc.disable_organization req) w h = cc
  handle-view cfg own (Rpc.delete_organization req) w h = cc
  handle-view cfg own (Rpc.invite_user req) w h = cc
  handle-view cfg own (Rpc.accept_invitation req) w h = cc
  handle-view cfg own (Rpc.get_user req) w h =
      outcome-view own req.agency_id _ _ w (get_user-Reads cfg _ _)
  handle-view cfg own (Rpc.list_users req) w h =
      outcome-view own req.agency_id _ _ w (list_users-Reads cfg _ _)
  handle-view cfg own (Rpc.suspend_user req) w h = cc
  handle-view cfg own (Rpc.reactivate_user req) w h = cc
  handle-view cfg own (Rpc.delete_user req) w h = cc
  handle-view cfg own (Rpc.create_role req) w h = cc
  handle-view cfg own (Rpc.update_role req) w h = cc
  handle-view cfg own (Rpc.delete_role req) w h = cc
  handle-view cfg own (Rpc.list_roles req) w h =
      outcome-view own req.agency_id _ _ w (list_roles-Reads cfg _ _)
  handle-view cfg own (Rpc.register_scope req) w h = cc
  handle-view cfg own (Rpc.deprecate_scope req) w h = cc
  handle-view cfg own (Rpc.list_scopes req) w h =
      outcome-view own req.agency_id _ _ w (list_scopes-Reads cfg _ _)
  handle-view cfg own (Rpc.grant_membership req) w h = cc
  handle-view cfg own (Rpc.revoke_membership req) w h = cc
  handle-view cfg own (Rpc.list_memberships req) w h =
      outcome-view own req.agency_id _ _ w (list_memberships-Reads cfg _ _)
  handle-view cfg own (Rpc.create_oauth_client req) w h = cc
  handle-view cfg own (Rpc.rotate_client_secret req) w h = cc
  handle-view cfg own (Rpc.list_oauth_clients req) w h =
      outcome-view own req.agency_id _ _ w (list_oauth_clients-Reads cfg _ _)
  handle-view cfg own (Rpc.delete_oauth_client req) w h = cc
  handle-view cfg own (Rpc.authorize req) w h = cc
  handle-view cfg own (Rpc.token req) w h = cc
  handle-view cfg own (Rpc.introspect req) w h = cc
  handle-view cfg own (Rpc.revoke req) w h = cc
  handle-view cfg own (Rpc.list_audit_events req) w h =
      outcome-view own req.agency_id _ _ w (list_audit_events-Reads cfg _ _)
