-- ===== src/Refinement/Found.antt =====
-- Operations that delete, or rename, an entity which a lookup has found.
use code_vald_org.Prelude.{
  String, ◌==◌, ◌≡◌, refl, true, false, List, [], ◌∷◌, all, arith, eq_iff, inl,
}
use code_vald_org.Errors.{sentinel, temporarily_unavailable, org_not_found}
use code_vald_org.Graph.{Entity, Properties, str}
use code_vald_org.Graph.State.{Graph, Occurs, selects, is_named}
use code_vald_org.Graph.Step.{Reach, Reach-trans, is_builtin_role, lacks, org_fixed_keys}
use code_vald_org.Graph.Lookup.{lacks-set_unless_empty}
use code_vald_org.Effects.{
  Env, Action, Result, ok, err, proceed, replace, or_fail, first_or, pure, ◌>>=◌,
}
use code_vald_org.Helpers.{entity_to_org, prop_bool}
use code_vald_org.Models.{Organization, ManagerConfig}
use code_vald_org.Models.Requests.{UpdateOrganizationRequest}
use code_vald_org.Store.Lawful.{IsLawful, ListsAll}
use code_vald_org.Store.Keeps.{Keeps, Reach_of_eq, keeps_rules}
use code_vald_org.Store.From.{
  KeepsFrom, Listed, guarded, from_first, from_bind-Keeps, after_lookup, after_get, timed_text,
  from_or_unavailable, delete_found, update_org,
}
use code_vald_org.Manager.Calls.{or_unavailable, query}
use code_vald_org.Manager.Roles.{delete_role}
use code_vald_org.Manager.Clients.{delete_oauth_client}
use code_vald_org.Manager.Organizations.{
  get_organization, delete_organization, update_organization, organization_patch,
}

-- What a listing gives for one of its entities.
Listed-found :
    (agency type_id : String) (ps : Properties) (es : List Entity) (x : Entity) (g : Graph)
    → Occurs x es
    → Listed es (record { agency_id = agency; type_id = type_id; properties = ps }) g
    → Occurs x g.entities × (is_named agency x.id x ≡ true) × (x.type_id ≡ type_id)
Listed-found agency type_id ps es x g o h =
    let (inside, chosen) = (h x).0 o in
    (
      inside,
      ground (arith, eq_iff x.agency_id agency, eq_iff x.id x.id),
      ground (arith, eq_iff x.type_id type_id),
    )

plain_of_type :
    (x : Entity) (type_id : String)
    → x.type_id ≡ type_id
    → (type_id == "Role") ≡ false
    → is_builtin_role x ≡ false
plain_of_type x type_id e other = rw (e, other) refl

plain_of_flag : (x : Entity) → prop_bool x.properties "builtin" ≡ false → is_builtin_role x ≡ false
plain_of_flag x h = ground arith

module _ (E : Env) (view : E.World → Graph) (L : IsLawful E view) (cfg : ManagerConfig) where
  pub delete_role-Keeps : (id : String) → Keeps E view (delete_role E cfg id)
  unfolding delete_role
  delete_role-Keeps id = after_get E view L _ _ _ _ λ x. guarded E view _ _ _ _ λ custom.
      from_or_unavailable E view L _ _ (delete_found E view L _ _ x (plain_of_flag x custom))

  pub delete_oauth_client-Keeps : (id : String) → Keeps E view (delete_oauth_client E cfg id)
  unfolding delete_oauth_client
  delete_oauth_client-Keeps id =
      let ps : Properties = ("client_id", str id) ∷ [] in
      after_lookup E view L (query cfg "OAuthClient" ps) _ _ λ es. from_first E view _ es _ _ λ x o.
        from_or_unavailable E view L _ _ (record {
          at = λ w listed.
              let (inside, named, type) =
                Listed-found cfg.agency_id "OAuthClient" ps es x (view w) o listed in
              (delete_found E view L _ _ x (plain_of_type x "OAuthClient" type refl)).at w
                (inside, named);
        })

  organization_from :
      {B : Type 0} (r : Result (List Entity)) (g : Graph) (w : E.World)
      (k : Organization → Action E.World B)
      → view w ≡ g
      → ListsAll r g.entities (selects (query cfg "Organization" []))
      → ((x : Entity)
          → x.type_id ≡ "Organization"
          → KeepsFrom E view
              (λ h. Occurs x h.entities × (is_named cfg.agency_id x.id x ≡ true))
              (k (entity_to_org E x)))
      → let (o, w') =
          proceed
            (replace r (sentinel temporarily_unavailable))
            (λ es. first_or es (sentinel org_not_found) >>= λ e. pure (entity_to_org E e))
            w in
        Reach g (view (proceed o k w').1)
  unfolding ◌>>=◌ first_or pure
  organization_from (err e) g w k same listed h = Reach_of_eq same
  organization_from (ok []) g w k same listed h = Reach_of_eq same
  organization_from (ok (x ∷ es)) g w k same listed h =
      let (inside, named, type) =
        Listed-found cfg.agency_id "Organization" [] (x ∷ es) x g (inl refl) listed in
      Reach-trans (Reach_of_eq same) ((h x type).at w (rw same (inside, named)))

  -- After `get_organization` the rest knows that the graph has the organization.
  after_organization :
      {B : Type 0} (k : Organization → Action E.World B)
      → ((x : Entity)
          → x.type_id ≡ "Organization"
          → KeepsFrom E view
              (λ h. Occurs x h.entities × (is_named cfg.agency_id x.id x ≡ true))
              (k (entity_to_org E x)))
      → Keeps E view (get_organization E cfg >>= k)
  unfolding get_organization or_unavailable or_fail ◌>>=◌ organization_from
  after_organization k h = record {
    at = λ w.
        let (r, w') = E.list_entities (query cfg "Organization" []) w in
        organization_from r (view w) w' k (L.list_entities-view (query cfg "Organization" []) w)
          (L.list_entities-ListsAll (query cfg "Organization" []) w) h;
  }

  pub delete_organization-Keeps : Keeps E view (delete_organization E cfg)
  unfolding delete_organization entity_to_org
  delete_organization-Keeps = after_organization _ λ x type.
      from_or_unavailable E view L _ _
        (delete_found E view L _ _ x (plain_of_type x "Organization" type refl))

  org_patch_safe :
      (req : UpdateOrganizationRequest) (now : String)
      → all (lacks (organization_patch req now)) org_fixed_keys ≡ true
  unfolding organization_patch
  org_patch_safe req now = search lacks-set_unless_empty depth 10

  pub update_organization-Keeps :
      (req : UpdateOrganizationRequest) → Keeps E view (update_organization E cfg req)
  unfolding update_organization entity_to_org
  update_organization-Keeps req = after_organization _ λ x type. timed_text E view L _ _ λ now.
      from_bind-Keeps E view _ _ _
        (from_or_unavailable E view L _ _
          (update_org E view L _ _ _ x type (org_patch_safe req now)))
        (λ e. search keeps_rules)
