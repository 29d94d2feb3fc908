-- ===== src/Behaviour/SeededRoles.antt =====
-- org_lifecycle.go: what seedBuiltinRoles leaves in the graph.
use code_vald_org.Prelude.{
  String, ◌≡◌, refl, sym, subst, ◌∙◌, true, false, ◌⊎◌, inl, inr, List, [], ◌∷◌, any, All, arith,
  eq_iff, if◌then◌else◌,
}
use code_vald_org.Errors.{sentinel, temporarily_unavailable}
use code_vald_org.Graph.{str, bool, Entity, EntityFilter, CreateEntityRequest}
use code_vald_org.Graph.State.{Graph, Occurs, selects, is_named, with_entity}
use code_vald_org.Graph.Occurs.{occurs_left, occurs_last, Occurs-concat}
use code_vald_org.Effects.{Env, Result, ok, err, pure, proceed, replace, is_nonempty, ◌>>◌, calls}
use code_vald_org.Models.{ManagerConfig}
use code_vald_org.Helpers.{prop_bool}
use code_vald_org.Store.Lawful.{IsLawful, ListsAll, Writes}
use code_vald_org.Manager.Calls.{or_unavailable, query, draft, manager_calls}
use code_vald_org.Manager.Organizations.{seed_role, seed_roles}

-- What InitOrganization adds: an Organization, or a Role that is flagged as built-in.
abbrev pub IsAddition : Entity → Type 0
IsAddition a =
    (a.type_id ≡ "Organization")
    ⊎ ((a.type_id ≡ "Role") × (prop_bool a.properties "builtin" ≡ true))

-- Every entity of the one graph is in the other, which has nothing else but such additions.
abbrev pub Grows : Graph → Graph → Type 0
Grows g h =
    (a : Entity)
    → (Occurs a g.entities → Occurs a h.entities)
      × (Occurs a h.entities → Occurs a g.entities ⊎ IsAddition a)

-- An entity that the filter selects is in the graph.
abbrev pub Present : EntityFilter → Graph → Type 0
Present f g = (a : Entity) × Occurs a g.entities × (selects f a ≡ true)

pub Grows-of_eq : {g h : Graph} → h ≡ g → Grows g h
Grows-of_eq e a = rw e (λ o. o, λ o. inl o)

pub Grows-trans : (g h k : Graph) → Grows g h → Grows h k → Grows g k
Grows-trans g h k p q a = (
  λ o. (q a).0 ((p a).0 o),
  λ o. elim ((q a).1 o) [ inl there ↦ (p a).1 there | inr added ↦ inr added ],
)

pub Grows-with_entity : (e : Entity) (g h : Graph) → IsAddition e → h ≡ with_entity e g → Grows g h
Grows-with_entity e g h added same a = rw same (
  λ o. occurs_left a g.entities (e ∷ []) o,
  λ o. elim (Occurs-concat a e g.entities o) [
    | inl there ↦ inl there
    | inr this ↦ inr (subst IsAddition (sym this) added)
  ],
)

Present-Grows : (f : EntityFilter) (g h : Graph) → Grows g h → Present f g → Present f h
Present-Grows f g h grows (a, o, s) = (a, (grows a).0 o, s)

module _ (E : Env) (view : E.World → Graph) (L : IsLawful E view) (cfg : ManagerConfig) where
  abbrev pub role_named : String → EntityFilter
  role_named name = query cfg "Role" (("name", str name) ∷ [])

  -- What a creation stored: the one entity if it succeeded, nothing if it failed.
  abbrev pub Stored : (req : CreateEntityRequest) → Result Entity → (g h : Graph) → Type 0
  Stored req (err x) g h = h ≡ g
  Stored req (ok e) g h =
      (h ≡ with_entity e g)
      × Occurs e h.entities
      × (e.agency_id ≡ req.agency_id)
      × (e.type_id ≡ req.type_id)
      × (e.properties ≡ req.properties)

  pub create-Stored :
      (req : CreateEntityRequest) (w : E.World)
      → Stored req (E.create_entity req w).0 (view w) (view (E.create_entity req w).1)
  create-Stored req w = cases (E.create_entity req w).0 (L.create_entity-Writes req w)
    where
      cases :
          (r : Result Entity)
          → let v = (E.create_entity req w).1 in
            Writes r (view w) (view v) (λ e.
              (e.agency_id ≡ req.agency_id)
              × (e.type_id ≡ req.type_id)
              × (e.properties ≡ req.properties)
              × (any (is_named e.agency_id e.id) (view w).entities ≡ false)
              × (view v ≡ with_entity e (view w)))
            → Stored req r (view w) (view v)
      cases (err x) h = h
      cases (ok e) h = (h.4, rw h.4 (occurs_last e (view w).entities), h.0, h.1, h.2)

  seed_role-Present :
      (now name display_name : String) (w : E.World)
      → let (r, w') = seed_role E cfg now (name, display_name) w in
        Grows (view w) (view w') × (r ≡ ok tt → Present (role_named name) (view w'))
  unfolding seed_role manager_calls
  seed_role-Present now name display_name w =
      listed (E.list_entities (role_named name) w).0 (L.list_entities-ListsAll (role_named name) w)
    where
      w1 : E.World
      w1 = (E.list_entities (role_named name) w).1

      same : view w1 ≡ view w
      same = L.list_entities-view (role_named name) w

      req : CreateEntityRequest
      req = draft cfg "Role" (
          ("agency_id", str cfg.agency_id)
          ∷ ("name", str name)
          ∷ ("builtin", bool true)
          ∷ ("display_name", str display_name)
          ∷ ("created_at", str now)
          ∷ ("updated_at", str now)
          ∷ [])

      made :
          (r : Result Entity) (v : E.World)
          → Stored req r (view w1) (view v)
          → let rest : Result (Unit {0}) × E.World =
              proceed
                (replace r (sentinel temporarily_unavailable))
                (λ _. pure {W = E.World} tt)
                v in
            Grows (view w) (view rest.1)
            × (rest.0 ≡ ok tt → Present (role_named name) (view rest.1))
      made (err x) v h = (Grows-of_eq (h ∙ same), λ done. cc)
      made (ok e) v h = (
        rw (← same) (Grows-with_entity e _ _ (inr (h.3, rw h.4 refl)) h.0),
        λ _. (
          e,
          h.1,
          rw (h.2, h.3, h.4) (ground (arith, eq_iff cfg.agency_id cfg.agency_id, eq_iff name name)),
        ),
      )

      listed :
          (r : Result (List Entity))
          → ListsAll r (view w).entities (selects (role_named name))
          → let rest : Result (Unit {0}) × E.World =
              proceed
                (replace r (sentinel temporarily_unavailable))
                (λ es.
                  if is_nonempty es
                  then pure tt
                  else (or_unavailable (E.create_entity req) >> pure tt))
                w1 in
            Grows (view w) (view rest.1)
            × (rest.0 ≡ ok tt → Present (role_named name) (view rest.1))
      listed (err x) h = (Grows-of_eq {g = view w} same, λ done. cc)
      listed (ok (x ∷ xs)) h =
          let o = (h x).0 (inl refl) in (Grows-of_eq same, λ _. (x, rw same o.0, o.1))
      listed (ok []) h =
          made (E.create_entity req w1).0 (E.create_entity req w1).1 (create-Stored req w1)

  abbrev pub AllPresent : List (String × String) → Graph → Type 0
  AllPresent bs g = All (λ (b : String × String). Present (role_named b.0) g) bs

  pub seed_roles-AllPresent :
      (now : String) (bs : List (String × String)) (w : E.World)
      → let (r, w') = seed_roles E cfg now bs w in
        Grows (view w) (view w') × (r ≡ ok tt → AllPresent bs (view w'))
  unfolding seed_roles calls
  seed_roles-AllPresent now [] w = (Grows-of_eq {g = view w} refl, λ _. tt)
  seed_roles-AllPresent now ((name, display_name) ∷ bs) w =
      first (seed_role E cfg now (name, display_name) w).0
        (seed_role-Present now name display_name w)
        (seed_roles-AllPresent now bs (seed_role E cfg now (name, display_name) w).1)
    where
      w1 : E.World
      w1 = (seed_role E cfg now (name, display_name) w).1

      first :
          (r : Result (Unit {0}))
          → Grows (view w) (view w1) × (r ≡ ok tt → Present (role_named name) (view w1))
          → Grows (view w1) (view (seed_roles E cfg now bs w1).1)
            × ((seed_roles E cfg now bs w1).0 ≡ ok tt
                → AllPresent bs (view (seed_roles E cfg now bs w1).1))
          → let rest : Result (Unit {0}) × E.World = proceed r (λ _. seed_roles E cfg now bs) w1 in
            Grows (view w) (view rest.1)
            × (rest.0 ≡ ok tt → AllPresent ((name, display_name) ∷ bs) (view rest.1))
      first (err x) h later = (h.0, λ done. cc)
      first (ok u) h later = (
        Grows-trans (view w) (view w1) (view (seed_roles E cfg now bs w1).1) h.0 later.0,
        λ done. (
          Present-Grows (role_named name) (view w1) (view (seed_roles E cfg now bs w1).1) later.0
              (h.1 refl),
          later.1 done,
        ),
      )
