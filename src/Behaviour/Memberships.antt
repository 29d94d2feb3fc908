-- ===== src/Behaviour/Memberships.antt =====
-- memberships.go: which memberships a listing by user returns.
use code_vald_org.Prelude.{
  String, ◌==◌, ◌≡◌, sym, subst, Bool, true, false, ◌↔◌, List, [], map, any, if◌then◌else◌,
}
use code_vald_org.Errors.{sentinel, temporarily_unavailable}
use code_vald_org.Graph.{Entity, Relationship}
use code_vald_org.Graph.State.{Graph, Occurs, selects, selects_edge}
use code_vald_org.Graph.Occurs.{Occurs_of_any, any_of_Occurs, Occurs-keep, occurs_keep}
use code_vald_org.Effects.{Env, Result, ok, err, pure, proceed, replace, ◌>>=◌}
use code_vald_org.Models.{Membership, ManagerConfig}
use code_vald_org.Models.Requests.{ListMembershipsRequest}
use code_vald_org.Helpers.{entity_to_membership}
use code_vald_org.Store.Lawful.{IsLawful, ListsAll}
use code_vald_org.Manager.Calls.{or_unavailable, query, edges_from, manager_calls}
use code_vald_org.Manager.Memberships.{list_memberships, memberships_of, reachable}

ok_injective : {A : Type 0} (a b : A) → ok a ≡ ok b → a ≡ b
ok_injective a b e = cc

module _ (E : Env) (view : E.World → Graph) (L : IsLawful E view) (cfg : ManagerConfig) where
  -- A Membership of the graph to which the user has an edge.
  abbrev pub IsMembershipOf : String → Graph → Entity → Type 0
  IsMembershipOf user_id g e =
      (Occurs e g.entities × (selects (query cfg "Membership" []) e ≡ true))
      × ((r : Relationship) × Occurs r g.relationships
          × (selects_edge (edges_from cfg "has_membership" user_id) r ≡ true)
          × ((r.to_id == e.id) ≡ true))

  -- Where ListMemberships with a user's id succeeds, it returns the Memberships of the graph to which
  -- the user has an edge `has_membership`, all of them and no others: the code does not look at the
  -- request's page_size and page_token.
  pub list_memberships-IsMembershipOf :
      (req : ListMembershipsRequest) (ms : List Membership) (w : E.World)
      → (req.user_id == "") ≡ false
      → (list_memberships E cfg req w).0 ≡ ok ms
      → (es : List Entity) × (ms ≡ map (entity_to_membership E) es)
        × ((e : Entity) → Occurs e es ↔ IsMembershipOf req.user_id (view w) e)
  unfolding list_memberships memberships_of manager_calls
  list_memberships-IsMembershipOf req ms w some_user e =
      listed (E.list_entities (query cfg "Membership" []) w).0
        (L.list_entities-ListsAll (query cfg "Membership" []) w) e
    where
      w1 : E.World
      w1 = (E.list_entities (query cfg "Membership" []) w).1

      same : view w1 ≡ view w
      same = L.list_entities-view (query cfg "Membership" []) w

      filtered :
          (es : List Entity) (r : Result (List Relationship)) (v : E.World)
          → ((a : Entity)
              → Occurs a es
                ↔ (Occurs a (view w).entities × (selects (query cfg "Membership" []) a ≡ true)))
          → ListsAll r
              (view w).relationships
              (selects_edge (edges_from cfg "has_membership" req.user_id))
          → let rest : Result (List Membership) × E.World =
              ((λ u.
                    proceed
                      (replace r (sentinel temporarily_unavailable))
                      (λ rels. pure {W = E.World} (reachable rels es))
                      v)
                  >>= λ found. pure {W = E.World} (map (entity_to_membership E) found))
                v in
            rest.0 ≡ ok ms
            → (es : List Entity) × (ms ≡ map (entity_to_membership E) es)
              × ((e : Entity) → Occurs e es ↔ IsMembershipOf req.user_id (view w) e)
      filtered es (err x) v h k done = cc
      filtered es (ok rels) v h k done =
          (reachable rels es, sym (ok_injective _ _ done), λ a. (there a, back a))
        where
          there :
              (a : Entity) → Occurs a (reachable rels es) → IsMembershipOf req.user_id (view w) a
          there a o =
              let p = Occurs-keep (λ x. any (λ r. r.to_id == x.id) rels) a es o in
              let (r, or, e) = Occurs_of_any (λ r. r.to_id == a.id) rels p.1 in
              ((h a).0 p.0, (r, ((k r).0 or).0, ((k r).0 or).1, e))

          back : (a : Entity) → IsMembershipOf req.user_id (view w) a → Occurs a (reachable rels es)
          back a (m, (r, oR, s, e)) =
              occurs_keep (λ x. any (λ r. r.to_id == x.id) rels) a es ((h a).1 m)
                (any_of_Occurs (λ r. r.to_id == a.id) r rels ((k r).1 (oR, s)) e)

      chosen :
          (es : List Entity) (b : Bool)
          → b ≡ false
          → ((a : Entity)
              → Occurs a es
                ↔ (Occurs a (view w).entities × (selects (query cfg "Membership" []) a ≡ true)))
          → let rest : Result (List Membership) × E.World =
              ((if b
                    then pure es
                    else (or_unavailable
                          (E.list_relationships (edges_from cfg "has_membership" req.user_id))
                        >>= λ rels. pure (reachable rels es)))
                  >>= λ found. pure (map (entity_to_membership E) found))
                w1 in
            rest.0 ≡ ok ms
            → (es : List Entity) × (ms ≡ map (entity_to_membership E) es)
              × ((e : Entity) → Occurs e es ↔ IsMembershipOf req.user_id (view w) e)
      chosen es true no_ h done = absurd cc
      chosen es false no_ h done =
          filtered es (E.list_relationships (edges_from cfg "has_membership" req.user_id) w1).0
            (E.list_relationships (edges_from cfg "has_membership" req.user_id) w1).1 h
            (subst
              (λ (g : Graph).
                ListsAll (E.list_relationships (edges_from cfg "has_membership" req.user_id) w1).0
                  g.relationships (selects_edge (edges_from cfg "has_membership" req.user_id)))
              same (L.list_relationships-ListsAll (edges_from cfg "has_membership" req.user_id) w1))
            done

      listed :
          (r : Result (List Entity))
          → ListsAll r (view w).entities (selects (query cfg "Membership" []))
          → let rest : Result (List Membership) × E.World =
              proceed
                (replace r (sentinel temporarily_unavailable))
                (λ es. memberships_of E cfg req.user_id es >>= λ found.
                  pure (map (entity_to_membership E) found))
                w1 in
            rest.0 ≡ ok ms
            → (es : List Entity) × (ms ≡ map (entity_to_membership E) es)
              × ((e : Entity) → Occurs e es ↔ IsMembershipOf req.user_id (view w) e)
      listed (err x) h done = cc
      listed (ok es) h done = chosen es (req.user_id == "") some_user h done
