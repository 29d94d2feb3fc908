-- ===== src/Behaviour/Invitations.antt =====
-- org_lifecycle.go: what an accepted invitation was, and what accepting it does.
use code_vald_org.Prelude.{
  String, ◌==◌, ◌≡◌, refl, sym, ap, ◌∙◌, true, ◌||◌, inl, List, [], ◌∷◌, ltb,
}
use code_vald_org.Errors.{sentinel, invitation_expired, temporarily_unavailable}
use code_vald_org.Graph.{str, Properties, Entity, EntityFilter, Relationship}
use code_vald_org.Graph.State.{Graph, Occurs, selects_edge, is_named, amended, with_amended}
use code_vald_org.Effects.{
  Env, Result, ok, err, Action, pure, lift, proceed, replace, fail_if, first_or, ◌>>=◌, ◌>>◌,
}
use code_vald_org.Models.{User, ManagerConfig}
use code_vald_org.Helpers.{entity_to_user, entity_to_invitation}
use code_vald_org.Crypto.{hash_sha256}
use code_vald_org.Store.Lawful.{IsLawful, ListsAll, Writes}
use code_vald_org.Manager.Calls.{or_unavailable, query, edges_to, now_text, manager_calls}

-- The two patches of an acceptance.
abbrev pub activation : String → Properties
activation now = ("status", str "active") ∷ ("updated_at", str now) ∷ []

abbrev pub acceptance : String → Properties
acceptance now = ("status", str "accepted") ∷ ("accepted_at", str now) ∷ []

module _ (E : Env) (cfg : ManagerConfig) where
  -- The lookup of an invitation by its token.
  abbrev pub invitations : String → EntityFilter
  invitations text = query cfg "Invitation" (("token_hash", str (hash_sha256 E text)) ∷ [])

  -- The parts of AcceptInvitation, from its last calls up.
  unfoldable pub finish : Entity → Relationship → String → Action E.World User
  finish found rel now = do
    user ← or_unavailable (E.update_entity cfg.agency_id rel.from_id (activation now))
    or_unavailable (E.update_entity cfg.agency_id found.id (acceptance now))
    pure (entity_to_user E user)

  unfoldable pub linked : Entity → Action E.World User
  unfolding finish
  linked found = do
    now ← now_text E
    rels ← or_unavailable (E.list_relationships (edges_to cfg "has_invitation" found.id))
    rel ← first_or rels (sentinel temporarily_unavailable)
    finish found rel now

  unfoldable pub timely : Entity → Action E.World User
  unfolding linked
  timely found = do
    at ← lift E.now
    let inv = entity_to_invitation E found
    fail_if (ltb inv.expires_at at || inv.status == "expired") (sentinel invitation_expired)
    linked found

  -- A graph in which an entity that the invitation's edge links was made active, and the invitation
  -- accepted, both in another graph.
  pub record Accepts (g h : Graph) (found : Entity) (u : User) : Type 0 where
    pub rel : Relationship
    pub old : Entity
    pub now : String
    pub linked : Occurs rel g.relationships
    pub selected : selects_edge (edges_to cfg "has_invitation" found.id) rel ≡ true
    pub user_there : Occurs old g.entities
    pub user_named : is_named cfg.agency_id rel.from_id old ≡ true
    pub shown : u ≡ entity_to_user E (amended (activation now) old)
    pub written :
        h
        ≡ with_amended cfg.agency_id found.id
            (acceptance now)
            (with_amended cfg.agency_id rel.from_id (activation now) g)

ok_injective : {A : Type 0} (a b : A) → ok a ≡ ok b → a ≡ b
ok_injective a b e = cc

module _ (E : Env) (view : E.World → Graph) (L : IsLawful E view) (cfg : ManagerConfig) where
  finish-Accepts :
      (found : Entity) (rel : Relationship) (now : String) (u : User) (w : E.World)
      → Occurs rel (view w).relationships
      → selects_edge (edges_to cfg "has_invitation" found.id) rel ≡ true
      → (finish E cfg found rel now w).0 ≡ ok u
      → Accepts E cfg (view w) (view (finish E cfg found rel now w).1) found u
  unfolding finish manager_calls
  finish-Accepts found rel now u w o s e =
      updated (E.update_entity cfg.agency_id rel.from_id (activation now) w).0
        (L.update_entity-Writes cfg.agency_id rel.from_id (activation now) w) e
    where
      w1 : E.World
      w1 = (E.update_entity cfg.agency_id rel.from_id (activation now) w).1

      w2 : E.World
      w2 = (E.update_entity cfg.agency_id found.id (acceptance now) w1).1

      accepted :
          (user : Entity) (r : Result Entity)
          → ((old : Entity) × Occurs old (view w).entities
              × (is_named cfg.agency_id rel.from_id old ≡ true)
              × (user ≡ amended (activation now) old)
              × (view w1 ≡ with_amended cfg.agency_id rel.from_id (activation now) (view w)))
          → Writes r (view w1) (view w2) (λ e.
            (old : Entity) × Occurs old (view w1).entities
            × (is_named cfg.agency_id found.id old ≡ true)
            × (e ≡ amended (acceptance now) old)
            × (view w2 ≡ with_amended cfg.agency_id found.id (acceptance now) (view w1)))
          → let rest : Result User × E.World =
              proceed
                (replace r (sentinel temporarily_unavailable))
                (λ _. pure {W = E.World} (entity_to_user E user))
                w2 in
            rest.0 ≡ ok u → Accepts E cfg (view w) (view rest.1) found u
      accepted user (err x) h k done = cc
      accepted user (ok x) h k done = record {
        rel = rel;
        old = h.0;
        now = now;
        linked = o;
        selected = s;
        user_there = h.1;
        user_named = h.2;
        shown = sym (ok_injective _ _ done) ∙ ap (entity_to_user E) h.3;
        written = rw (k.4, h.4) refl;
      }

      updated :
          (r : Result Entity)
          → Writes r (view w) (view w1) (λ e.
            (old : Entity) × Occurs old (view w).entities
            × (is_named cfg.agency_id rel.from_id old ≡ true)
            × (e ≡ amended (activation now) old)
            × (view w1 ≡ with_amended cfg.agency_id rel.from_id (activation now) (view w)))
          → let rest : Result User × E.World =
              proceed
                (replace r (sentinel temporarily_unavailable))
                (λ user.
                  or_unavailable (E.update_entity cfg.agency_id found.id (acceptance now))
                  >> pure (entity_to_user E user))
                w1 in
            rest.0 ≡ ok u → Accepts E cfg (view w) (view rest.1) found u
      updated (err x) h done = cc
      updated (ok user) h done =
          accepted user (E.update_entity cfg.agency_id found.id (acceptance now) w1).0 h
            (L.update_entity-Writes cfg.agency_id found.id (acceptance now) w1) done

  pub linked-Accepts :
      (found : Entity) (u : User) (w : E.World)
      → (linked E cfg found w).0 ≡ ok u
      → Accepts E cfg (view w) (view (linked E cfg found w).1) found u
  unfolding linked manager_calls
  linked-Accepts found u w e =
      listed (E.list_relationships (edges_to cfg "has_invitation" found.id) w1).0
        (L.list_relationships-ListsAll (edges_to cfg "has_invitation" found.id) w1) e
    where
      now : String
      now = E.format_time (E.now w).0

      w1 : E.World
      w1 = (E.now w).1

      w2 : E.World
      w2 = (E.list_relationships (edges_to cfg "has_invitation" found.id) w1).1

      same : view w2 ≡ view w
      same = L.list_relationships-view (edges_to cfg "has_invitation" found.id) w1 ∙ L.now-view w

      listed :
          (r : Result (List Relationship))
          → ListsAll r
              (view w1).relationships
              (selects_edge (edges_to cfg "has_invitation" found.id))
          → let rest : Result User × E.World =
              proceed
                (replace r (sentinel temporarily_unavailable))
                (λ rels. first_or rels (sentinel temporarily_unavailable) >>= λ rel.
                  finish E cfg found rel now)
                w2 in
            rest.0 ≡ ok u → Accepts E cfg (view w) (view rest.1) found u
      listed (err x) h done = cc
      listed (ok []) h done = cc
      listed (ok (rel ∷ rels)) h done =
          let o = (h rel).0 (inl refl) in
          rw (← same) (
            finish-Accepts found rel now u w2
              (rw (L.list_relationships-view (edges_to cfg "has_invitation" found.id) w1) o.0) o.1
              done)
