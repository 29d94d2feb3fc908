-- ===== src/Behaviour/Completion.antt =====
-- org_lifecycle.go: calls that succeed in a store that does not fail where it need not.
use code_vald_org.Prelude.{
  String, ◌==◌, ◌≡◌, refl, sym, subst, ◌∙◌, ap, true, false, ltb, arith, eq_refl, eq_iff,
}
use code_vald_org.Graph.{Entity, Relationship}
use code_vald_org.Graph.State.{Graph, Occurs, selects, selects_edge, is_named}
use code_vald_org.Graph.Sound.{HasUniqueIds, amended-HasUniqueIds}
use code_vald_org.Effects.{Env, ok}
use code_vald_org.Models.{User, ManagerConfig}
use code_vald_org.Helpers.{entity_to_invitation}
use code_vald_org.Store.Lawful.{IsLawful, ListsAll}
use code_vald_org.Store.Reliable.{
  IsPatchable, IsPatchable-with_amended, IsReliable, Returns, Returns-bind, Returns-then,
  Returns-pure, Returns-pass, Returns-first, Returns-list, Returns-list_relationships,
  Returns-update, Returns-now_text, Returns-now,
}
use code_vald_org.Manager.Calls.{edges_to}
use code_vald_org.Manager.Invitations.{accept_invitation}
use code_vald_org.Behaviour.Invitations.{
  invitations, activation, acceptance, linked, finish, Accepts,
}
use code_vald_org.Behaviour.Acceptance.{read_at, accept_invitation-Accepts}

module _ (E : Env) (view : E.World → Graph) (L : IsLawful E view) (R : IsReliable E view)
    (cfg : ManagerConfig) where
  -- Ids are unique; one entity is listed for the token's hash, a pending Invitation that is not past
  -- its expiry when the clock is read; and it has an edge, as every edge to it is from a User that is
  -- there.
  pub record IsAcceptable (text : String) (w : E.World) (invitation : Entity) : Type 0 where
    pub unique : HasUniqueIds (view w).entities
    pub there : Occurs invitation (view w).entities
    pub selected : selects (invitations E cfg text) invitation ≡ true
    pub only :
        (e : Entity)
        → Occurs e (view w).entities
        → selects (invitations E cfg text) e ≡ true
        → e ≡ invitation
    pub pending : (entity_to_invitation E invitation).status ≡ "pending"
    pub timely :
        ltb (entity_to_invitation E invitation).expires_at (read_at E view L cfg text w) ≡ false
    pub edge : Relationship
    pub edge_there : Occurs edge (view w).relationships
    pub edge_selected : selects_edge (edges_to cfg "has_invitation" invitation.id) edge ≡ true
    pub user_there :
        (r : Relationship)
        → Occurs r (view w).relationships
        → selects_edge (edges_to cfg "has_invitation" invitation.id) r ≡ true
        → (e : Entity) × Occurs e (view w).entities
          × (is_named cfg.agency_id r.from_id e ≡ true)
          × (e.type_id ≡ "User")

  activation-IsPatchable :
      (id now : String) (g : Graph) (e : Entity)
      → Occurs e g.entities
      → is_named cfg.agency_id id e ≡ true
      → e.type_id ≡ "User"
      → IsPatchable cfg.agency_id id (activation now) g
  activation-IsPatchable id now g e o n type_ = (e, o, n, rw type_ refl)

  acceptance-IsPatchable :
      (text now : String) (e : Entity) (w : E.World)
      → Occurs e (view w).entities
      → selects (invitations E cfg text) e ≡ true
      → IsPatchable cfg.agency_id e.id (acceptance now) (view w)
  acceptance-IsPatchable text now e w o s =
      let same : (e.id == e.id) ≡ true = eq_refl e.id in
      let typed : (e.type_id == "Invitation") ≡ true = ground arith in
      let type_ : e.type_id ≡ "Invitation" = (eq_iff e.type_id "Invitation").0 typed in
      (e, o, ground (arith, same), rw type_ refl)

  finish-Returns :
      (found : Entity) (rel : Relationship) (now : String) (w : E.World)
      → HasUniqueIds (view w).entities
      → IsPatchable cfg.agency_id rel.from_id (activation now) (view w)
      → IsPatchable cfg.agency_id found.id (acceptance now) (view w)
      → Returns (finish E cfg found rel now) w (λ u v. Unit {0})
  unfolding finish
  finish-Returns found rel now w unique user inv =
      Returns-bind _ _ w _ _ (Returns-update E view L R cfg.agency_id rel.from_id _ w unique user)
        λ e v p.
          Returns-then _ _ v _ _
            (Returns-update E view L R cfg.agency_id found.id _ v
              (subst (λ (g : Graph). HasUniqueIds g.entities) (sym p)
                (amended-HasUniqueIds cfg.agency_id rel.from_id (activation now) (view w).entities
                  unique))
              (subst (IsPatchable cfg.agency_id found.id (acceptance now)) (sym p) (
                IsPatchable-with_amended cfg.agency_id rel.from_id (activation now) cfg.agency_id
                  found.id (acceptance now) (view w) inv)))
            λ e' v' p'. Returns-pure _ v' _ tt

  linked-Returns :
      (text : String) (found : Entity) (w v : E.World)
      → IsAcceptable text w found
      → view v ≡ view w
      → Returns (linked E cfg found) v (λ u v. Unit {0})
  unfolding linked
  linked-Returns text found w v a same =
      Returns-bind _ _ v _ _ (Returns-now_text E view L R v) λ now v1 s1.
        Returns-bind _ _ v1 _ _
          (Returns-list_relationships E view L R (edges_to cfg "has_invitation" found.id) v1)
          λ rels v2 p2.
            let g1 : view v1 ≡ view w = s1 ∙ same in
            let listed =
              subst
                (λ g.
                  ListsAll (ok rels) g.relationships
                    (selects_edge (edges_to cfg "has_invitation" found.id)))
                g1 p2.0 in
            Returns-bind _ _ v2 _ _
              (Returns-first rels _ v2 a.edge ((listed a.edge).1 (a.edge_there, a.edge_selected)))
              λ rel v3 p3.
                let g3 : view v3 ≡ view w = ap view p3.1 ∙ p2.1 ∙ g1 in
                let chosen = (listed rel).0 p3.0 in
                let user = a.user_there rel chosen.0 chosen.1 in
                finish-Returns found rel now v3
                  (subst (λ (g : Graph). HasUniqueIds g.entities) (sym g3) a.unique)
                  (subst (IsPatchable cfg.agency_id rel.from_id (activation now)) (sym g3)
                    (activation-IsPatchable rel.from_id now (view w) user.0 user.1 user.2 user.3))
                  (subst (IsPatchable cfg.agency_id found.id (acceptance now)) (sym g3)
                    (acceptance-IsPatchable text now found w a.there a.selected))

  accept_invitation-Returns :
      (text : String) (w : E.World) (invitation : Entity)
      → IsAcceptable text w invitation
      → Returns (accept_invitation E cfg text) w (λ u v. Unit {0})
  unfolding accept_invitation linked finish
  accept_invitation-Returns text w invitation a =
      Returns-bind _ _ w _ _ (Returns-list E view L R (invitations E cfg text) w) λ es v1 p1.
        Returns-bind _ _ v1 _ _
          (Returns-first es _ v1 invitation ((p1.0 invitation).1 (a.there, a.selected)))
          λ found v2 p2.
            let chosen = (p1.0 found).0 p2.0 in
            let b : IsAcceptable text w found =
              subst (IsAcceptable text w) (sym (a.only found chosen.0 chosen.1)) a in
            Returns-then _ _ v2 _ _ (Returns-pass _ _ v2 (λ u v. v ≡ v2) (rw b.pending refl) refl)
              λ u v3 p3. Returns-bind _ _ v3 _ _ (Returns-now E view L R v3) λ at v4 p4.
                let read : at ≡ read_at E view L cfg text w =
                  p4.0 ∙ ap (λ x. (E.now x).0) (p3 ∙ p2.1 ∙ p1.2) in
                let time : ltb (entity_to_invitation E found).expires_at at ≡ false =
                  rw read b.timely in
                let status : ((entity_to_invitation E found).status == "expired") ≡ false =
                  rw b.pending refl in
                Returns-then _ _ v4 _ _
                  (Returns-pass _ _ v4 (λ u v. v ≡ v4) (rw (time, status) refl) refl)
                  λ u v5 p5.
                    linked-Returns text found w v5 b
                      (ap view p5 ∙ p4.1 ∙ ap view (p3 ∙ p2.1) ∙ p1.1)

  -- In a store that behaves as documented and whose listings, lookups of what is there and patches
  -- that the schema allows do not fail, and in which ids are unique: a token of a pending Invitation
  -- (the only one with its hash, not past its expiry at the reading of the clock, and with an edge to
  -- it, as every edge to it is from a User that is there) is accepted. AcceptInvitation returns a
  -- User, and the code patches two entities: one that has an edge to the Invitation gets the status
  -- `active`, the Invitation gets `accepted`. It creates nothing: no Membership and no AuditEvent.
  pub accept_invitation_completes :
      (text : String) (w : E.World) (invitation : Entity)
      → IsAcceptable text w invitation
      → (u : User) × ((accept_invitation E cfg text w).0 ≡ ok u)
        × Accepts E cfg (view w) (view (accept_invitation E cfg text w).1) invitation u
  accept_invitation_completes text w invitation a =
      let r = accept_invitation-Returns text w invitation a in
      let (found, o, s, accepted, expired, timely, done) =
        accept_invitation-Accepts E view L cfg text r.value w r.returned in
      (
        r.value,
        r.returned,
        subst (λ e. Accepts E cfg (view w) (view (accept_invitation E cfg text w).1) e r.value)
            (a.only found o s) done,
      )
