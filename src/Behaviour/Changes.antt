-- ===== src/Behaviour/Changes.antt =====
-- org_lifecycle.go: the changes of a user's status succeed in a store that does not fail where it
-- need not.
use code_vald_org.Prelude.{String, ◌==◌, ◌≡◌, refl, sym, subst, ◌∙◌, ap, true, eq_iff}
use code_vald_org.Graph.{Properties, Entity}
use code_vald_org.Graph.State.{Graph}
use code_vald_org.Graph.Sound.{HasUniqueIds, named_unique}
use code_vald_org.Effects.{Env, Action, ok, pure, ◌>>=◌, ◌>>◌}
use code_vald_org.Models.{User, ManagerConfig}
use code_vald_org.Helpers.{entity_to_user}
use code_vald_org.Store.Lawful.{IsLawful}
use code_vald_org.Store.Reliable.{
  is_patch, IsPatchable, IsReliable, Returns, Returns-bind, Returns-then, Returns-pure,
  Returns-pass, Returns-on_error, Returns-get, Returns-update, Returns-now_text,
}
use code_vald_org.Manager.Calls.{or_unavailable, now_text}
use code_vald_org.Manager.Users.{get_user, suspend_user, reactivate_user, delete_user}
use code_vald_org.Behaviour.Users.{
  IsUser, Changed, Shows, suspension, reactivation, tombstone, suspend_user-Changed,
  reactivate_user-Changed, delete_user-Changed,
}

module _ (E : Env) (view : E.World → Graph) (L : IsLawful E view) (R : IsReliable E view)
    (cfg : ManagerConfig) where
  get_user-Returns :
      (id : String) (e : Entity) (w : E.World)
      → HasUniqueIds (view w).entities
      → IsUser E view L cfg id (view w) e
      → Returns (get_user E cfg id) w (λ u v. view v ≡ view w)
  unfolding get_user
  get_user-Returns id e w unique user =
      Returns-bind _ _ w _ _
        (Returns-on_error _ _ w _ (Returns-get E view L R cfg.agency_id id w (e, user.0, user.1)))
        λ found v p.
          let same : found ≡ e =
            named_unique cfg.agency_id id (view w).entities found e unique p.0 user.0 p.1 user.1 in
          let typed : (found.type_id == "User") ≡ true =
            (eq_iff found.type_id "User").1 (ap (λ (x : Entity). x.type_id) same ∙ user.2) in
          Returns-then _ _ v _ _ (Returns-pass _ _ v (λ u x. x ≡ v) (rw typed refl) refl)
            λ u x q. Returns-pure _ x _ (ap view q ∙ p.2)

  change-Returns :
      {A : Type 0} (id : String) (patch : String → Properties) (f : Entity → A) (e : Entity)
      (w : E.World)
      → HasUniqueIds (view w).entities
      → IsUser E view L cfg id (view w) e
      → ((now : String) → is_patch "User" (patch now) ≡ true)
      → let m : Action E.World A =
          get_user E cfg id
          >> (now_text E >>= λ now.
              or_unavailable (E.update_entity cfg.agency_id id (patch now)) >>= λ x. pure (f x)) in
        Returns m w (λ a v. Unit {0})
  change-Returns id patch f e w unique user allows =
      Returns-then _ _ w _ _ (get_user-Returns id e w unique user) λ u v1 p1.
        Returns-bind _ _ v1 _ _ (Returns-now_text E view L R v1) λ now v2 p2.
          let there : IsPatchable cfg.agency_id id (patch now) (view v2) =
            subst (IsPatchable cfg.agency_id id (patch now)) (sym (p2 ∙ p1))
              (e, user.0, user.1, rw user.2 (allows now)) in
          let unique' : HasUniqueIds (view v2).entities =
            subst (λ (g : Graph). HasUniqueIds g.entities) (sym (p2 ∙ p1)) unique in
          Returns-bind _ _ v2 _ _
            (Returns-update E view L R cfg.agency_id id (patch now) v2 unique' there)
            λ x v3 p3. Returns-pure _ v3 _ tt

  -- In a store that behaves as documented and whose lookups of what is there and patches that the
  -- schema allows do not fail, and in which ids are unique: where a User of the id is in the graph, of
  -- whatever status, SuspendUser and ReactivateUser return that User with the status `suspended` and
  -- `active`, and DeleteUser returns no error. The code of each only patches the User: no
  -- TokenRevocation and no AuditEvent is written.
  pub user_changes_complete :
      (id : String) (e : Entity) (w : E.World)
      → HasUniqueIds (view w).entities
      → IsUser E view L cfg id (view w) e
      → ((u : User) × ((suspend_user E cfg id w).0 ≡ ok u)
          × Changed E view L cfg id
              (suspension E view L cfg)
              (view w)
              (view (suspend_user E cfg id w).1)
              (Shows E view L cfg u "suspended"))
        × ((u : User) × ((reactivate_user E cfg id w).0 ≡ ok u)
            × Changed E view L cfg id
                (reactivation E view L cfg)
                (view w)
                (view (reactivate_user E cfg id w).1)
                (Shows E view L cfg u "active"))
        × ((delete_user E cfg id w).0 ≡ ok tt)
        × Changed E view L cfg id
            (tombstone E view L cfg)
            (view w)
            (view (delete_user E cfg id w).1)
            (λ _. Unit {0})
  unfolding suspend_user reactivate_user delete_user ◌>>◌
  user_changes_complete id e w unique user =
      let s =
        change-Returns id (suspension E view L cfg) (entity_to_user E) e w unique user
          (λ now. refl) in
      let r =
        change-Returns id (reactivation E view L cfg) (entity_to_user E) e w unique user
          (λ now. refl) in
      let d = change-Returns id (tombstone E view L cfg) (λ x. tt) e w unique user (λ now. refl) in
      (
        (s.value, s.returned, suspend_user-Changed E view L cfg id s.value w unique s.returned),
        (r.value, r.returned, reactivate_user-Changed E view L cfg id r.value w unique r.returned),
        d.returned,
        delete_user-Changed E view L cfg id w unique d.returned,
      )
