-- ===== src/Behaviour/Users.antt =====
-- org_lifecycle.go: the lookup of a user, and the changes of a user's status.
use code_vald_org.Prelude.{
  String, ◌==◌, ◌≡◌, refl, sym, ap, ◌∙◌, true, not, inl, inr, [], ◌∷◌, arith, eq_iff, Bool-cases,
}
use code_vald_org.Errors.{sentinel, wrap, error_is, user_not_found, temporarily_unavailable}
use code_vald_org.Graph.{str, Properties, Entity, insert}
use code_vald_org.Graph.State.{Graph, Occurs, is_named, amended, with_amended}
use code_vald_org.Graph.Sound.{HasUniqueIds, named_unique}
use code_vald_org.Graph.Lookup.{lookup-insert}
use code_vald_org.Effects.{
  Env, Result, ok, err, Action, pure, proceed, replace, map_error, ◌>>=◌, ◌>>◌, fail_if, calls,
}
use code_vald_org.Models.{User, ManagerConfig}
use code_vald_org.Helpers.{entity_to_user, prop_str}
use code_vald_org.Store.Lawful.{IsLawful, Finds, Writes}
use code_vald_org.Manager.Calls.{or_unavailable, now_text, manager_calls}
use code_vald_org.Manager.Users.{get_user, suspend_user, reactivate_user, delete_user}

ok_injective : {A : Type 0} (a b : A) → ok a ≡ ok b → a ≡ b
ok_injective a b e = cc

module _ (E : Env) (view : E.World → Graph) (L : IsLawful E view) (cfg : ManagerConfig) where
  -- The User entity of that id.
  abbrev pub IsUser : String → Graph → Entity → Type 0
  IsUser id g e = Occurs e g.entities × (is_named cfg.agency_id id e ≡ true) × (e.type_id ≡ "User")

  -- GetUser's result: a User entity of the graph, or an error that is ErrUserNotFound.
  abbrev pub Fetched : String → Graph → Result User → Type 0
  Fetched id g (ok u) = (e : Entity) × IsUser id g e × (u ≡ entity_to_user E e)
  Fetched id g (err x) = error_is x user_not_found ≡ true

  -- GetUser returns a User entity of the agency with that id, converted, or fails with an error that
  -- `errors.Is` finds to be ErrUserNotFound: also where the id is that of an entity of another type. It
  -- leaves the graph as it was.
  pub get_user-Fetched :
      (id : String) (w : E.World)
      → Fetched id (view w) (get_user E cfg id w).0 × (view (get_user E cfg id w).1 ≡ view w)
  unfolding get_user calls error_is
  get_user-Fetched id w =
      cases (E.get_entity cfg.agency_id id w).0 (L.get_entity-Finds cfg.agency_id id w)
    where
      cases :
          (r : Result Entity)
          → Finds r (view w).entities (is_named cfg.agency_id id)
          → let rest : Result User × E.World =
              proceed
                (map_error r (λ e. wrap (sentinel user_not_found) e))
                (λ e.
                  fail_if (not (e.type_id == "User")) (sentinel user_not_found)
                  >> pure (entity_to_user E e))
                (E.get_entity cfg.agency_id id w).1 in
            Fetched id (view w) rest.0 × (view rest.1 ≡ view w)
      cases (err e) h = (refl, L.get_entity-view cfg.agency_id id w)
      cases (ok e) h = elim (Bool-cases (e.type_id == "User")) [
        | inl user ↦ rw user (
          (e, (h.0, h.1, ground (arith, eq_iff e.type_id "User")), refl),
          L.get_entity-view cfg.agency_id id w,
        )
        | inr other_ ↦ rw other_ (refl, L.get_entity-view cfg.agency_id id w)
      ]

  -- What a change that succeeded did: the patch of a User that was there.
  abbrev pub Changed : String → (String → Properties) → (g g' : Graph) → (Entity → Type 0) → Type 0
  Changed id patch g g' shown =
      (old : Entity) × (now : String) × IsUser id g old
      × (g' ≡ with_amended cfg.agency_id id (patch now) g)
      × shown (amended (patch now) old)

  changed :
      {A : Type 0} (id : String) (patch : String → Properties) (f : Entity → A) (a : A)
      (w : E.World)
      → HasUniqueIds (view w).entities
      → let m : Action E.World A =
          get_user E cfg id
          >> (now_text E >>= λ now.
              or_unavailable (E.update_entity cfg.agency_id id (patch now)) >>= λ e. pure (f e)) in
        (m w).0 ≡ ok a → Changed id patch (view w) (view (m w).1) (λ e. a ≡ f e)
  unfolding manager_calls
  changed {A} id patch f a w unique e = fetched (get_user E cfg id w).0 (get_user-Fetched id w).0 e
    where
      w1 : E.World
      w1 = (get_user E cfg id w).1

      now : String
      now = E.format_time (E.now w1).0

      w2 : E.World
      w2 = (E.now w1).1

      same : view w2 ≡ view w
      same = L.now-view w1 ∙ (get_user-Fetched id w).1

      updated :
          (r : Result Entity)
          → let v = (E.update_entity cfg.agency_id id (patch now) w2).1 in
            let rest : Result A × E.World =
              proceed (replace r (sentinel temporarily_unavailable)) (λ e. pure (f e)) v in
            (user : Entity)
            → IsUser id (view w) user
            → Writes r (view w2) (view v) (λ e.
              (old : Entity) × Occurs old (view w2).entities
              × (is_named cfg.agency_id id old ≡ true)
              × (e ≡ amended (patch now) old)
              × (view v ≡ with_amended cfg.agency_id id (patch now) (view w2)))
            → rest.0 ≡ ok a
            → Changed id patch (view w) (view rest.1) (λ e. a ≡ f e)
      updated (err x) user is_user h done = cc
      updated (ok e) user is_user h done =
          let same_one : h.0 ≡ user =
            named_unique cfg.agency_id id (view w).entities h.0 user unique (rw (← same) h.1)
              is_user.0 h.2 is_user.1 in
          (
            user,
            now,
            is_user,
            rw (← same) h.4,
            sym (ok_injective _ _ done) ∙ ap f (h.3 ∙ ap (amended (patch now)) same_one),
          )

      fetched :
          (r : Result User)
          → Fetched id (view w) r
          → let rest : Result A × E.World =
              proceed r
                (λ _. now_text E >>= λ now.
                  or_unavailable (E.update_entity cfg.agency_id id (patch now)) >>= λ e. pure (f e))
                w1 in
            rest.0 ≡ ok a → Changed id patch (view w) (view rest.1) (λ e. a ≡ f e)
      fetched (err x) h done = cc
      fetched (ok u) h done =
          updated (E.update_entity cfg.agency_id id (patch now) w2).0 h.0 h.1
            (L.update_entity-Writes cfg.agency_id id (patch now) w2) done

  abbrev pub suspension : String → Properties
  suspension now = ("status", str "suspended") ∷ ("updated_at", str now) ∷ []

  abbrev pub reactivation : String → Properties
  reactivation now = ("status", str "active") ∷ ("updated_at", str now) ∷ []

  abbrev pub tombstone : String → Properties
  tombstone now = ("status", str "deleted") ∷ ("deleted_at", str now) ∷ ("updated_at", str now) ∷ []

  -- The User of an entity that was patched.
  abbrev pub Shows : User → String → Entity → Type 0
  Shows u status e = (u ≡ entity_to_user E e) × (u.status ≡ status)

  patched_status :
      (u : User) (status now : String) (old : Entity)
      → u ≡ entity_to_user E (amended (("status", str status) ∷ ("updated_at", str now) ∷ []) old)
      → u.status ≡ status
  unfolding entity_to_user
  patched_status u status now old e =
      let stored : prop_str
            (insert "status" (str status) (insert "updated_at" (str now) old.properties)) "status"
          ≡ status =
        rw
          (
            prop_str,
            lookup-insert "status" "status" (str status)
                (insert "updated_at" (str now) old.properties),
          )
          refl in
      ap (λ (v : User). v.status) e ∙ stored

  -- Where ids are unique and SuspendUser succeeds, a User of that id was in the graph, of whatever
  -- status; the code sets its properties `status` and `updated_at` and touches nothing else in the
  -- graph: it writes no TokenRevocation and no AuditEvent. The returned User is the patched entity,
  -- with status `suspended`.
  pub suspend_user-Changed :
      (id : String) (u : User) (w : E.World)
      → HasUniqueIds (view w).entities
      → (suspend_user E cfg id w).0 ≡ ok u
      → Changed id suspension (view w) (view (suspend_user E cfg id w).1) (Shows u "suspended")
  unfolding suspend_user
  suspend_user-Changed id u w unique e =
      let c = changed id suspension (entity_to_user E) u w unique e in
      (c.0, c.1, c.2, c.3, (c.4, patched_status u "suspended" c.1 c.0 c.4))

  -- Where ids are unique and ReactivateUser succeeds, a User of that id was in the graph, of whatever
  -- status, also one that was deleted; the code sets its properties `status` and `updated_at` and
  -- touches nothing else in the graph: it writes no AuditEvent, and leaves `deleted_at`. The returned
  -- User is the patched entity, with status `active`.
  pub reactivate_user-Changed :
      (id : String) (u : User) (w : E.World)
      → HasUniqueIds (view w).entities
      → (reactivate_user E cfg id w).0 ≡ ok u
      → Changed id reactivation (view w) (view (reactivate_user E cfg id w).1) (Shows u "active")
  unfolding reactivate_user
  reactivate_user-Changed id u w unique e =
      let c = changed id reactivation (entity_to_user E) u w unique e in
      (c.0, c.1, c.2, c.3, (c.4, patched_status u "active" c.1 c.0 c.4))

  -- Where ids are unique and DeleteUser succeeds, the User of that id stays in the graph: its
  -- properties `status`, `deleted_at` and `updated_at` are set, and the code touches nothing else: it
  -- writes no TokenRevocation and no AuditEvent.
  pub delete_user-Changed :
      (id : String) (w : E.World)
      → HasUniqueIds (view w).entities
      → (delete_user E cfg id w).0 ≡ ok tt
      → Changed id tombstone (view w) (view (delete_user E cfg id w).1) (λ _. Unit {0})
  unfolding delete_user ◌>>◌
  delete_user-Changed id w unique e =
      let c = changed id tombstone (λ _. tt) tt w unique e in (c.0, c.1, c.2, c.3, tt)
