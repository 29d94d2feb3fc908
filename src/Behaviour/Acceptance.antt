-- ===== src/Behaviour/Acceptance.antt =====
-- org_lifecycle.go: which invitations AcceptInvitation accepts.
use code_vald_org.Prelude.{
  ℕ, String, ◌==◌, ◌≡◌, refl, ◌∙◌, Bool, true, false, ◌||◌, inl, List, [], ◌∷◌, ltb,
}
use code_vald_org.Errors.{
  sentinel, invitation_not_found, invitation_already_accepted, invitation_expired,
  temporarily_unavailable,
}
use code_vald_org.Graph.{Entity}
use code_vald_org.Graph.State.{Graph, Occurs, selects}
use code_vald_org.Effects.{Env, Result, ok, err, proceed, replace, fail_if, first_or, ◌>>=◌, ◌>>◌}
use code_vald_org.Models.{User, ManagerConfig}
use code_vald_org.Helpers.{entity_to_invitation}
use code_vald_org.Store.Lawful.{IsLawful, ListsAll}
use code_vald_org.Manager.Calls.{manager_calls}
use code_vald_org.Manager.Invitations.{accept_invitation}
use code_vald_org.Behaviour.Invitations.{
  invitations, linked, timely, finish, Accepts, linked-Accepts,
}

module _ (E : Env) (view : E.World → Graph) (L : IsLawful E view) (cfg : ManagerConfig) where
  -- The first reading of the clock in AcceptInvitation, after the lookup.
  abbrev pub read_at : String → E.World → ℕ
  read_at text w = (E.now (E.list_entities (invitations E cfg text) w).1).0

  -- Where AcceptInvitation succeeds, an Invitation with the token's hash is in the graph, whose status
  -- is neither `accepted` nor `expired` and whose expiry is not before the clock; an edge
  -- `has_invitation` links an entity to it, whose type the code does not look at; the graph that
  -- results differs in that entity's status, which is `active`, and the Invitation's, which is
  -- `accepted`, with their times, so that no Membership and no AuditEvent is created; and the returned
  -- User is made of the patched entity.
  pub accept_invitation-Accepts :
      (text : String) (u : User) (w : E.World)
      → (accept_invitation E cfg text w).0 ≡ ok u
      → (found : Entity) × Occurs found (view w).entities
        × (selects (invitations E cfg text) found ≡ true)
        × (((entity_to_invitation E found).status == "accepted") ≡ false)
        × (((entity_to_invitation E found).status == "expired") ≡ false)
        × (ltb (entity_to_invitation E found).expires_at (read_at text w) ≡ false)
        × Accepts E cfg (view w) (view (accept_invitation E cfg text w).1) found u
  unfolding accept_invitation timely linked finish manager_calls
  accept_invitation-Accepts text u w e =
      listed (E.list_entities (invitations E cfg text) w).0
        (L.list_entities-ListsAll (invitations E cfg text) w) e
    where
      w1 : E.World
      w1 = (E.list_entities (invitations E cfg text) w).1

      w2 : E.World
      w2 = (E.now w1).1

      same : view w2 ≡ view w
      same = L.now-view w1 ∙ L.list_entities-view (invitations E cfg text) w

      in_time :
          (found : Entity) (late over : Bool)
          → Occurs found (view w).entities × (selects (invitations E cfg text) found ≡ true)
          → ((entity_to_invitation E found).status == "accepted") ≡ false
          → ltb (entity_to_invitation E found).expires_at (E.now w1).0 ≡ late
          → ((entity_to_invitation E found).status == "expired") ≡ over
          → let rest : Result User × E.World =
              (fail_if (late || over) (sentinel invitation_expired) >> linked E cfg found) w2 in
            rest.0 ≡ ok u
            → (found : Entity) × Occurs found (view w).entities
              × (selects (invitations E cfg text) found ≡ true)
              × (((entity_to_invitation E found).status == "accepted") ≡ false)
              × (((entity_to_invitation E found).status == "expired") ≡ false)
              × (ltb (entity_to_invitation E found).expires_at (E.now w1).0 ≡ false)
              × Accepts E cfg (view w) (view rest.1) found u
      in_time found true over o a l x done = cc
      in_time found false true o a l x done = cc
      in_time found false false o a l x done =
          (found, o.0, o.1, a, x, l, rw (← same) (linked-Accepts E view L cfg found u w2 done))

      guarded :
          (found : Entity) (taken : Bool)
          → Occurs found (view w).entities × (selects (invitations E cfg text) found ≡ true)
          → ((entity_to_invitation E found).status == "accepted") ≡ taken
          → let rest : Result User × E.World =
              (fail_if taken (sentinel invitation_already_accepted) >> timely E cfg found) w1 in
            rest.0 ≡ ok u
            → (found : Entity) × Occurs found (view w).entities
              × (selects (invitations E cfg text) found ≡ true)
              × (((entity_to_invitation E found).status == "accepted") ≡ false)
              × (((entity_to_invitation E found).status == "expired") ≡ false)
              × (ltb (entity_to_invitation E found).expires_at (E.now w1).0 ≡ false)
              × Accepts E cfg (view w) (view rest.1) found u
      guarded found true o a done = cc
      guarded found false o a done = in_time found _ _ o a refl refl done

      listed :
          (r : Result (List Entity))
          → ListsAll r (view w).entities (selects (invitations E cfg text))
          → let rest : Result User × E.World =
              proceed
                (replace r (sentinel temporarily_unavailable))
                (λ es. first_or es (sentinel invitation_not_found) >>= λ found.
                  fail_if
                    ((entity_to_invitation E found).status == "accepted")
                    (sentinel invitation_already_accepted)
                  >> timely E cfg found)
                w1 in
            rest.0 ≡ ok u
            → (found : Entity) × Occurs found (view w).entities
              × (selects (invitations E cfg text) found ≡ true)
              × (((entity_to_invitation E found).status == "accepted") ≡ false)
              × (((entity_to_invitation E found).status == "expired") ≡ false)
              × (ltb (entity_to_invitation E found).expires_at (E.now w1).0 ≡ false)
              × Accepts E cfg (view w) (view rest.1) found u
      listed (err x) h done = cc
      listed (ok []) h done = cc
      listed (ok (found ∷ more)) h done = guarded found _ ((h found).0 (inl refl)) refl done
