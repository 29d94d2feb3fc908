-- ===== src/Behaviour/Revocation.antt =====
-- token_ops.go: revocation.
use code_vald_org.Prelude.{
  String, ◌==◌, ◌≡◌, refl, true, false, List, [], ◌∷◌, any, arith, eq_iff, if◌then◌else◌,
}
use code_vald_org.Errors.{sentinel, temporarily_unavailable}
use code_vald_org.Graph.{str, Entity, CreateEntityRequest}
use code_vald_org.Graph.State.{Graph, Occurs, selects, is_named, with_entity}
use code_vald_org.Graph.Occurs.{occurs_last}
use code_vald_org.Effects.{Env, Result, ok, err, pure, proceed, replace, ◌>>◌, calls}
use code_vald_org.Models.{ManagerConfig}
use code_vald_org.Crypto.{hash_sha256}
use code_vald_org.Store.Lawful.{IsLawful, ListsAll, Writes}
use code_vald_org.Manager.Calls.{draft, or_unavailable, manager_calls}
use code_vald_org.Behaviour.Tokens.{revocations}
use code_vald_org.Manager.Tokens.{inactive, introspect, introspect_unless, find_expiry, revoke}

module _ (E : Env) (view : E.World → Graph) (L : IsLawful E view) (cfg : ManagerConfig) where
  -- A revocation in the graph makes Introspect answer inactive.
  revoked-inactive :
      (text : String) (e : Entity) (w : E.World)
      → Occurs e (view w).entities
      → selects (revocations E cfg text) e ≡ true
      → (introspect E cfg text w).0 ≡ ok inactive
  unfolding introspect introspect_unless calls
  revoked-inactive text e w o s =
      cases (E.list_entities (revocations E cfg text) w).0
        (L.list_entities-ListsAll (revocations E cfg text) w)
    where
      cases :
          (r : Result (List Entity))
          → ListsAll r (view w).entities (selects (revocations E cfg text))
          → (introspect_unless E cfg
              (hash_sha256 E text)
              r
              (E.list_entities (revocations E cfg text) w).1).0
            ≡ ok inactive
      cases (err x) listed = refl
      cases (ok (x ∷ xs)) listed = refl
      cases (ok []) listed = absurd ((listed e).1 (o, s))

  -- A creation that succeeded, and whose value was dropped, stored what was asked for.
  created-Occurs :
      (req : CreateEntityRequest) (w : E.World)
      → ((or_unavailable (E.create_entity req) >> pure tt) w).0 ≡ ok tt
      → (e : Entity) × Occurs e
          (view ((or_unavailable (E.create_entity req) >> pure tt) w).1).entities
        × (e.agency_id ≡ req.agency_id)
        × (e.type_id ≡ req.type_id)
        × (e.properties ≡ req.properties)
  unfolding manager_calls
  created-Occurs req w = cases (E.create_entity req w).0 (L.create_entity-Writes req w)
    where
      cases :
          (r : Result Entity)
          → let v = (E.create_entity req w).1 in
            Writes r (view w) (view v) (λ e.
              (e.agency_id ≡ req.agency_id)
              × (e.type_id ≡ req.type_id)
              × (e.properties ≡ req.properties)
              × (any (is_named e.agency_id e.id) (view w).entities ≡ false)
              × (view v ≡ with_entity e (view w)))
            → (proceed
                (replace r (sentinel temporarily_unavailable))
                (λ _. pure {W = E.World} tt)
                v).0
              ≡ ok tt
            → (e : Entity) × Occurs e
                (view
                  (proceed
                    (replace r (sentinel temporarily_unavailable))
                    (λ _. pure {W = E.World} tt)
                    v).1).entities
              × (e.agency_id ≡ req.agency_id)
              × (e.type_id ≡ req.type_id)
              × (e.properties ≡ req.properties)
      cases (err x) h ok_ = cc
      cases (ok e) h ok_ = (e, rw h.4 (occurs_last e (view w).entities), h.0, h.1, h.2)

  -- After a Revoke that succeeded, Introspect of that token answers inactive.
  pub revoke-introspect :
      (text reason : String) (w : E.World)
      → (revoke E cfg text reason w).0 ≡ ok tt
      → (introspect E cfg text (revoke E cfg text reason w).1).0 ≡ ok inactive
  unfolding revoke manager_calls
  revoke-introspect text reason w e =
      after
        (find_expiry E cfg (hash_sha256 E text) ("AccessToken" ∷ "RefreshToken" ∷ []) (E.now w).1).0
        e
    where
      now : String
      now = E.format_time (E.now w).0

      record_of : String → CreateEntityRequest
      record_of found = draft cfg "TokenRevocation" (
          ("agency_id", str cfg.agency_id)
          ∷ ("token_hash", str (hash_sha256 E text))
          ∷ ("revoked_at", str now)
          ∷ ("expires_at", str (if found == "" then now else found))
          ∷ ("reason", str (if reason == "" then "user_logout" else reason))
          ∷ [])

      after :
          (r : Result String)
          → let v =
              (find_expiry E cfg
                (hash_sha256 E text)
                ("AccessToken" ∷ "RefreshToken" ∷ [])
                (E.now w).1).1 in
            let rest : Result (Unit {0}) × E.World =
              proceed r
                (λ found. or_unavailable (E.create_entity (record_of found)) >> pure tt)
                v in
            rest.0 ≡ ok tt → (introspect E cfg text rest.1).0 ≡ ok inactive
      after (err x) h = cc
      after (ok found) h =
          let d = created-Occurs (record_of found) _ h in
          revoked-inactive text d.0 _ d.1 (
            rw (d.2, d.3, d.4)
              (ground (
                arith,
                eq_iff cfg.agency_id cfg.agency_id,
                eq_iff (hash_sha256 E text) (hash_sha256 E text),
              )))
