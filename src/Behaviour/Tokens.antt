-- ===== src/Behaviour/Tokens.antt =====
-- token_ops.go: introspection.
use code_vald_org.Prelude.{
  String, ◌≡◌, refl, ap, sym, ◌∙◌, Bool, true, false, ◌⊎◌, inl, inr, List, [], ◌∷◌, any, arith, ltb,
  nat_eq, Bool-cases, if◌then◌else◌,
}
use code_vald_org.Graph.{str, Entity, EntityFilter}
use code_vald_org.Graph.State.{Graph, Occurs, selects}
use code_vald_org.Effects.{Env, Result, ok, err, pure, lift, ◌>>=◌, calls}
use code_vald_org.Models.{IntrospectResult, ManagerConfig}
use code_vald_org.Helpers.{prop_time}
use code_vald_org.Crypto.{hash_sha256}
use code_vald_org.Store.Lawful.{IsLawful, ListsAll}
use code_vald_org.Store.From.{Listed-nil}
use code_vald_org.Manager.Calls.{query}
use code_vald_org.Manager.Tokens.{
  inactive, bearer, introspect, introspect_unless, introspect_listed, introspect_found,
}

module _ (E : Env) (cfg : ManagerConfig) where
  -- The lookups that Introspect makes for a token.
  abbrev pub revocations : String → EntityFilter
  revocations text = query cfg "TokenRevocation" (("token_hash", str (hash_sha256 E text)) ∷ [])

  abbrev pub tokens : String → EntityFilter
  tokens text = query cfg "AccessToken" (("token_hash", str (hash_sha256 E text)) ∷ [])

  -- The world in which Introspect reads the clock, after its two lookups.
  abbrev pub at_expiry_test : String → E.World → E.World
  at_expiry_test text w = (E.list_entities (tokens text) (E.list_entities (revocations text) w).1).1

ok_injective : {A : Type 0} (a b : A) → ok a ≡ ok b → a ≡ b
ok_injective a b e = cc

not_inactive : (r : IntrospectResult) → ok inactive ≡ ok r → r.active ≡ true → ⊥
not_inactive r e a = cc (ap (λ (x : IntrospectResult). x.active) (ok_injective inactive r e), a)

module _ (E : Env) (view : E.World → Graph) (L : IsLawful E view) (cfg : ManagerConfig) where
  if_active :
      (late : Bool) (live r : IntrospectResult)
      → ok (if late then inactive else live) ≡ ok r
      → r.active ≡ true
      → (r ≡ live) × (late ≡ false)
  if_active true live r e a = absurd (not_inactive r e a)
  if_active false live r e a = (sym (ok_injective live r e), refl)

  found-active :
      (t : Entity) (w : E.World) (r : IntrospectResult)
      → (introspect_found E cfg t w).0 ≡ ok r
      → r.active ≡ true
      → let expires_at = prop_time E t.properties "expires_at" in
        (r ≡ bearer expires_at (prop_time E t.properties "created_at"))
        × ((expires_at ≡ 0) ⊎ (ltb expires_at (E.now w).0 ≡ false))
  unfolding introspect_found calls
  found-active t w r e a = cases (nat_eq (prop_time E t.properties "expires_at") 0) refl e
    where
      cases :
          (never : Bool)
          → nat_eq (prop_time E t.properties "expires_at") 0 ≡ never
          → ((if never
                then pure (
                    bearer
                      (prop_time E t.properties "expires_at")
                      (prop_time E t.properties "created_at"))
                else (lift E.now >>= λ at. pure (
                    if ltb (prop_time E t.properties "expires_at") at
                    then inactive
                    else bearer
                        (prop_time E t.properties "expires_at")
                        (prop_time E t.properties "created_at"))))
              w).0
            ≡ ok r
          → (r
              ≡ bearer
                  (prop_time E t.properties "expires_at")
                  (prop_time E t.properties "created_at"))
            × ((prop_time E t.properties "expires_at" ≡ 0)
                ⊎ (ltb (prop_time E t.properties "expires_at") (E.now w).0 ≡ false))
      cases true z h = (sym (ok_injective _ r h), inl (ground arith))
      cases false z h = let d = if_active _ _ r h a in (d.0, inr d.1)

  -- Where Introspect answers `active`, no revocation of the token is in the graph, and an access token
  -- of that hash is, which has no expiry or has not passed it on the clock; the answer's `exp` is that
  -- token's `expires_at`, its `iat` the token's `created_at`, and its `token_type` is Bearer.
  pub introspect-active :
      (text : String) (w : E.World) (r : IntrospectResult)
      → (introspect E cfg text w).0 ≡ ok r
      → r.active ≡ true
      → (any (selects (revocations E cfg text)) (view w).entities ≡ false)
        × (t : Entity) × Occurs t (view w).entities
        × (selects (tokens E cfg text) t ≡ true)
        × (r.exp ≡ prop_time E t.properties "expires_at")
        × (r.iat ≡ prop_time E t.properties "created_at")
        × (r.token_type ≡ "Bearer")
        × ((prop_time E t.properties "expires_at" ≡ 0)
            ⊎ (ltb (prop_time E t.properties "expires_at") (E.now (at_expiry_test E cfg text w)).0
                ≡ false))
  unfolding introspect introspect_unless introspect_listed calls
  introspect-active text w r e a =
      unrevoked (E.list_entities (revocations E cfg text) w).0
        (L.list_entities-ListsAll (revocations E cfg text) w) e
    where
      found :
          (listed : Result (List Entity)) (v : E.World)
          → ListsAll listed (view w).entities (selects (tokens E cfg text))
          → (introspect_listed E cfg listed v).0 ≡ ok r
          → (t : Entity) × Occurs t (view w).entities
            × (selects (tokens E cfg text) t ≡ true)
            × (r
                ≡ bearer
                    (prop_time E t.properties "expires_at")
                    (prop_time E t.properties "created_at"))
            × ((prop_time E t.properties "expires_at" ≡ 0)
                ⊎ (ltb (prop_time E t.properties "expires_at") (E.now v).0 ≡ false))
      found (err x) v listed h = absurd (not_inactive r h a)
      found (ok []) v listed h = absurd (not_inactive r h a)
      found (ok (t ∷ ts)) v listed h =
          let o = (listed t).0 (inl refl) in
          let d = found-active t v r h a in (t, o.0, o.1, d.0, d.1)

      unrevoked :
          (revoked : Result (List Entity))
          → ListsAll revoked (view w).entities (selects (revocations E cfg text))
          → (introspect_unless E cfg
              (hash_sha256 E text)
              revoked
              (E.list_entities (revocations E cfg text) w).1).0
            ≡ ok r
          → (any (selects (revocations E cfg text)) (view w).entities ≡ false)
            × (t : Entity) × Occurs t (view w).entities
            × (selects (tokens E cfg text) t ≡ true)
            × (r.exp ≡ prop_time E t.properties "expires_at")
            × (r.iat ≡ prop_time E t.properties "created_at")
            × (r.token_type ≡ "Bearer")
            × ((prop_time E t.properties "expires_at" ≡ 0)
                ⊎ (ltb
                      (prop_time E t.properties "expires_at")
                      (E.now (at_expiry_test E cfg text w)).0
                    ≡ false))
      unrevoked (err x) listed h = absurd (not_inactive r h a)
      unrevoked (ok (x ∷ xs)) listed h = absurd (not_inactive r h a)
      unrevoked (ok []) listed h =
          let d = found _ (at_expiry_test E cfg text w) relisted h in
          (
            Listed-nil (revocations E cfg text) (view w) listed,
            d.0,
            d.1,
            d.2,
            ap (λ (x : IntrospectResult). x.exp) d.3,
            ap (λ (x : IntrospectResult). x.iat) d.3,
            ap (λ (x : IntrospectResult). x.token_type) d.3,
            d.4,
          )
        where
          relisted :
              ListsAll
                (E.list_entities
                  (tokens E cfg text)
                  (E.list_entities (revocations E cfg text) w).1).0
                (view w).entities
                (selects (tokens E cfg text))
          relisted = rw (← L.list_entities-view (revocations E cfg text) w) (
              L.list_entities-ListsAll (tokens E cfg text)
                (E.list_entities (revocations E cfg text) w).1)

  found-total :
      (t : Entity) (w : E.World)
      → ((r : IntrospectResult) × ((introspect_found E cfg t w).0 ≡ ok r))
        × (view (introspect_found E cfg t w).1 ≡ view w)
  unfolding introspect_found calls
  found-total t w = elim (Bool-cases (nat_eq (prop_time E t.properties "expires_at") 0)) [
    | inl never ↦ rw never ((_, refl), refl)
    | inr other_ ↦ rw other_ ((_, refl), L.now-view w)
  ]

  -- Introspect returns no error, whatever the store does, and leaves the graph as it was: no answer is
  -- recorded as an AuditEvent.
  pub introspect-total :
      (text : String) (w : E.World)
      → ((r : IntrospectResult) × ((introspect E cfg text w).0 ≡ ok r))
        × (view (introspect E cfg text w).1 ≡ view w)
  unfolding introspect introspect_unless introspect_listed calls
  introspect-total text w = unrevoked (E.list_entities (revocations E cfg text) w).0
    where
      once : view (E.list_entities (revocations E cfg text) w).1 ≡ view w
      once = L.list_entities-view (revocations E cfg text) w

      twice : view (at_expiry_test E cfg text w) ≡ view w
      twice =
          L.list_entities-view (tokens E cfg text) (E.list_entities (revocations E cfg text) w).1
          ∙ once

      found :
          (listed : Result (List Entity))
          → ((r : IntrospectResult) × ((introspect_listed E cfg listed
                  (at_expiry_test E cfg text w)).0
                ≡ ok r))
            × (view (introspect_listed E cfg listed (at_expiry_test E cfg text w)).1 ≡ view w)
      found (err x) = ((_, refl), twice)
      found (ok []) = ((_, refl), twice)
      found (ok (t ∷ ts)) =
          let d = found-total t (at_expiry_test E cfg text w) in (d.0, d.1 ∙ twice)

      unrevoked :
          (revoked : Result (List Entity))
          → let v = (E.list_entities (revocations E cfg text) w).1 in
            ((r : IntrospectResult) × ((introspect_unless E cfg (hash_sha256 E text) revoked v).0
                ≡ ok r))
            × (view (introspect_unless E cfg (hash_sha256 E text) revoked v).1 ≡ view w)
      unrevoked (err x) = ((_, refl), once)
      unrevoked (ok (x ∷ xs)) = ((_, refl), once)
      unrevoked (ok []) =
          found
            (E.list_entities (tokens E cfg text) (E.list_entities (revocations E cfg text) w).1).0
