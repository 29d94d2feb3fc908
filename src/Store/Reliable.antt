-- ===== src/Store/Reliable.antt =====
-- A store whose calls do not fail where they need not, and calls that return a value: what follows
-- from the one for the other.
use code_vald_org.Prelude.{
  String, ◌==◌, ◌≡◌, refl, subst, not, ◌&&◌, any, all, true, false, Bool, inl, List, [], ◌∷◌,
  if◌then◌else◌,
}
use code_vald_org.Errors.{Error}
use code_vald_org.Graph.{Properties, Entity, EntityFilter, RelationshipFilter}
use code_vald_org.Graph.State.{
  Graph, Occurs, selects, selects_edge, is_named, amended, amend_named, with_amended,
}
use code_vald_org.Graph.Sound.{HasUniqueIds, amend_fields}
use code_vald_org.Schema.{default_org_schema}
use code_vald_org.Schema.Conformance.{allowed}
use code_vald_org.Graph.Occurs.{occurs_map}
use code_vald_org.Effects.{
  Env, Result, ok, Action, pure, or_fail, on_error, lift, fail_if, first_or, ◌>>=◌, ◌>>◌,
}
use code_vald_org.Store.Lawful.{IsLawful, Writes, ListsAll, Finds}
use code_vald_org.Manager.Calls.{or_unavailable, now_text}

abbrev pub IsOk : {A : Type 0} → Result A → Type 0
IsOk {A} r = (a : A) × (r ≡ ok a)

-- The entity is in the graph, under that agency and id.
abbrev pub IsThere : (agency id : String) → Graph → Type 0
IsThere agency id g = (e : Entity) × Occurs e g.entities × (is_named agency id e ≡ true)

-- A patch that the schema allows of that type: the type is not immutable, and declares the properties
-- with values of their types.
abbrev pub is_patch : String → Properties → Bool
is_patch type_id p =
    any (λ t. t.name == type_id && not t.immutable && all (allowed t) p) default_org_schema.types

-- An entity of the graph has the name, and a type that the patch is allowed of.
abbrev pub IsPatchable : (agency id : String) → Properties → Graph → Type 0
IsPatchable agency id p g =
    (e : Entity) × Occurs e g.entities
    × (is_named agency id e ≡ true)
    × (is_patch e.type_id p ≡ true)

-- Listings succeed, and so do lookups of an entity that is there and, where ids are unique, patches
-- that the schema allows of its type. A patch of an immutable entity may fail.
pub record IsReliable (E : Env) (view : E.World → Graph) : Type 0 where
  pub list_entities-IsOk : (f : EntityFilter) (w : E.World) → IsOk (E.list_entities f w).0
  pub list_relationships-IsOk :
      (f : RelationshipFilter) (w : E.World) → IsOk (E.list_relationships f w).0
  pub get_entity-IsOk :
      (agency id : String) (w : E.World)
      → IsThere agency id (view w)
      → IsOk (E.get_entity agency id w).0
  pub update_entity-IsOk :
      (agency id : String) (p : Properties) (w : E.World)
      → HasUniqueIds (view w).entities
      → IsPatchable agency id p (view w)
      → IsOk (E.update_entity agency id p w).0

-- The call returns a value, which stands in a relation to the world that it leaves.
pub record Returns {W A : Type 0} (m : Action W A) (w : W) (P : A → W → Type 0) : Type 0 where
  pub value : A
  pub returned : (m w).0 ≡ ok value
  pub after : P value (m w).1

module _ {W : Type 0} where
  pub Returns-bind :
      {A B : Type 0} (m : Action W A) (f : A → Action W B) (w : W) (P : A → W → Type 0)
      (Q : B → W → Type 0)
      → Returns m w P
      → ((a : A) (v : W) → P a v → Returns (f a) v Q)
      → Returns (m >>= f) w Q
  unfolding ◌>>=◌
  Returns-bind m f w P Q first rest =
      let next = rest first.value (m w).1 first.after in
      record {
        value = next.value;
        returned = rw first.returned next.returned;
        after = rw first.returned next.after;
      }

  pub Returns-then :
      {A B : Type 0} (m : Action W A) (k : Action W B) (w : W) (P : A → W → Type 0)
      (Q : B → W → Type 0)
      → Returns m w P
      → ((a : A) (v : W) → P a v → Returns k v Q)
      → Returns (m >> k) w Q
  unfolding ◌>>◌
  Returns-then m k w P Q first rest = Returns-bind m (λ _. k) w P Q first rest

  pub Returns-pure :
      {A : Type 0} (a : A) (w : W) (P : A → W → Type 0) → P a w → Returns (pure a) w P
  unfolding pure
  Returns-pure a w P p = record { value = a; returned = refl; after = p }

  pub Returns-pass :
      (c : Bool) (e : Error) (w : W) (P : Unit {0} → W → Type 0)
      → c ≡ false
      → P tt w
      → Returns (fail_if c e) w P
  unfolding fail_if
  Returns-pass c e w P h p = record { value = tt; returned = rw h refl; after = p }

  pub Returns-or_fail :
      {A : Type 0} (m : Action W A) (e : Error) (w : W) (P : A → W → Type 0)
      → Returns m w P
      → Returns (or_fail m e) w P
  unfolding or_fail
  Returns-or_fail m e w P r = record {
    value = r.value;
    returned = rw r.returned refl;
    after = r.after;
  }

  pub Returns-on_error :
      {A : Type 0} (m : Action W A) (f : Error → Error) (w : W) (P : A → W → Type 0)
      → Returns m w P
      → Returns (on_error m f) w P
  unfolding on_error
  Returns-on_error m f w P r = record {
    value = r.value;
    returned = rw r.returned refl;
    after = r.after;
  }

  -- The first element of a list that is not empty.
  pub Returns-first :
      {A : Type 0} (xs : List A) (e : Error) (w : W) (x : A)
      → Occurs x xs
      → Returns (first_or xs e) w (λ a v. Occurs a xs × (v ≡ w))
  unfolding first_or
  Returns-first [] e w x o = absurd o
  Returns-first (y ∷ ys) e w x o = record { value = y; returned = refl; after = (inl refl, refl) }

-- A patch takes no entity out of the graph, and changes no name.
amend_named-is_named :
    (agency id : String) (p : Properties) (a i : String) (e : Entity) (b : Bool)
    → is_named a i e ≡ true
    → is_named a i (if b then amended p e else e) ≡ true
amend_named-is_named agency id p a i e true h = h
amend_named-is_named agency id p a i e false h = h

pub IsPatchable-with_amended :
    (agency id : String) (p : Properties) (a i : String) (q : Properties) (g : Graph)
    → IsPatchable a i q g
    → IsPatchable a i q (with_amended agency id p g)
IsPatchable-with_amended agency id p a i q g (e, o, n, h) =
    let type_kept = (amend_fields agency id p e).2 in
    (
      amend_named agency id p e,
      occurs_map (amend_named agency id p) e g.entities o,
      amend_named-is_named agency id p a i e (is_named agency id e) n,
      rw type_kept h,
    )

module _ (E : Env) (view : E.World → Graph) (L : IsLawful E view) (R : IsReliable E view) where
  pub Returns-list :
      (f : EntityFilter) (w : E.World)
      → Returns (or_unavailable (E.list_entities f)) w (λ es v.
        ListsAll (ok es) (view w).entities (selects f)
        × (view v ≡ view w)
        × (v ≡ (E.list_entities f w).1))
  unfolding or_unavailable
  Returns-list f w =
      let (es, e) = R.list_entities-IsOk f w in
      Returns-or_fail _ _ w _ (record {
        value = es;
        returned = e;
        after = (
          subst (λ r. ListsAll r (view w).entities (selects f)) e (L.list_entities-ListsAll f w),
          L.list_entities-view f w,
          refl,
        );
      })

  pub Returns-list_relationships :
      (f : RelationshipFilter) (w : E.World)
      → Returns
          (or_unavailable (E.list_relationships f))
          w
          (λ rs v. ListsAll (ok rs) (view w).relationships (selects_edge f) × (view v ≡ view w))
  unfolding or_unavailable
  Returns-list_relationships f w =
      let (rs, e) = R.list_relationships-IsOk f w in
      Returns-or_fail _ _ w _ (record {
        value = rs;
        returned = e;
        after = (
          subst (λ r. ListsAll r (view w).relationships (selects_edge f)) e
              (L.list_relationships-ListsAll f w),
          L.list_relationships-view f w,
        );
      })

  pub Returns-update :
      (agency id : String) (p : Properties) (w : E.World)
      → HasUniqueIds (view w).entities
      → IsPatchable agency id p (view w)
      → Returns
          (or_unavailable (E.update_entity agency id p))
          w
          (λ e v. view v ≡ with_amended agency id p (view w))
  unfolding or_unavailable
  Returns-update agency id p w unique there =
      let (e, q) = R.update_entity-IsOk agency id p w unique there in
      Returns-or_fail _ _ w _ (record {
        value = e;
        returned = q;
        after =
            (subst
              (λ r. Writes r (view w) (view (E.update_entity agency id p w).1) (λ a.
                (old : Entity) × Occurs old (view w).entities
                × (is_named agency id old ≡ true)
                × (a ≡ amended p old)
                × (view (E.update_entity agency id p w).1 ≡ with_amended agency id p (view w))))
              q (L.update_entity-Writes agency id p w)).4;
      })

  pub Returns-get :
      (agency id : String) (w : E.World)
      → IsThere agency id (view w)
      → Returns
          (E.get_entity agency id)
          w
          (λ e v. Occurs e (view w).entities × (is_named agency id e ≡ true) × (view v ≡ view w))
  Returns-get agency id w there =
      let (e, q) = R.get_entity-IsOk agency id w there in
      let found =
        subst (λ r. Finds r (view w).entities (is_named agency id)) q
          (L.get_entity-Finds agency id w) in
      record { value = e; returned = q; after = (found.0, found.1, L.get_entity-view agency id w) }

  pub Returns-now_text : (w : E.World) → Returns (now_text E) w (λ _ v. view v ≡ view w)
  unfolding now_text lift ◌>>=◌ pure
  Returns-now_text w = record {
    value = E.format_time (E.now w).0;
    returned = refl;
    after = L.now-view w;
  }

  pub Returns-now :
      (w : E.World) → Returns (lift E.now) w (λ t v. (t ≡ (E.now w).0) × (view v ≡ view w))
  unfolding lift
  Returns-now w = record { value = (E.now w).0; returned = refl; after = (refl, L.now-view w) }
