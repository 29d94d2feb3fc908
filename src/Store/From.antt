-- ===== src/Store/From.antt =====
-- Calls that take only steps of the specification from the graphs that meet a condition: what a
-- lookup or a guard has established, for the writes that follow it.
use code_vald_org.Prelude.{
  ℕ, String, ◌≡◌, refl, Bool, true, false, inl, inr, ◌↔◌, List, [], ◌∷◌, any, all, Bool-cases,
}
use code_vald_org.Errors.{Error}
use code_vald_org.Graph.{Properties, Entity, EntityFilter, CreateEntityRequest}
use code_vald_org.Graph.State.{Graph, Occurs, selects, is_named}
use code_vald_org.Graph.Step.{
  created, org_patched, removed, Reach, Reach-trans, Reach-step, key_of, has_key, is_builtin_role,
  lacks, org_fixed_keys,
}
use code_vald_org.Effects.{
  Env, Result, ok, err, Action, pure, or_fail, lift, proceed, fail_if, first_or, replace, ◌>>=◌,
  ◌>>◌, is_nonempty,
}
use code_vald_org.Store.Lawful.{IsLawful, ListsAll, Finds}
use code_vald_org.Store.Keeps.{Keeps, Reach_of_eq, Writes-Reach}
use code_vald_org.Manager.Calls.{or_unavailable, now_text}

pub record KeepsFrom (E : Env) (view : E.World → Graph) (S : Graph → Type 0) {A : Type 0}
    (m : Action E.World A) : Type 0 where
  pub at : (w : E.World) → S (view w) → Reach (view w) (view (m w).1)

pub any-false_of :
    {A : Type 0} (p : A → Bool) (xs : List A)
    → ((x : A) → Occurs x xs → p x ≡ true → ⊥)
    → any p xs ≡ false
any-false_of p [] h = refl
any-false_of p (x ∷ xs) h = elim (Bool-cases (p x)) [
  | inl yes_ ↦ absurd (h x (inl refl) yes_)
  | inr no_ ↦ rw no_ (any-false_of p xs (λ y o. h y (inr o)))
]

-- What a list of entities says of the graph that it was read from.
abbrev pub Listed : List Entity → EntityFilter → Graph → Type 0
Listed es f g = (a : Entity) → Occurs a es ↔ (Occurs a g.entities × (selects f a ≡ true))

pub Listed-nil : (f : EntityFilter) (g : Graph) → Listed [] f g → any (selects f) g.entities ≡ false
Listed-nil f g h = any-false_of (selects f) g.entities (λ x o s. (h x).1 (o, s))

pub Listed-none :
    (es : List Entity) (f : EntityFilter) (g : Graph)
    → is_nonempty es ≡ false
    → Listed es f g
    → any (selects f) g.entities ≡ false
Listed-none [] f g e h = Listed-nil f g h
Listed-none (x ∷ es) f g e h = cc

-- Nothing in the graph has the key of the request.
abbrev pub IsFree : CreateEntityRequest → Graph → Type 0
IsFree req g =
    any (has_key req.agency_id req.type_id (key_of req.type_id req.properties)) g.entities ≡ false

module _ (E : Env) (view : E.World → Graph) where
  pub from_Keeps :
      {A : Type 0} (S : Graph → Type 0) (m : Action E.World A)
      → Keeps E view m
      → KeepsFrom E view S m
  from_Keeps S m k = record { at = λ w s. k.at w }

  pub weaken :
      {A : Type 0} (S T : Graph → Type 0) (m : Action E.World A)
      → ((g : Graph) → T g → S g)
      → KeepsFrom E view S m
      → KeepsFrom E view T m
  weaken S T m h k = record { at = λ w t. k.at w (h (view w) t) }

  -- A guard that passed is known to the rest.
  pub guarded :
      {A : Type 0} (S : Graph → Type 0) (c : Bool) (e : Error) (k : Action E.World A)
      → (c ≡ false → KeepsFrom E view S k)
      → KeepsFrom E view S (fail_if c e >> k)
  unfolding fail_if ◌>>◌
  guarded S true e k h = record { at = λ w s. Reach_of_eq refl }
  guarded S false e k h = record { at = λ w s. (h refl).at w s }

  pub guarded-Keeps :
      {A : Type 0} (c : Bool) (e : Error) (k : Action E.World A)
      → (c ≡ false → Keeps E view k)
      → Keeps E view (fail_if c e >> k)
  unfolding fail_if ◌>>◌
  guarded-Keeps true e k h = record { at = λ w. Reach_of_eq refl }
  guarded-Keeps false e k h = record { at = λ w. (h refl).at w }

  pub from_first :
      {A B : Type 0} (S : Graph → Type 0) (xs : List A) (e : Error) (f : A → Action E.World B)
      → ((x : A) → Occurs x xs → KeepsFrom E view S (f x))
      → KeepsFrom E view S (first_or xs e >>= f)
  unfolding first_or ◌>>=◌
  from_first S [] e f h = record { at = λ w s. Reach_of_eq refl }
  from_first S (x ∷ xs) e f h = record { at = λ w s. (h x (inl refl)).at w s }

  -- A call that leaves the graph alone keeps the condition.
  from_same :
      {A B : Type 0} (S : Graph → Type 0) (g : Graph) (r : Result A) (w : E.World)
      (f : A → Action E.World B)
      → view w ≡ g
      → S g
      → ((a : A) → r ≡ ok a → KeepsFrom E view S (f a))
      → Reach g (view (proceed r f w).1)
  from_same S g (ok a) w f e s h = Reach-trans (Reach_of_eq e) ((h a refl).at w (rw e s))
  from_same S g (err x) w f e s h = Reach_of_eq e

  pub from_bind-Keeps :
      {A B : Type 0} (S : Graph → Type 0) (m : Action E.World A) (f : A → Action E.World B)
      → KeepsFrom E view S m
      → ((a : A) → Keeps E view (f a))
      → KeepsFrom E view S (m >>= f)
  unfolding ◌>>=◌
  from_bind-Keeps S m f k h = record { at = λ w s. rest (view w) (m w).0 (m w).1 (k.at w s) }
    where
      rest :
          (g : Graph) (r : Result _) (w : E.World)
          → Reach g (view w)
          → Reach g (view (proceed r f w).1)
      rest g (ok a) w reached = Reach-trans reached ((h a).at w)
      rest g (err e) w reached = reached

  module _ (L : IsLawful E view) where
    list_from :
        {B : Type 0} (S : Graph → Type 0) (f : EntityFilter) (r : Result (List Entity)) (g : Graph)
        (w : E.World) (e : Error) (k : List Entity → Action E.World B)
        → view w ≡ g
        → S g
        → ListsAll r g.entities (selects f)
        → ((es : List Entity) → KeepsFrom E view (λ h. S h × Listed es f h) (k es))
        → Reach g (view (proceed (replace r e) k w).1)
    list_from S f (ok es) g w e k same s listed h =
        Reach-trans (Reach_of_eq same) ((h es).at w (rw same (s, listed)))
    list_from S f (err x) g w e k same s listed h = Reach_of_eq same

    -- After a lookup of entities the rest knows what the filter selects in the graph.
    pub after_list :
        {B : Type 0} (S : Graph → Type 0) (f : EntityFilter) (e : Error)
        (k : List Entity → Action E.World B)
        → ((es : List Entity) → KeepsFrom E view (λ h. S h × Listed es f h) (k es))
        → KeepsFrom E view S (or_fail (E.list_entities f) e >>= k)
    unfolding ◌>>=◌ or_fail
    after_list S f e k h = record {
      at = λ w s.
          list_from S f (E.list_entities f w).0 (view w) (E.list_entities f w).1 e k
            (L.list_entities-view f w) s (L.list_entities-ListsAll f w) h;
    }

    -- The same, where nothing was known before.
    pub after_lookup :
        {B : Type 0} (f : EntityFilter) (e : Error) (k : List Entity → Action E.World B)
        → ((es : List Entity) → KeepsFrom E view (Listed es f) (k es))
        → Keeps E view (or_fail (E.list_entities f) e >>= k)
    after_lookup f e k h = record {
      at = λ w.
          (after_list (λ _. Unit {0}) f e k (λ es. weaken _ _ (k es) (λ g t. t.1) (h es))).at w tt;
    }

    get_from :
        {B : Type 0} (agency id : String) (r : Result Entity) (g : Graph) (w : E.World) (e : Error)
        (k : Entity → Action E.World B)
        → view w ≡ g
        → Finds r g.entities (is_named agency id)
        → ((x : Entity)
            → KeepsFrom E view (λ h. Occurs x h.entities × (is_named agency id x ≡ true)) (k x))
        → Reach g (view (proceed (replace r e) k w).1)
    get_from agency id (ok x) g w e k same found h =
        Reach-trans (Reach_of_eq same) ((h x).at w (rw same found))
    get_from agency id (err x) g w e k same found h = Reach_of_eq same

    -- After a lookup of one entity the rest knows that the graph has it.
    pub after_get :
        {B : Type 0} (agency id : String) (e : Error) (k : Entity → Action E.World B)
        → ((x : Entity)
            → KeepsFrom E view (λ h. Occurs x h.entities × (is_named agency id x ≡ true)) (k x))
        → Keeps E view (or_fail (E.get_entity agency id) e >>= k)
    unfolding ◌>>=◌ or_fail
    after_get agency id e k h = record {
      at = λ w.
          get_from agency id (E.get_entity agency id w).0 (view w) (E.get_entity agency id w).1 e k
            (L.get_entity-view agency id w) (L.get_entity-Finds agency id w) h;
    }

    -- Reading the clock changes nothing that is known.
    pub timed :
        {B : Type 0} (S : Graph → Type 0) (k : ℕ → Action E.World B)
        → ((t : ℕ) → KeepsFrom E view S (k t))
        → KeepsFrom E view S (lift E.now >>= k)
    unfolding ◌>>=◌ lift
    timed S k h = record {
      at = λ w s. from_same S (view w) (ok (E.now w).0) (E.now w).1 k (L.now-view w) s (λ a _. h a);
    }

    pub timed_text :
        {B : Type 0} (S : Graph → Type 0) (k : String → Action E.World B)
        → ((t : String) → KeepsFrom E view S (k t))
        → KeepsFrom E view S (now_text E >>= k)
    unfolding ◌>>=◌ now_text lift pure
    timed_text S k h = record {
      at = λ w s.
          from_same S (view w) (ok (E.format_time (E.now w).0)) (E.now w).1 k (L.now-view w) s
            (λ a _. h a);
    }

    pub fresh_create :
        (req : CreateEntityRequest) → KeepsFrom E view (IsFree req) (E.create_entity req)
    fresh_create req = record {
      at = λ w free.
          Writes-Reach E view L (E.create_entity req w).0 _ _ _ (L.create_entity-Writes req w)
            (λ e h. rw h.4 (Reach-step (created e h.3 (rw (h.0, h.1, h.2) free))));
    }

    -- A creation where the lookup under its own key found nothing.
    pub create_unused :
        {B : Type 0} (f : EntityFilter) (es : List Entity) (req : CreateEntityRequest)
        (k : Entity → Action E.World B)
        → is_nonempty es ≡ false
        → has_key req.agency_id req.type_id (key_of req.type_id req.properties) ≡ selects f
        → ((e : Entity) → Keeps E view (k e))
        → KeepsFrom E view (Listed es f) (or_unavailable (E.create_entity req) >>= k)
    unfolding or_unavailable or_fail
    create_unused f es req k unused same rest =
        from_bind-Keeps (Listed es f) _ k
          (record {
            at = λ w listed.
                (fresh_create req).at w (rw same (Listed-none es f (view w) unused listed));
          })
          rest

    pub from_or_unavailable :
        {A : Type 0} (S : Graph → Type 0) (m : Action E.World A)
        → KeepsFrom E view S m
        → KeepsFrom E view S (or_unavailable m)
    unfolding or_unavailable or_fail
    from_or_unavailable S m k = record { at = λ w s. k.at w s }

    -- A deletion of an entity that was found and is no built-in role.
    pub delete_found :
        (agency id : String) (x : Entity)
        → is_builtin_role x ≡ false
        → KeepsFrom E view
            (λ g. Occurs x g.entities × (is_named agency id x ≡ true))
            (E.delete_entity agency id)
    delete_found agency id x plain = record {
      at = λ w s.
          Writes-Reach E view L (E.delete_entity agency id w).0 _ _ _
            (L.delete_entity-Writes agency id w)
            (λ _ e. rw e (Reach-step (removed agency id x s.0 s.1 plain)));
    }

    -- An update of an Organization that was found.
    pub update_org :
        (agency id : String) (p : Properties) (x : Entity)
        → x.type_id ≡ "Organization"
        → all (lacks p) org_fixed_keys ≡ true
        → KeepsFrom E view
            (λ g. Occurs x g.entities × (is_named agency id x ≡ true))
            (E.update_entity agency id p)
    update_org agency id p x org safe = record {
      at = λ w s.
          Writes-Reach E view L (E.update_entity agency id p w).0 _ _ _
            (L.update_entity-Writes agency id p w)
            (λ _ h. rw h.4 (Reach-step (org_patched agency id p x s.0 s.1 org safe)));
    }
