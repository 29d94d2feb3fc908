-- ===== src/Store/Keeps.antt =====
-- Calls that take only steps of the specification, whatever they return: one rule for each form of
-- the monad and each call of the environment, gathered in `keeps_rules`.
use code_vald_org.Prelude.{
  ℕ, String, ◌≡◌, refl, Bool, true, false, List, [], ◌∷◌, none, any, if◌then◌else◌,
}
use code_vald_org.Errors.{Error}
use code_vald_org.Graph.{
  Properties, Relationship, EntityFilter, CreateEntityRequest, RelationshipFilter,
}
use code_vald_org.Graph.State.{Graph}
use code_vald_org.Graph.Step.{
  created, patched, linked, Reach, here, Reach-trans, Reach-step, is_neutral, key_of, clashes,
}
use code_vald_org.Effects.{
  Env, Result, ok, err, Action, pure, fail, or_fail, on_error, lift, attempt, proceed, fail_if,
  first_or, ◌>>=◌, ◌>>◌,
}
use code_vald_org.Store.Lawful.{IsLawful, Writes}
use code_vald_org.Manager.Calls.{or_unavailable, now_text}

pub record Keeps (E : Env) (view : E.World → Graph) {A : Type 0} (m : Action E.World A)
    : Type 0 where
  pub at : (w : E.World) → Reach (view w) (view (m w).1)

pub Reach_of_eq : {g h : Graph} → h ≡ g → Reach g h
Reach_of_eq e = rw e here

module _ (E : Env) (view : E.World → Graph) where
  Keeps-of_same :
      {A : Type 0} (m : Action E.World A) → ((w : E.World) → view (m w).1 ≡ view w) → Keeps E view m
  Keeps-of_same m same = record { at = λ w. Reach_of_eq (same w) }

  proceed-Reach :
      {A B : Type 0} (g : Graph) (r : Result A) (w : E.World) (f : A → Action E.World B)
      → Reach g (view w)
      → ((a : A) → Keeps E view (f a))
      → Reach g (view (proceed r f w).1)
  proceed-Reach g (ok a) w f reached rest = Reach-trans reached ((rest a).at w)
  proceed-Reach g (err e) w f reached rest = reached

  pub Keeps-bind :
      {A B : Type 0} (m : Action E.World A) (f : A → Action E.World B)
      → Keeps E view m
      → ((a : A) → Keeps E view (f a))
      → Keeps E view (m >>= f)
  unfolding ◌>>=◌
  Keeps-bind m f first rest = record {
    at = λ w. proceed-Reach (view w) (m w).0 (m w).1 f (first.at w) rest;
  }

  pub Keeps-then :
      {A B : Type 0} (m : Action E.World A) (k : Action E.World B)
      → Keeps E view m
      → Keeps E view k
      → Keeps E view (m >> k)
  unfolding ◌>>◌
  Keeps-then m k first rest = record {
    at = λ w. proceed-Reach (view w) (m w).0 (m w).1 (λ _. k) (first.at w) (λ _. rest);
  }

  pub Keeps-pure : {A : Type 0} (a : A) → Keeps E view (pure a)
  unfolding pure
  Keeps-pure a = Keeps-of_same (pure a) (λ w. refl)

  pub Keeps-fail : {A : Type 0} (e : Error) → Keeps E view (fail {A = A} e)
  unfolding fail
  Keeps-fail {A} e = Keeps-of_same (fail {A = A} e) (λ w. refl)

  pub Keeps-fail_if : (c : Bool) (e : Error) → Keeps E view (fail_if c e)
  unfolding fail_if
  Keeps-fail_if c e = Keeps-of_same (fail_if c e) (λ w. refl)

  pub Keeps-first_or : {A : Type 0} (xs : List A) (e : Error) → Keeps E view (first_or xs e)
  unfolding first_or
  Keeps-first_or [] e = Keeps-of_same _ (λ w. refl)
  Keeps-first_or (x ∷ xs) e = Keeps-of_same _ (λ w. refl)

  pub Keeps-or_fail :
      {A : Type 0} (m : Action E.World A) (e : Error) → Keeps E view m → Keeps E view (or_fail m e)
  unfolding or_fail
  Keeps-or_fail m e k = record { at = λ w. k.at w }

  pub Keeps-on_error :
      {A : Type 0} (m : Action E.World A) (f : Error → Error)
      → Keeps E view m
      → Keeps E view (on_error m f)
  unfolding on_error
  Keeps-on_error m f k = record { at = λ w. k.at w }

  pub Keeps-attempt :
      {A : Type 0} (m : Action E.World A) → Keeps E view m → Keeps E view (attempt m)
  unfolding attempt
  Keeps-attempt m k = record { at = λ w. k.at w }

  pub Keeps-or_unavailable :
      {A : Type 0} (m : Action E.World A) → Keeps E view m → Keeps E view (or_unavailable m)
  unfolding or_unavailable or_fail
  Keeps-or_unavailable m k = record { at = λ w. k.at w }

  pub Keeps-if :
      {A : Type 0} (c : Bool) (m k : Action E.World A)
      → Keeps E view m
      → Keeps E view k
      → Keeps E view (if c then m else k)
  Keeps-if true m k a b = a
  Keeps-if false m k a b = b

  module _ (L : IsLawful E view) where
    pub Keeps-list : (f : EntityFilter) → Keeps E view (E.list_entities f)
    Keeps-list f = Keeps-of_same _ (L.list_entities-view f)

    pub Keeps-list_relationships : (f : RelationshipFilter) → Keeps E view (E.list_relationships f)
    Keeps-list_relationships f = Keeps-of_same _ (L.list_relationships-view f)

    pub Keeps-get : (agency id : String) → Keeps E view (E.get_entity agency id)
    Keeps-get agency id = Keeps-of_same _ (L.get_entity-view agency id)

    pub Keeps-now : Keeps E view (lift E.now)
    unfolding lift
    Keeps-now = Keeps-of_same _ L.now-view

    pub Keeps-new_uuid : Keeps E view (lift E.new_uuid)
    unfolding lift
    Keeps-new_uuid = Keeps-of_same _ L.new_uuid-view

    pub Keeps-rand_read : (n : ℕ) → Keeps E view (E.rand_read n)
    Keeps-rand_read n = Keeps-of_same _ (L.rand_read-view n)

    pub Keeps-now_text : Keeps E view (now_text E)
    unfolding now_text
    Keeps-now_text = Keeps-bind _ _ Keeps-now (λ t. Keeps-pure _)

    -- A write that is one step where it succeeds.
    pub Writes-Reach :
        {A : Type 0} (r : Result A) (g g' : Graph) (written : A → Type 0)
        → Writes r g g' written
        → ((a : A) → written a → Reach g g')
        → Reach g g'
    Writes-Reach (ok a) g g' written h step = step a h
    Writes-Reach (err e) g g' written h step = Reach_of_eq h

    pub Keeps-create_relationship : (q : Relationship) → Keeps E view (E.create_relationship q)
    Keeps-create_relationship q = record {
      at = λ w.
          Writes-Reach (E.create_relationship q w).0 _ _ _ (L.create_relationship-Writes q w)
            (λ _ e. rw e (Reach-step (linked q)));
    }

    pub Keeps-update :
        (agency id : String) (p : Properties)
        → is_neutral p ≡ true
        → Keeps E view (E.update_entity agency id p)
    Keeps-update agency id p neutral = record {
      at = λ w.
          Writes-Reach (E.update_entity agency id p w).0 _ _ _
            (L.update_entity-Writes agency id p w)
            (λ _ h. rw h.4 (Reach-step (patched agency id p neutral)));
    }

    any-false :
        {A : Type 0} (p : A → Bool) (xs : List A) → ((x : A) → p x ≡ false) → any p xs ≡ false
    any-false p [] h = refl
    any-false p (x ∷ xs) h = rw (h x) (any-false p xs h)

    -- An entity of a type that has no key clashes with nothing.
    pub Keeps-create :
        (req : CreateEntityRequest)
        → key_of req.type_id req.properties ≡ none
        → Keeps E view (E.create_entity req)
    Keeps-create req unkeyed = record {
      at = λ w. Writes-Reach (E.create_entity req w).0 _ _ _ (L.create_entity-Writes req w) (λ e h.
          rw h.4 (
            Reach-step (
              created e h.3
                (any-false (clashes e) (view w).entities (λ x. rw (h.1, h.2, unkeyed) refl)))));
    }

pub ruleset keeps_rules = (
  Keeps-bind, Keeps-then, Keeps-pure, Keeps-fail, Keeps-fail_if, Keeps-first_or, Keeps-or_fail,
  Keeps-on_error, Keeps-attempt, Keeps-or_unavailable, Keeps-if, Keeps-list,
  Keeps-list_relationships, Keeps-get, Keeps-now, Keeps-new_uuid, Keeps-rand_read, Keeps-now_text,
  Keeps-create_relationship, Keeps-update, Keeps-create,
)
