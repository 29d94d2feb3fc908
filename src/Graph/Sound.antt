-- ===== src/Graph/Sound.antt =====
-- The invariant of the graph: an id names one entity, and a key is held by one entity. Every step
-- of the specification keeps it.
use code_vald_org.Prelude.{
  map, String, ◌≡◌, refl, sym, ap, ◌∙◌, true, false, not, ◌⊎◌, inl, inr, List, any, arith,
  Bool-cases, eq_iff,
}
use code_vald_org.Graph.{Properties, lookup, Entity}
use code_vald_org.Graph.State.{
  Graph, Occurs, is_named, amend_named, with_entity, with_amended, without_named,
}
use code_vald_org.Graph.Step.{
  Step, created, patched, org_patched, removed, linked, Reach, here, next, clashes, is_neutral,
  lacks,
}
use code_vald_org.Graph.Lookup.{lookup-merge-lacks}
use code_vald_org.Graph.Occurs.{Occurs-concat, Occurs-map, Occurs-keep, Occurs-any}
use code_vald_org.Graph.Keys.{same_key, SameKey, clashes-SameKey, SameKey-clashes, clashes_sym}

abbrev pub HasUniqueIds : List Entity → Type 0
HasUniqueIds es =
    (a b : Entity) → Occurs a es → Occurs b es → a.agency_id ≡ b.agency_id → a.id ≡ b.id → a ≡ b

-- One Organization to an agency, one User to an email, one Role and one Scope to a name.
abbrev pub HasUniqueKeys : List Entity → Type 0
HasUniqueKeys es = (a b : Entity) → Occurs a es → Occurs b es → clashes a b ≡ true → a ≡ b

pub record IsSound (g : Graph) : Type 0 where
  pub unique_ids : HasUniqueIds g.entities
  pub unique_keys : HasUniqueKeys g.entities

created-IsSound :
    (e : Entity) (g : Graph)
    → any (is_named e.agency_id e.id) g.entities ≡ false
    → any (clashes e) g.entities ≡ false
    → IsSound g
    → IsSound (with_entity e g)
created-IsSound e g fresh free s = record {
  unique_ids = λ a b oa ob agency id.
      ids a b (Occurs-concat a e g.entities oa) (Occurs-concat b e g.entities ob) agency id;
  unique_keys =
      λ a b oa ob c. keys a b (Occurs-concat a e g.entities oa) (Occurs-concat b e g.entities ob) c;
}
  where
    not_named : (x : Entity) → Occurs x g.entities → x.agency_id ≡ e.agency_id → x.id ≡ e.id → ⊥
    not_named x o agency id =
        cc (Occurs-any (is_named e.agency_id e.id) x g.entities fresh o, named_of x agency id)
      where
        named_of :
            (x : Entity)
            → x.agency_id ≡ e.agency_id
            → x.id ≡ e.id
            → is_named e.agency_id e.id x ≡ true
        named_of x p q = ground (arith, eq_iff x.agency_id e.agency_id, eq_iff x.id e.id)

    ids :
        (a b : Entity)
        → Occurs a g.entities ⊎ (a ≡ e)
        → Occurs b g.entities ⊎ (b ≡ e)
        → a.agency_id ≡ b.agency_id
        → a.id ≡ b.id
        → a ≡ b
    ids a b (inl oa) (inl ob) p q = s.unique_ids a b oa ob p q
    ids a b (inl oa) (inr be) p q = absurd (not_named a oa (rw (← be) p) (rw (← be) q))
    ids a b (inr ae) (inl ob) p q = absurd (not_named b ob (rw (← ae) (sym p)) (rw (← ae) (sym q)))
    ids a b (inr ae) (inr be) p q = ae ∙ sym be

    keys :
        (a b : Entity)
        → Occurs a g.entities ⊎ (a ≡ e)
        → Occurs b g.entities ⊎ (b ≡ e)
        → clashes a b ≡ true
        → a ≡ b
    keys a b (inl oa) (inl ob) c = s.unique_keys a b oa ob c
    keys a b (inl oa) (inr be) c = cc (
      Occurs-any (clashes e) a g.entities free oa,
      ap (λ (x : Entity). clashes x a) be,
      clashes_sym a b c,
    )
    keys a b (inr ae) (inl ob) c =
        cc (Occurs-any (clashes e) b g.entities free ob, ap (λ (x : Entity). clashes x b) ae, c)
    keys a b (inr ae) (inr be) c = ae ∙ sym be

removed-IsSound : (agency id : String) (g : Graph) → IsSound g → IsSound (without_named agency id g)
removed-IsSound agency id g s = record {
  unique_ids = λ a b oa ob. s.unique_ids a b (inside a oa) (inside b ob);
  unique_keys = λ a b oa ob. s.unique_keys a b (inside a oa) (inside b ob);
}
  where
    inside : (x : Entity) → Occurs x (without_named agency id g).entities → Occurs x g.entities
    inside x o = (Occurs-keep (λ e. not (is_named agency id e)) x g.entities o).0

pub amend_fields :
    (agency id : String) (p : Properties) (x : Entity)
    → let y = amend_named agency id p x in
      (y.agency_id ≡ x.agency_id) × (y.id ≡ x.id) × (y.type_id ≡ x.type_id)
amend_fields agency id p x = ground arith

lookup-amend :
    (agency id k : String) (p : Properties) (x : Entity)
    → lacks p k ≡ true
    → lookup k (amend_named agency id p x).properties ≡ lookup k x.properties
lookup-amend agency id k p x h = ground (arith, lookup-merge-lacks k x.properties p h)

-- No patch makes two entities share an id.
pub amended-HasUniqueIds :
    (agency id : String) (p : Properties) (es : List Entity)
    → HasUniqueIds es
    → HasUniqueIds (map (amend_named agency id p) es)
amended-HasUniqueIds agency id p es unique a b oa ob same_agency same_id =
    let f : Entity → Entity = amend_named agency id p in
    let (x, ox, ex) = Occurs-map f a es oa in
    let (y, oy, ey) = Occurs-map f b es ob in
    let (ax, ix, tx) = amend_fields agency id p x in
    let (ay, iy, ty) = amend_fields agency id p y in
    let x≡y : x ≡ y = unique x y ox oy (cc) (cc) in cc

-- An update that keeps agencies, ids and types, and under which keys stay apart, is sound.
amended-IsSound :
    (agency id : String) (p : Properties) (g : Graph)
    → IsSound g
    → ((a b : Entity)
        → Occurs a g.entities
        → Occurs b g.entities
        → SameKey (amend_named agency id p a) (amend_named agency id p b)
        → SameKey a b)
    → IsSound (with_amended agency id p g)
amended-IsSound agency id p g s apart = record {
  unique_ids = amended-HasUniqueIds agency id p g.entities s.unique_ids;
  unique_keys = λ a b oa ob. keys a b (Occurs-map f a g.entities oa) (Occurs-map f b g.entities ob);
}
  where
    f : Entity → Entity
    f = amend_named agency id p

    keys :
        (a b : Entity)
        → (x : Entity) × Occurs x g.entities × (a ≡ f x)
        → (y : Entity) × Occurs y g.entities × (b ≡ f y)
        → clashes a b ≡ true
        → a ≡ b
    keys a b (x, ox, ex) (y, oy, ey) c =
        let both : SameKey (f x) (f y) = clashes-SameKey (f x) (f y) (rw (← ex, ← ey) c) in
        let x≡y : x ≡ y = s.unique_keys x y ox oy (SameKey-clashes x y (apart x y ox oy both)) in cc

same_key_amend :
    (agency id : String) (p : Properties) (a b : Entity)
    → is_neutral p ≡ true
    → same_key a.type_id
        (amend_named agency id p a).properties
        (amend_named agency id p b).properties
      ≡ same_key a.type_id a.properties b.properties
same_key_amend agency id p a b n =
    let email : lacks p "email" ≡ true = ground arith in
    let name : lacks p "name" ≡ true = ground arith in
    rw (
      lookup-amend agency id "email" p a email,
      lookup-amend agency id "email" p b email,
      lookup-amend agency id "name" p a name,
      lookup-amend agency id "name" p b name,
    )

patched-IsSound :
    (agency id : String) (p : Properties) (g : Graph)
    → is_neutral p ≡ true
    → IsSound g
    → IsSound (with_amended agency id p g)
patched-IsSound agency id p g n s =
    amended-IsSound agency id p g s λ a b oa ob (same_agency, same_type, key).
      let (aa, ia, ta) = amend_fields agency id p a in
      let (ab, ib, tb) = amend_fields agency id p b in
      (
        sym ab ∙ same_agency ∙ aa,
        sym tb ∙ same_type ∙ ta,
        sym (same_key_amend agency id p a b n) ∙ rw ta at key,
      )

-- The entity that an id names is the one that was found under it.
pub named_unique :
    (agency id : String) (es : List Entity) (x y : Entity)
    → HasUniqueIds es
    → Occurs x es
    → Occurs y es
    → is_named agency id x ≡ true
    → is_named agency id y ≡ true
    → x ≡ y
named_unique agency id es x y u ox oy nx ny =
    u x y ox oy (ground (arith, eq_iff x.agency_id agency, eq_iff y.agency_id agency))
      (ground (arith, eq_iff x.id id, eq_iff y.id id))

-- An entity is the organization that is updated, or is left alone.
org-or-same :
    (agency id : String) (p : Properties) (es : List Entity) (o x : Entity)
    → HasUniqueIds es
    → Occurs o es
    → is_named agency id o ≡ true
    → o.type_id ≡ "Organization"
    → Occurs x es
    → (x.type_id ≡ "Organization") ⊎ (amend_named agency id p x ≡ x)
org-or-same agency id p es o x u oo no_ type ox = elim (Bool-cases (is_named agency id x)) [
  | inl named ↦
      inl (ap (λ (e : Entity). e.type_id) (named_unique agency id es x o u ox oo named no_) ∙ type)
  | inr other_ ↦ inr (rw other_ refl)
]

org_patched-IsSound :
    (agency id : String) (p : Properties) (g : Graph) (o : Entity)
    → Occurs o g.entities
    → is_named agency id o ≡ true
    → o.type_id ≡ "Organization"
    → IsSound g
    → IsSound (with_amended agency id p g)
org_patched-IsSound agency id p g o oo named type s =
    amended-IsSound agency id p g s λ a b oa ob (same_agency, same_type, key).
      let (aa, ia, ta) = amend_fields agency id p a in
      let (ab, ib, tb) = amend_fields agency id p b in
      let types : b.type_id ≡ a.type_id = sym tb ∙ same_type ∙ ta in
      (
        sym ab ∙ same_agency ∙ aa,
        types,
        org_key a b types (rw ta at key)
            (org-or-same agency id p g.entities o a s.unique_ids oo named type oa)
            (org-or-same agency id p g.entities o b s.unique_ids oo named type ob),
      )
  where
    org_key :
        (a b : Entity)
        → b.type_id ≡ a.type_id
        → same_key a.type_id
            (amend_named agency id p a).properties
            (amend_named agency id p b).properties
          ≡ true
        → (a.type_id ≡ "Organization") ⊎ (amend_named agency id p a ≡ a)
        → (b.type_id ≡ "Organization") ⊎ (amend_named agency id p b ≡ b)
        → same_key a.type_id a.properties b.properties ≡ true
    org_key a b types key (inl t) h = rw t refl
    org_key a b types key (inr e) (inl t) = rw (sym types ∙ t) refl
    org_key a b types key (inr ea) (inr eb) =
        rw (ap (λ (x : Entity). x.properties) ea, ap (λ (x : Entity). x.properties) eb) at key

pub Step-IsSound : {g h : Graph} → Step g h → IsSound g → IsSound h
Step-IsSound {g} (created e fresh free) s = created-IsSound e g fresh free s
Step-IsSound {g} (patched agency id p n) s = patched-IsSound agency id p g n s
Step-IsSound {g} (org_patched agency id p o oo named type safe) s =
    org_patched-IsSound agency id p g o oo named type s
Step-IsSound {g} (removed agency id e oe named plain) s = removed-IsSound agency id g s
Step-IsSound {g} (linked r) s = record { unique_ids = s.unique_ids; unique_keys = s.unique_keys }

pub Reach-IsSound : {g h : Graph} → Reach g h → IsSound g → IsSound h
Reach-IsSound here s = s
Reach-IsSound (next r st) s = Step-IsSound st (Reach-IsSound r s)
