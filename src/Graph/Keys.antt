-- ===== src/Graph/Keys.antt =====
-- When two entities hold the same key.
use code_vald_org.Prelude.{
  String, ◌==◌, ◌≡◌, refl, sym, Bool, true, false, ◌||◌, inl, inr, List, [], ◌∷◌, arith, Bool-cases,
  Option, none, some, if◌then◌else◌, eq_iff,
}
use mathlib.Core.Option.{some-injective}
use code_vald_org.Graph.{
  Item, text, non_text, Value, str, bool, strs, anys, Properties, lookup, Entity, EntityFilter,
}
use code_vald_org.Graph.State.{value_eq, strs_eq, items_eq, has_all, selects}
use code_vald_org.Graph.Step.{key_of, pair_with, has_key, clashes}

strs_eq_sym : (ss ts : List String) → strs_eq ss ts ≡ true → strs_eq ts ss ≡ true
strs_eq_sym [] [] h = refl
strs_eq_sym [] (t ∷ ts) h = cc
strs_eq_sym (s ∷ ss) [] h = cc
strs_eq_sym (s ∷ ss) (t ∷ ts) h = ground (arith, eq_iff s t, eq_iff t s, strs_eq_sym ss ts)

items_eq_sym : (is js : List Item) → items_eq is js ≡ true → items_eq js is ≡ true
items_eq_sym [] [] h = refl
items_eq_sym [] (t ∷ ts) h = cc
items_eq_sym (s ∷ ss) [] h = cc
items_eq_sym (text s ∷ ss) (text t ∷ ts) h =
    ground (arith, eq_iff s t, eq_iff t s, items_eq_sym ss ts)
items_eq_sym (text s ∷ ss) (non_text ∷ ts) h = cc
items_eq_sym (non_text ∷ ss) (t ∷ ts) h = cc

value_eq_sym : (v w : Value) → value_eq v w ≡ true → value_eq w v ≡ true
value_eq_sym (str s) (str t) h = ground (arith, eq_iff s t, eq_iff t s)
value_eq_sym (bool true) (bool true) h = refl
value_eq_sym (bool false) (bool false) h = refl
value_eq_sym (strs ss) (strs ts) h = strs_eq_sym ss ts h
value_eq_sym (anys ss) (anys ts) h = items_eq_sym ss ts h
value_eq_sym v w h = cc

-- The two values of a key field agree.
abbrev pub agree : Option Value → Option Value → Bool
agree none w = false
agree (some v) none = false
agree (some v) (some w) = value_eq w v

agree_sym : (v w : Option Value) → agree v w ≡ true → agree w v ≡ true
agree_sym none w h = cc
agree_sym (some v) none h = cc
agree_sym (some v) (some w) h = value_eq_sym w v h

-- Two property maps of one type hold the same key.
abbrev pub same_key : String → Properties → Properties → Bool
same_key type_id p q =
    if type_id == "Organization"
    then true
    else if type_id == "User"
    then agree (lookup "email" p) (lookup "email" q)
    else if type_id == "Role" || type_id == "Scope"
    then agree (lookup "name" p) (lookup "name" q)
    else false

same_key_sym : (t : String) (p q : Properties) → same_key t p q ≡ true → same_key t q p ≡ true
same_key_sym t p q h = ground (
  arith,
  agree_sym (lookup "email" p) (lookup "email" q),
  agree_sym (lookup "name" p) (lookup "name" q),
)

abbrev pub SameKey : Entity → Entity → Type 0
SameKey a b =
    (b.agency_id ≡ a.agency_id)
    × (b.type_id ≡ a.type_id)
    × (same_key a.type_id a.properties b.properties ≡ true)

pair_with-agree :
    (k : String) (v : Option Value) (q key : Properties)
    → pair_with k v ≡ some key
    → has_all q key ≡ true
    → agree v (lookup k q) ≡ true
pair_with-agree k none q key e h = cc
pair_with-agree k (some v) q key e h = had (lookup k q) refl (rw (← some-injective _ _ e) at h)
  where
    had :
        (w : Option Value)
        → lookup k q ≡ w
        → has_all q ((k, v) ∷ []) ≡ true
        → agree (some v) w ≡ true
    had none l h = ground arith
    had (some w) l h = ground arith

pub selects-parts :
    (f : EntityFilter) (e : Entity)
    → selects f e ≡ true
    → (e.agency_id ≡ f.agency_id)
      × (e.type_id ≡ f.type_id)
      × (has_all e.properties f.properties ≡ true)
selects-parts f e h = ground (arith, eq_iff e.agency_id f.agency_id, eq_iff e.type_id f.type_id)

has_key-same_key :
    (t : String) (p q : Properties) (key : Properties)
    → key_of t p ≡ some key
    → has_all q key ≡ true
    → same_key t p q ≡ true
has_key-same_key t p q key k h = elim (Bool-cases (t == "Organization")) [
  | inl is_org ↦ rw is_org refl
  | inr no_org ↦ elim (Bool-cases (t == "User")) [
    | inl is_user ↦
        rw (no_org, is_user) (pair_with-agree "email" _ q key (rw (no_org, is_user) at k) h)
    | inr no_user ↦ elim (Bool-cases (t == "Role" || t == "Scope")) [
      | inl named ↦
          rw (no_org, no_user, named)
            (pair_with-agree "name" _ q key (rw (no_org, no_user, named) at k) h)
      | inr plain ↦ cc (rw (no_org, no_user, plain) at k)
    ]
  ]
]

pub clashes-SameKey : (a b : Entity) → clashes a b ≡ true → SameKey a b
clashes-SameKey a b h = from_key (key_of a.type_id a.properties) refl h
  where
    from_key :
        (k : Option Properties)
        → key_of a.type_id a.properties ≡ k
        → has_key a.agency_id a.type_id k b ≡ true
        → SameKey a b
    from_key none e h = cc
    from_key (some key) e h =
        let (agency, type, all_of) = selects-parts _ b h in
        (agency, type, has_key-same_key a.type_id a.properties b.properties key e all_of)

pub SameKey-clashes : (a b : Entity) → SameKey a b → clashes a b ≡ true
SameKey-clashes a b h = ground (arith, eq_iff b.agency_id a.agency_id, eq_iff b.type_id a.type_id)

pub clashes_sym : (a b : Entity) → clashes a b ≡ true → clashes b a ≡ true
clashes_sym a b h =
    let (agency, type, key) = clashes-SameKey a b h in
    SameKey-clashes b a
      (sym agency, sym type, rw type (same_key_sym a.type_id a.properties b.properties key))
