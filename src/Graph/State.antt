-- ===== src/Graph/State.antt =====
-- The abstract state behind the DataManager: the live entities and the edges, with what a filter
-- selects and what a creation, an update and a deletion make of them.
use code_vald_org.Prelude.{
  String, ◌==◌, ◌≡◌, Bool, true, false, not, ◌&&◌, ◌⊎◌, none, some, List, [], ◌∷◌, ◌++◌, map, all,
  keep, if◌then◌else◌,
}
use code_vald_org.Graph.{
  Item, text, Value, str, bool, strs, anys, Properties, lookup, insert, Entity, Relationship,
  EntityFilter, RelationshipFilter,
}

pub record Graph : Type 0 where
  pub entities : List Entity
  pub relationships : List Relationship

abbrev pub Occurs : {A : Type 0} → A → List A → Type 0
Occurs a [] = ⊥
Occurs a (x ∷ xs) = (a ≡ x) ⊎ Occurs a xs

abbrev bool_eq : Bool → Bool → Bool
bool_eq true b = b
bool_eq false b = not b

abbrev pub strs_eq : List String → List String → Bool
strs_eq [] [] = true
strs_eq (s ∷ ss) (t ∷ ts) = s == t && strs_eq ss ts
strs_eq _ _ = false

abbrev pub item_eq : Item → Item → Bool
item_eq (text s) (text t) = s == t
item_eq _ _ = false

abbrev pub items_eq : List Item → List Item → Bool
items_eq [] [] = true
items_eq (s ∷ ss) (t ∷ ts) = item_eq s t && items_eq ss ts
items_eq _ _ = false

-- Equality of stored values; a value that no reader accepts equals nothing.
abbrev pub value_eq : Value → Value → Bool
value_eq (str s) (str t) = s == t
value_eq (bool a) (bool b) = bool_eq a b
value_eq (strs ss) (strs ts) = strs_eq ss ts
value_eq (anys is) (anys js) = items_eq is js
value_eq _ _ = false

-- The property is stored under the key with that value.
abbrev pub has : Properties → String × Value → Bool
has props (key, v) = elim (lookup key props) [ none ↦ false | some w ↦ value_eq w v ]

abbrev pub has_all : Properties → Properties → Bool
has_all props wanted = all (has props) wanted

abbrev pub selects : EntityFilter → Entity → Bool
selects f e =
    e.agency_id == f.agency_id && e.type_id == f.type_id && has_all e.properties f.properties

-- An end of the filter that is not set selects every edge.
abbrev end_matches : String → String → Bool
end_matches wanted got = if wanted == "" then true else got == wanted

abbrev pub selects_edge : RelationshipFilter → Relationship → Bool
selects_edge f r =
    r.agency_id == f.agency_id
    && r.name == f.name
    && end_matches f.from_id r.from_id
    && end_matches f.to_id r.to_id

-- The entity that an agency and an id name.
abbrev pub is_named : (agency id : String) → Entity → Bool
is_named agency id e = e.agency_id == agency && e.id == id

-- A patch of the properties: its keys are set, the others stay.
abbrev pub merge : Properties → Properties → Properties
merge old [] = old
merge old ((k, v) ∷ p) = insert k v (merge old p)

abbrev pub amended : Properties → Entity → Entity
amended p e = record e { properties = merge e.properties p }

abbrev pub amend_named : (agency id : String) → Properties → Entity → Entity
amend_named agency id p e = if is_named agency id e then amended p e else e

abbrev pub with_entity : Entity → Graph → Graph
with_entity e g = record g { entities = g.entities ++ (e ∷ []) }

abbrev pub with_amended : (agency id : String) → Properties → Graph → Graph
with_amended agency id p g = record g { entities = map (amend_named agency id p) g.entities }

abbrev pub without_named : (agency id : String) → Graph → Graph
without_named agency id g = record g {
  entities = keep (λ e. not (is_named agency id e)) g.entities;
}

abbrev pub with_edge : Relationship → Graph → Graph
with_edge r g = record g { relationships = g.relationships ++ (r ∷ []) }
