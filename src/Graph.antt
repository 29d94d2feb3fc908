-- ===== src/Graph.antt =====
-- The entity graph's data, as the manager sees it: property values, entities, relationships,
-- and the requests and filters that the manager builds.
pub mod State
pub mod Step
pub mod Lookup
pub mod Occurs
pub mod Keys
pub mod Sound
pub mod Builtin
use code_vald_org.Prelude.{String, ◌==◌, Bool, Option, none, some, List, [], ◌∷◌, if◌then◌else◌}

-- An item of a `[]any`.
pub data Item : Type 0 where
  text : String → Item
  non_text : Item

-- A value of `map[string]any`; `other` is any value of a type that no reader accepts.
pub data Value : Type 0 where
  str : String → Value
  bool : Bool → Value
  strs : List String → Value
  anys : List Item → Value
  other : Value

-- A `map[string]any`, as an association list whose first entry for a key counts.
abbrev pub Properties : Type 0
Properties = List (String × Value)

-- `v, ok := props[key]`
abbrev pub lookup : String → Properties → Option Value
lookup k [] = none
lookup k ((j, v) ∷ m) = if j == k then some v else lookup k m

-- `props[key] = v`
abbrev pub insert : String → Value → Properties → Properties
insert k v [] = (k, v) ∷ []
insert k v ((j, w) ∷ m) = if j == k then (k, v) ∷ m else (j, w) ∷ insert k v m

pub record Entity : Type 0 where
  pub id : String
  pub agency_id : String
  pub type_id : String
  pub properties : Properties

pub record Relationship : Type 0 where
  pub agency_id : String
  pub name : String
  pub from_id : String
  pub to_id : String

-- `entitygraph.EntityFilter`; an absent map is the empty one.
pub record EntityFilter : Type 0 where
  pub agency_id : String
  pub type_id : String
  pub properties : Properties

pub record CreateEntityRequest : Type 0 where
  pub agency_id : String
  pub type_id : String
  pub properties : Properties

-- `entitygraph.CreateRelationshipRequest`
abbrev pub CreateRelationshipRequest : Type 0
CreateRelationshipRequest = Relationship

-- `entitygraph.RelationshipFilter`; an end that is not set is the empty text.
pub record RelationshipFilter : Type 0 where
  pub agency_id : String
  pub name : String
  pub from_id : String
  pub to_id : String
