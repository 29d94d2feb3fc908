-- ===== src/Schema/Types.antt =====
-- The definitions of which a schema is made: the fields of the shared library's structs that
-- schema.go sets. A field that a literal leaves out is the zero value.
use code_vald_org.Prelude.{ℕ, String, Bool, true, false, Option, none, some, List, []}

pub data PropertyType : Type 0 where
  string boolean option array : PropertyType

pub record PropertyDefinition : Type 0 where
  pub name : String
  pub type : PropertyType
  pub required : Bool
  pub options : List String
  pub element_type : Option PropertyType

pub record RelationshipDefinition : Type 0 where
  pub name : String
  pub label : String
  pub to_type : String
  pub to_many : Bool

pub record TypeDefinition : Type 0 where
  pub name : String
  pub display_name : String
  pub path_segment : String
  pub entity_id_param : String
  pub storage_collection : String
  pub immutable : Bool
  pub properties : List PropertyDefinition
  pub relationships : List RelationshipDefinition

pub record Schema : Type 0 where
  pub id : String
  pub version : ℕ
  pub tag : String
  pub types : List TypeDefinition

abbrev property :
    Bool → String → PropertyType → List String → Option PropertyType → PropertyDefinition
property is_required name type options element = record {
  name = name;
  type = type;
  required = is_required;
  options = options;
  element_type = element;
}

abbrev pub required : String → PropertyType → PropertyDefinition
required name type = property true name type [] none

abbrev pub optional : String → PropertyType → PropertyDefinition
optional name type = property false name type [] none

abbrev pub required_one_of : String → List String → PropertyDefinition
required_one_of name options = property true name PropertyType.option options none

abbrev pub one_of : String → List String → PropertyDefinition
one_of name options = property false name PropertyType.option options none

abbrev pub array_of : String → PropertyType → PropertyDefinition
array_of name element = property false name PropertyType.array [] (some element)

abbrev pub relation : (name label to_type : String) → Bool → RelationshipDefinition
relation name label to_type to_many = record {
  name = name;
  label = label;
  to_type = to_type;
  to_many = to_many;
}
