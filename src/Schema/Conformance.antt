-- ===== src/Schema/Conformance.antt =====
-- schema.go against the entity graph: which creations, patches and edges the schema declares.
use code_vald_org.Prelude.{
  String, ◌==◌, Bool, true, false, not, ◌&&◌, ◌||◌, none, some, List, any, all,
}
use code_vald_org.Graph.{Value, str, bool, strs, Properties, lookup, CreateEntityRequest}
use code_vald_org.Schema.Types.{
  PropertyType, string, boolean, option, array, PropertyDefinition, TypeDefinition, Schema,
}

-- A value of the declared type; one of an `option` is among its options.
abbrev pub fits : PropertyType → List String → Value → Bool
fits string options (str s) = true
fits boolean options (bool b) = true
fits option options (str s) = any (λ o. s == o) options
fits array options (strs ss) = true
fits _ options v = false

abbrev pub allowed : TypeDefinition → String × Value → Bool
allowed t (key, v) = any (λ d. d.name == key && fits d.type d.options v) t.properties

-- A required property is there.
abbrev pub is_set : Properties → PropertyDefinition → Bool
is_set props d = not d.required || elim (lookup d.name props) [ none ↦ false | some v ↦ true ]

abbrev pub is_instance : CreateEntityRequest → TypeDefinition → Bool
is_instance req t =
    t.name == req.type_id
    && all (allowed t) req.properties
    && all (is_set req.properties) t.properties

-- A creation of a declared type, with declared properties only and all that are required.
abbrev pub conforms : Schema → CreateEntityRequest → Bool
conforms schema req = any (is_instance req) schema.types

-- A patch of declared properties of one type, which is not immutable.
abbrev pub patches : Schema → Properties → Bool
patches schema p = any (λ t. not t.immutable && all (allowed t) p) schema.types

-- An edge of a declared name.
abbrev pub declares : Schema → String → Bool
declares schema name = any (λ t. any (λ r. r.name == name) t.relationships) schema.types
