-- ===== src/Graph/Step.antt =====
-- What the service may do to the graph, one write at a time: the abstract specification that every
-- operation of the manager refines.
use code_vald_org.Prelude.{
  String, ◌==◌, ◌≡◌, Bool, true, false, ◌&&◌, ◌||◌, Option, none, some, List, [], ◌∷◌, all, any,
  if◌then◌else◌,
}
use code_vald_org.Graph.{Value, Properties, lookup, Entity, Relationship}
use code_vald_org.Graph.State.{
  Graph, Occurs, selects, is_named, with_entity, with_amended, without_named, with_edge,
}
use code_vald_org.Helpers.{prop_bool}

abbrev pub pair_with : String → Option Value → Option Properties
pair_with k none = none
pair_with k (some v) = some ((k, v) ∷ [])

-- The properties by which an entity is unique among those of its agency and type: none of them for
-- the Organization, of which there is one; the email of a User; the name of a Role or a Scope.
abbrev pub key_of : (type_id : String) → Properties → Option Properties
key_of type_id props =
    if type_id == "Organization"
    then some []
    else if type_id == "User"
    then pair_with "email" (lookup "email" props)
    else if type_id == "Role" || type_id == "Scope"
    then pair_with "name" (lookup "name" props)
    else none

-- The entity `x` has the agency, the type and the key.
abbrev pub has_key : (agency type_id : String) → Option Properties → Entity → Bool
has_key agency type_id none x = false
has_key agency type_id (some key) x =
    selects (record { agency_id = agency; type_id = type_id; properties = key }) x

-- The entity `x` stands in the way of a new entity `e`.
abbrev pub clashes : Entity → Entity → Bool
clashes e x = has_key e.agency_id e.type_id (key_of e.type_id e.properties) x

-- The properties that no update touches, but for the Organization's own name.
abbrev pub fixed_keys : List String
fixed_keys = "agency_id" ∷ "email" ∷ "name" ∷ "builtin" ∷ "registered_by" ∷ "token_hash" ∷ []

-- Of those, the ones that an update of the Organization leaves alone too.
abbrev pub org_fixed_keys : List String
org_fixed_keys = "agency_id" ∷ "email" ∷ "builtin" ∷ "registered_by" ∷ "token_hash" ∷ []

abbrev pub lacks : Properties → String → Bool
lacks p k = elim (lookup k p) [ none ↦ true | some v ↦ false ]

abbrev pub is_neutral : Properties → Bool
is_neutral p = all (lacks p) fixed_keys

abbrev pub is_builtin_role : Entity → Bool
is_builtin_role e = e.type_id == "Role" && prop_bool e.properties "builtin"

pub data Step (g : Graph) : Graph → Type 0 where
  -- An entity under a fresh id, with no other in its way.
  created :
      (e : Entity)
      → any (is_named e.agency_id e.id) g.entities ≡ false
      → any (clashes e) g.entities ≡ false
      → Step g (with_entity e g)
  -- An update of properties that are not fixed.
  patched :
      (agency id : String) (p : Properties)
      → is_neutral p ≡ true
      → Step g (with_amended agency id p g)
  -- An update of the Organization, its name included.
  org_patched :
      (agency id : String) (p : Properties) (e : Entity)
      → Occurs e g.entities
      → is_named agency id e ≡ true
      → e.type_id ≡ "Organization"
      → all (lacks p) org_fixed_keys ≡ true
      → Step g (with_amended agency id p g)
  -- A deletion, never of a built-in role.
  removed :
      (agency id : String) (e : Entity)
      → Occurs e g.entities
      → is_named agency id e ≡ true
      → is_builtin_role e ≡ false
      → Step g (without_named agency id g)
  linked : (r : Relationship) → Step g (with_edge r g)

pub data Reach (g : Graph) : Graph → Type 0 where
  here : Reach g g
  next : {h k : Graph} → Reach g h → Step h k → Reach g k

pub Reach-trans : {g h k : Graph} → Reach g h → Reach h k → Reach g k
Reach-trans r here = r
Reach-trans r (next s st) = next (Reach-trans r s) st

pub Reach-step : {g h : Graph} → Step g h → Reach g h
Reach-step st = next here st
