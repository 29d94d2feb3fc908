-- ===== src/Schema/Writes.antt =====
-- The calls of the store against the schema: what keeps a record within it.
use code_vald_org.Prelude.{
  String, ◌==◌, ◌≡◌, refl, true, false, not, ◌&&◌, inl, inr, Bool-cases, ℕ, [], ◌∷◌, all, arith,
}
use code_vald_org.Graph.{
  Value, str, Properties, insert, Relationship, EntityFilter, CreateEntityRequest,
  RelationshipFilter,
}
use code_vald_org.Graph.State.{Occurs}
use code_vald_org.Graph.Occurs.{any_of_Occurs}
use code_vald_org.Effects.{Env, Action, lift}
use code_vald_org.Manager.Calls.{set_unless_empty, now_text}
use code_vald_org.Store.Preserves.{Preserves, Preserves-bind, Preserves-pure, preserves_rules}
use code_vald_org.Schema.{default_org_schema}
use code_vald_org.Schema.Types.{TypeDefinition}
use code_vald_org.Schema.Conformance.{allowed, conforms, patches, declares}
use code_vald_org.Schema.Recording.{Recording, recording, inside}

-- All that was asked of the store, successful or not, is declared by the schema.
pub record IsDeclared {W : Type 0} (w : Recording W) : Type 0 where
  pub creations : all (conforms default_org_schema) w.creations ≡ true
  pub patches : all (patches default_org_schema) w.patches ≡ true
  pub edges : all (λ (q : Relationship). declares default_org_schema q.name) w.edges ≡ true

module _ (E : Env) where
  abbrev pub Declares : {A : Type 0} → Action (Recording E.World) A → Type 0
  Declares {A} m = Preserves (IsDeclared {W = E.World}) {A = A} m

  -- A call that is not recorded.
  Declares-inside : {A : Type 0} (m : Action E.World A) → Declares (inside m)
  Declares-inside m = record {
    at = λ w d. record { creations = d.creations; patches = d.patches; edges = d.edges };
  }

  pub Declares-list_entities : (f : EntityFilter) → Declares ((recording E).list_entities f)
  Declares-list_entities f = Declares-inside (E.list_entities f)

  pub Declares-get_entity : (agency id : String) → Declares ((recording E).get_entity agency id)
  Declares-get_entity agency id = Declares-inside (E.get_entity agency id)

  pub Declares-delete_entity :
      (agency id : String) → Declares ((recording E).delete_entity agency id)
  Declares-delete_entity agency id = Declares-inside (E.delete_entity agency id)

  pub Declares-list_relationships :
      (f : RelationshipFilter) → Declares ((recording E).list_relationships f)
  Declares-list_relationships f = Declares-inside (E.list_relationships f)

  pub Declares-rand_read : (n : ℕ) → Declares ((recording E).rand_read n)
  Declares-rand_read n = Declares-inside (E.rand_read n)

  pub Declares-now : Declares (lift (recording E).now)
  unfolding lift
  Declares-now = record {
    at = λ w d. record { creations = d.creations; patches = d.patches; edges = d.edges };
  }

  pub Declares-new_uuid : Declares (lift (recording E).new_uuid)
  unfolding lift
  Declares-new_uuid = record {
    at = λ w d. record { creations = d.creations; patches = d.patches; edges = d.edges };
  }

  pub Declares-now_text : Declares (now_text (recording E))
  unfolding now_text
  Declares-now_text = Preserves-bind IsDeclared _ _ Declares-now (λ t. Preserves-pure IsDeclared _)

  pub Declares-create_entity :
      (req : CreateEntityRequest)
      → conforms default_org_schema req ≡ true
      → Declares ((recording E).create_entity req)
  Declares-create_entity req h = record {
    at = λ w d. record { creations = rw h d.creations; patches = d.patches; edges = d.edges };
  }

  pub Declares-update_entity :
      (agency id : String) (p : Properties)
      → patches default_org_schema p ≡ true
      → Declares ((recording E).update_entity agency id p)
  Declares-update_entity agency id p h = record {
    at = λ w d. record { creations = d.creations; patches = rw h d.patches; edges = d.edges };
  }

  pub Declares-create_relationship :
      (q : Relationship)
      → declares default_org_schema q.name ≡ true
      → Declares ((recording E).create_relationship q)
  Declares-create_relationship q h = record {
    at = λ w d. record { creations = d.creations; patches = d.patches; edges = rw h d.edges };
  }

pub ruleset declares_rules = (
  preserves_rules, Declares-list_entities, Declares-get_entity, Declares-delete_entity,
  Declares-list_relationships, Declares-rand_read, Declares-now, Declares-new_uuid,
  Declares-now_text, Declares-create_entity, Declares-update_entity, Declares-create_relationship,
)

-- A patch that is built up from properties that are set only if not empty.
allowed-insert :
    (t : TypeDefinition) (k : String) (v : Value) (p : Properties)
    → allowed t (k, v) ≡ true
    → all (allowed t) p ≡ true
    → all (allowed t) (insert k v p) ≡ true
allowed-insert t k v [] h n = rw h refl
allowed-insert t k v ((j, w) ∷ p) h n = elim (Bool-cases (j == k)) [
  | inl yes_ ↦ rw (yes_, h) (ground arith)
  | inr no_ ↦ rw no_ (ground (arith, allowed-insert t k v p h (ground arith)))
]

pub allowed-set_unless_empty :
    (t : TypeDefinition) (k v : String) (p : Properties)
    → allowed t (k, str v) ≡ true
    → all (allowed t) p ≡ true
    → all (allowed t) (set_unless_empty k v p) ≡ true
allowed-set_unless_empty t k v p h n = elim (Bool-cases (v == "")) [
  | inl yes_ ↦ rw yes_ n
  | inr no_ ↦ rw no_ (allowed-insert t k (str v) p h n)
]

pub patches_of :
    (t : TypeDefinition) (p : Properties)
    → Occurs t default_org_schema.types
    → t.immutable ≡ false
    → all (allowed t) p ≡ true
    → patches default_org_schema p ≡ true
patches_of t p o i a =
    any_of_Occurs (λ (u : TypeDefinition). not u.immutable && all (allowed u) p) t
      default_org_schema.types o (rw (i, a) refl)
