-- ===== src/Store/Lawful.antt =====
-- What the entity graph's documentation promises of the DataManager, and that the clock, the random
-- source and the uuid source leave the graph alone. `view` reads the graph off the world; entities
-- that were deleted (softly) are not in it.
use code_vald_org.Prelude.{ℕ, String, ◌≡◌, Bool, true, false, ◌↔◌, List, any}
use code_vald_org.Graph.{
  Properties, Entity, Relationship, EntityFilter, CreateEntityRequest, RelationshipFilter,
}
use code_vald_org.Graph.State.{
  Graph, Occurs, selects, selects_edge, is_named, amended, with_entity, with_amended, without_named,
  with_edge,
}
use code_vald_org.Effects.{Env, Result, ok, err}

-- A call returned `r` and left the graph `g'`: it wrote as `written` says, or failed and left `g`.
abbrev pub Writes : {A : Type 0} → Result A → (g g' : Graph) → (A → Type 0) → Type 0
Writes (ok a) g g' written = written a
Writes (err e) g g' written = g' ≡ g

-- The listed values are those that the test selects.
abbrev pub ListsAll : {A : Type 0} → Result (List A) → List A → (A → Bool) → Type 0
ListsAll (err e) all_of test = Unit
ListsAll {A} (ok found) all_of test = (a : A) → Occurs a found ↔ (Occurs a all_of × (test a ≡ true))

abbrev pub Finds : Result Entity → List Entity → (Entity → Bool) → Type 0
Finds (err e) all_of test = Unit
Finds (ok e) all_of test = Occurs e all_of × (test e ≡ true)

pub record IsLawful (E : Env) (view : E.World → Graph) : Type 0 where
  -- `ListEntities` writes nothing, and lists what the filter selects.
  pub list_entities-view : (f : EntityFilter) (w : E.World) → view (E.list_entities f w).1 ≡ view w
  pub list_entities-ListsAll :
      (f : EntityFilter) (w : E.World)
      → ListsAll (E.list_entities f w).0 (view w).entities (selects f)
  -- `GetEntity` writes nothing, and returns an entity of that agency and id.
  pub get_entity-view :
      (agency id : String) (w : E.World) → view (E.get_entity agency id w).1 ≡ view w
  pub get_entity-Finds :
      (agency id : String) (w : E.World)
      → Finds (E.get_entity agency id w).0 (view w).entities (is_named agency id)
  -- `CreateEntity` stores the request under an id that the agency has not used.
  pub create_entity-Writes :
      (req : CreateEntityRequest) (w : E.World)
      → let (r, w') = E.create_entity req w in
        Writes r (view w) (view w') (λ e.
          (e.agency_id ≡ req.agency_id)
          × (e.type_id ≡ req.type_id)
          × (e.properties ≡ req.properties)
          × (any (is_named e.agency_id e.id) (view w).entities ≡ false)
          × (view w' ≡ with_entity e (view w)))
  -- `UpdateEntity` patches the properties of the entity, and returns it.
  pub update_entity-Writes :
      (agency id : String) (p : Properties) (w : E.World)
      → let (r, w') = E.update_entity agency id p w in
        Writes r (view w) (view w') (λ e.
          (old : Entity) × Occurs old (view w).entities
          × (is_named agency id old ≡ true)
          × (e ≡ amended p old)
          × (view w' ≡ with_amended agency id p (view w)))
  -- `DeleteEntity` takes the entity out of the live graph.
  pub delete_entity-Writes :
      (agency id : String) (w : E.World)
      → let (r, w') = E.delete_entity agency id w in
        Writes r (view w) (view w') (λ _. view w' ≡ without_named agency id (view w))
  -- `CreateRelationship` and `ListRelationships`, for edges.
  pub create_relationship-Writes :
      (q : Relationship) (w : E.World)
      → let (r, w') = E.create_relationship q w in
        Writes r (view w) (view w') (λ _. view w' ≡ with_edge q (view w))
  pub list_relationships-view :
      (f : RelationshipFilter) (w : E.World) → view (E.list_relationships f w).1 ≡ view w
  pub list_relationships-ListsAll :
      (f : RelationshipFilter) (w : E.World)
      → ListsAll (E.list_relationships f w).0 (view w).relationships (selects_edge f)
  pub now-view : (w : E.World) → view (E.now w).1 ≡ view w
  pub rand_read-view : (n : ℕ) (w : E.World) → view (E.rand_read n w).1 ≡ view w
  pub new_uuid-view : (w : E.World) → view (E.new_uuid w).1 ≡ view w
