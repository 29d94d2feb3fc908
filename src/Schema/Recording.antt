-- ===== src/Schema/Recording.antt =====
-- An environment that keeps a record of what a caller asks the store to write, in front of any
-- other environment.
use code_vald_org.Prelude.{List, ◌∷◌}
use code_vald_org.Graph.{Properties, Relationship, CreateEntityRequest}
use code_vald_org.Effects.{Env}

pub record Recording (W : Type 0) : Type 0 where
  pub world : W
  pub creations : List CreateEntityRequest
  pub patches : List Properties
  pub edges : List Relationship

-- A call that is passed on and not recorded.
abbrev pub inside : {W A : Type 0} → (W → A × W) → Recording W → A × Recording W
inside m w = let (a, v) = m w.world in (a, record w { world = v })

-- The environment behind a record. The calls reach it unchanged, and so do its answers.
abbrev pub recording : Env → Env
recording E = record E {
  World = Recording E.World;
  list_entities = λ f. inside (E.list_entities f);
  get_entity = λ agency id. inside (E.get_entity agency id);
  create_entity =
      λ req w. inside (E.create_entity req) (record w { creations = req ∷ w.creations });
  update_entity =
      λ agency id p w. inside (E.update_entity agency id p) (record w { patches = p ∷ w.patches });
  delete_entity = λ agency id. inside (E.delete_entity agency id);
  create_relationship = λ q w. inside (E.create_relationship q) (record w { edges = q ∷ w.edges });
  list_relationships = λ f. inside (E.list_relationships f);
  now = inside E.now;
  rand_read = λ n. inside (E.rand_read n);
  new_uuid = inside E.new_uuid;
}
