-- ===== src/Store/Memory.antt =====
-- An environment in memory, which shows that the assumed behaviour can be met, and on which the
-- examples run: a graph, a clock that ticks at each reading, and a counter for ids.
use code_vald_org.Prelude.{
  ℕ, zero, suc, ◌+◌, ◌*◌, ◌-◌, ◌%◌, String, ◌<>◌, ◌≡◌, refl, Bool, true, false, ◌↔◌, Option, some,
  List, [], ◌∷◌, map, keep, any, inl, inr, if◌then◌else◌, Bool-cases,
}
use code_vald_org.Errors.{sentinel, external, entity_not_found}
use code_vald_org.Graph.{Properties, Entity, CreateEntityRequest}
use code_vald_org.Graph.State.{
  Graph, Occurs, selects, selects_edge, is_named, amended, with_entity, with_amended, without_named,
  with_edge,
}
use code_vald_org.Graph.Occurs.{Occurs-keep, occurs_keep}
use code_vald_org.Effects.{Env, Result, ok, err, Action}
use code_vald_org.Crypto.{decimal_from}
use code_vald_org.Manager.Scopes.Grammar.{codes}
use code_vald_org.Store.Lawful.{IsLawful, Writes, Finds}

pub record Memory : Type 0 where
  pub graph : Graph
  pub clock : ℕ
  pub counter : ℕ

abbrev pub digits : ℕ → String
digits n = decimal_from 30 n

abbrev pub number_of : List ℕ → ℕ → Option ℕ
number_of [] n = some n
number_of (c ∷ cs) n = number_of cs (n * 10 + (c - b'0'))

abbrev pub repeat : ℕ → ℕ → List ℕ
repeat zero b = []
repeat (suc n) b = b ∷ repeat n b

unfoldable pub find_named : (agency id : String) → List Entity → Result Entity
find_named agency id [] = err (sentinel entity_not_found)
find_named agency id (e ∷ es) =
    let rest = find_named agency id es in if is_named agency id e then ok e else rest

unfoldable pub store_entity : CreateEntityRequest → Action Memory Entity
store_entity req w =
    let e : Entity = record {
      id = "e" <> digits w.counter;
      agency_id = req.agency_id;
      type_id = req.type_id;
      properties = req.properties;
    } in
    if any (is_named e.agency_id e.id) w.graph.entities
    then (err (external "id in use"), w)
    else (ok e, record w { graph = with_entity e w.graph; counter = suc w.counter })

abbrev pub amend_found : (agency id : String) → Properties → Result Entity → Action Memory Entity
amend_found agency id p (err e) w = (err e, w)
amend_found agency id p (ok old) w =
    (ok (amended p old), record w { graph = with_amended agency id p w.graph })

abbrev pub memory : Env
memory = record {
  World = Memory;
  list_entities = λ f w. (ok (keep (selects f) w.graph.entities), w);
  get_entity = λ agency id w. (find_named agency id w.graph.entities, w);
  create_entity = store_entity;
  update_entity =
      λ agency id p w. amend_found agency id p (find_named agency id w.graph.entities) w;
  delete_entity = λ agency id w. (ok tt, record w { graph = without_named agency id w.graph });
  create_relationship = λ q w. (ok q, record w { graph = with_edge q w.graph });
  list_relationships = λ f w. (ok (keep (selects_edge f) w.graph.relationships), w);
  now = λ w. (w.clock, record w { clock = w.clock + 1 });
  rand_read = λ n w. (ok (repeat n (w.clock % 256)), w);
  new_uuid = λ w. ("u" <> digits w.counter, record w { counter = suc w.counter });
  sha256 = λ s. map (λ c. c % 256) (codes s);
  argon2_id_key = λ password salt t m p n. repeat n ((t + m + p) % 256);
  format_time = digits;
  parse_time = λ s. number_of (codes s) 0;
  entity_not_found_text = "entity not found";
  immutable_type_text = "immutable type";
}

abbrev pub graph_of : Memory → Graph
graph_of w = w.graph

keep_iff :
    {A : Type 0} (p : A → Bool) (xs : List A) (a : A)
    → Occurs a (keep p xs) ↔ (Occurs a xs × (p a ≡ true))
keep_iff p xs a = (Occurs-keep p a xs, λ h. occurs_keep p a xs h.0 h.1)

find_named-Finds :
    (agency id : String) (es : List Entity)
    → Finds (find_named agency id es) es (is_named agency id)
unfolding find_named
find_named-Finds agency id [] = tt
find_named-Finds agency id (e ∷ es) = elim (Bool-cases (is_named agency id e)) [
  | inl named ↦ rw named (inl refl, named)
  | inr other_ ↦ rw other_ (later (find_named agency id es) (find_named-Finds agency id es))
]
  where
    later :
        (r : Result Entity)
        → Finds r es (is_named agency id)
        → Finds r (e ∷ es) (is_named agency id)
    later (err x) h = tt
    later (ok x) h = (inr h.0, h.1)

store_entity-Writes :
    (req : CreateEntityRequest) (w : Memory)
    → let (r, w') = store_entity req w in
      Writes r w.graph w'.graph (λ e.
        (e.agency_id ≡ req.agency_id)
        × (e.type_id ≡ req.type_id)
        × (e.properties ≡ req.properties)
        × (any (is_named e.agency_id e.id) w.graph.entities ≡ false)
        × (w'.graph ≡ with_entity e w.graph))
unfolding store_entity
store_entity-Writes req w =
    elim (Bool-cases (any (is_named req.agency_id ("e" <> digits w.counter)) w.graph.entities)) [
      | inl used ↦ rw used refl
      | inr fresh ↦ rw fresh (refl, refl, refl, fresh, refl)
    ]

amend_found-Writes :
    (agency id : String) (p : Properties) (r : Result Entity) (w : Memory)
    → Finds r w.graph.entities (is_named agency id)
    → let (r', w') = amend_found agency id p r w in
      Writes r' w.graph w'.graph (λ e.
        (old : Entity) × Occurs old w.graph.entities
        × (is_named agency id old ≡ true)
        × (e ≡ amended p old)
        × (w'.graph ≡ with_amended agency id p w.graph))
amend_found-Writes agency id p (err e) w h = refl
amend_found-Writes agency id p (ok old) w h = (old, h.0, h.1, refl, refl)

-- The environment in memory behaves as is assumed of the store.
pub memory-IsLawful : IsLawful memory graph_of
memory-IsLawful = record {
  list_entities-view = λ f w. refl;
  list_entities-ListsAll = λ f w. keep_iff (selects f) w.graph.entities;
  get_entity-view = λ agency id w. refl;
  get_entity-Finds = λ agency id w. find_named-Finds agency id w.graph.entities;
  create_entity-Writes = store_entity-Writes;
  update_entity-Writes = λ agency id p w.
      amend_found-Writes agency id p (find_named agency id w.graph.entities) w
        (find_named-Finds agency id w.graph.entities);
  delete_entity-Writes = λ agency id w. refl;
  create_relationship-Writes = λ q w. refl;
  list_relationships-view = λ f w. refl;
  list_relationships-ListsAll = λ f w. keep_iff (selects_edge f) w.graph.relationships;
  now-view = λ w. refl;
  rand_read-view = λ n w. refl;
  new_uuid-view = λ w. refl;
}
