-- ===== src/Storage.antt =====
-- storage/arangodb/arangodb.go: the adapter to the shared library's ArangoDB backend, which is the
-- parameter SharedArango.
use code_vald_org.Prelude.{String, ◌==◌, Option, none, some, if◌then◌else◌}
use code_vald_org.Schema.Types.{Schema}

-- A result `(A, error)`, of whose error the text is kept.
pub data Fallible (A : Type 0) : Type 0 where
  value : A → Fallible A
  error : (text : String) → Fallible A

-- `Config`, the shared library's ConnConfig.
pub record ConnConfig : Type 0 where
  pub endpoint : String
  pub username : String
  pub password : String
  pub database : String
  pub schema : Schema

-- The shared library's Config.
pub record SharedConfig : Type 0 where
  pub connection : ConnConfig
  pub entity_collection : String
  pub rel_collection : String
  pub schemas_draft_col : String
  pub schemas_published_col : String
  pub graph_name : String

abbrev pub to_shared_config : ConnConfig → SharedConfig
to_shared_config cfg = record {
  connection = cfg;
  entity_collection = "org_entities";
  rel_collection = "org_relationships";
  schemas_draft_col = "org_schemas_draft";
  schemas_published_col = "org_schemas_published";
  graph_name = "org_graph";
}

-- The constructors of the shared library.
pub record SharedArango (W : Type 0) : Type 1 where
  pub Database : Type 0
  pub Backend : Type 0
  -- `entitygraph.DataManager` and `entitygraph.SchemaManager`
  pub Managers : Type 0
  pub shared_new : Database → SharedConfig → W → Fallible Managers × W
  pub shared_new_backend : SharedConfig → W → Fallible Backend × W
  pub shared_new_backend_from_db : Database → SharedConfig → W → Fallible Backend × W

abbrev pub schema_only : Schema → ConnConfig
schema_only schema = record {
  endpoint = "";
  username = "";
  password = "";
  database = "";
  schema = schema;
}

module _ {W : Type 0} (A : SharedArango W) where
  -- `New`: a database that is nil is `none`.
  unfoldable pub new : Option A.Database → Schema → W → Fallible A.Managers × W
  new none schema w = (error "arangodb: New: database must not be nil", w)
  new (some db) schema w = A.shared_new db (to_shared_config (schema_only schema)) w

  unfoldable pub new_backend : ConnConfig → W → Fallible A.Backend × W
  new_backend cfg w =
      if cfg.database == ""
      then (error "arangodb: NewBackend: Database must be set", w)
      else A.shared_new_backend (to_shared_config cfg) w

  unfoldable pub new_backend_from_db : Option A.Database → Schema → W → Fallible A.Backend × W
  new_backend_from_db none schema w =
      (error "arangodb: NewBackendFromDB: database must not be nil", w)
  new_backend_from_db (some db) schema w =
      A.shared_new_backend_from_db db (to_shared_config (schema_only schema)) w
