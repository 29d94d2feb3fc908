-- ===== src/App.antt =====
-- internal/app/app.go: how Run wires the subsystems together. The listener, the servers and the
-- shared library are the parameter Runtime; `serve` stands for the goroutines that serve until a
-- signal comes, and for the shutdown. Lines that are logged are left out.
pub mod Startup
use code_vald_org.Prelude.{String, ◌<>◌, ◌==◌, Option, none, some, List, [], ◌∷◌, if◌then◌else◌}
use code_vald_org.Models.{ManagerConfig}
use code_vald_org.Schema.Types.{Schema}
use code_vald_org.Schema.{default_org_schema}
use code_vald_org.Configuration.{Config}
use code_vald_org.Registrar.{Registration, new_registrar}
use code_vald_org.HttpHandler.{Endpoint, Response, Handler, new_handler}
use code_vald_org.ServeMux.{ServeMux}
use code_vald_org.Storage.{Fallible, value, error, ConnConfig, SharedArango, new_backend}

-- What is served on the listener: the gRPC service and the HTTP handler.
pub record Services (M : ServeMux Endpoint Response) (Backend Registrar : Type 0) : Type 0 where
  pub backend : Backend
  pub manager : ManagerConfig
  pub agency_id : String
  pub http : Handler M
  pub registrar : Option Registrar

pub record Runtime : Type 1 where
  pub World : Type 0
  pub arango : SharedArango World
  pub Registrar : Type 0
  pub Listener : Type 0
  -- net/http's ServeMux
  pub mux : ServeMux Endpoint Response
  -- `entitygraph.SeedSchema`: the text of its error, if there is one.
  pub seed_schema : arango.Backend → String → Schema → World → Option String × World
  -- `sharedregistrar.New`
  pub shared_registrar : Registration → World → Fallible Registrar × World
  -- `net.Listen("tcp", address)`
  pub listen : String → World → Fallible Listener × World
  pub serve : Listener → Services mux arango.Backend Registrar → World → World

-- How Run ends. An index out of range panics, and so does a pattern that ServeMux refuses.
pub data Ending : Type 0 where
  finished panicked : Ending
  failed : (text : String) → Ending

abbrev pub conn_config : String → Config → ConnConfig
conn_config endpoint cfg = record {
  endpoint = endpoint;
  username = cfg.arango_user;
  password = cfg.arango_password;
  database = cfg.arango_db_name;
  schema = default_org_schema;
}

abbrev pub manager_config : Config → ManagerConfig
manager_config cfg = record {
  agency_id = cfg.agency_id;
  issuer_url = cfg.issuer_url;
  access_token_ttl = cfg.access_token_ttl;
  refresh_token_ttl = cfg.refresh_token_ttl;
  auth_code_ttl = cfg.auth_code_ttl;
  client_secret_grace = cfg.client_secret_grace;
  argon2_time = cfg.argon2_time;
  argon2_memory_kib = cfg.argon2_memory_kib;
  argon2_threads = cfg.argon2_threads;
}

-- A registrar that could not be made is done without.
abbrev pub kept : {A : Type 0} → Fallible A → Option A
kept (value a) = some a
kept (error text) = none

module _ (R : Runtime) (cfg : Config) where
  abbrev pub announce : R.World → Option R.Registrar × R.World
  announce w =
      let (r, w') =
        new_registrar R.shared_registrar cfg.cross_endpoint cfg.bind_addr cfg.agency_id
          cfg.registrar_interval cfg.ping_timeout w in
      (kept r, w')

  -- The optional registration with Cross.
  unfoldable pub register : R.World → Option R.Registrar × R.World
  register w = if cfg.cross_endpoint == "" then (none, w) else announce w

  abbrev pub on_listener :
      R.arango.Backend
      → Option R.Registrar
      → Handler R.mux
      → Fallible R.Listener
      → R.World
      → Ending × R.World
  on_listener backend registrar handler (error text) w =
      (failed ("failed to listen on " <> cfg.bind_addr <> ": " <> text), w)
  on_listener backend registrar handler (value listener) w =
      let services : Services R.mux R.arango.Backend R.Registrar = record {
        backend = backend;
        manager = manager_config cfg;
        agency_id = cfg.agency_id;
        http = handler;
        registrar = registrar;
      } in
      (finished, R.serve listener services w)

  -- `httphandler.New`, and the listener.
  abbrev pub on_handler :
      R.arango.Backend → Option R.Registrar → Option (Handler R.mux) → R.World → Ending × R.World
  on_handler backend registrar none w = (panicked, w)
  on_handler backend registrar (some handler) w =
      let (listener, w') = R.listen cfg.bind_addr w in
      on_listener backend registrar handler listener w'

  -- A schema that could not be seeded is logged, and the start goes on.
  unfoldable pub on_backend : Fallible R.arango.Backend → R.World → Ending × R.World
  unfolding register new_handler
  on_backend (error text) w = (failed ("ArangoDB backend: " <> text), w)
  on_backend (value backend) w =
      let (seeded, w1) = R.seed_schema backend cfg.agency_id default_org_schema w in
      let (registrar, w2) = register w1 in
      on_handler backend registrar (new_handler R.mux cfg.agency_id cfg.issuer_url) w2

  -- The first endpoint is used.
  abbrev pub run_at : List String → R.World → Ending × R.World
  run_at [] w = (panicked, w)
  run_at (endpoint ∷ more) w =
      let (backend, w') = new_backend R.arango (conn_config endpoint cfg) w in on_backend backend w'

  unfoldable pub run : R.World → Ending × R.World
  run w = run_at cfg.arango_endpoints w
