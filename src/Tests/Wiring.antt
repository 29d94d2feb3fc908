-- ===== src/Tests/Wiring.antt =====
-- The wiring at concrete inputs: the announced routes, the HTTP endpoints, and a start.
use code_vald_org.Prelude.{
  String, ◌==◌, ◌≡◌, refl, ap, ◌∙◌, true, none, some, List, [], ◌∷◌, ◌++◌, all, arith,
  if◌then◌else◌, Bool-cases, inl, inr, eq_iff,
}
use code_vald_org.Server.Service.{Rpc, handle}
use code_vald_org.Store.Memory.{memory, graph_of, memory-IsLawful}
use code_vald_org.Configuration.{getenv, Config, configuration, required_keys}
use code_vald_org.Registrar.Routes.{IsTable, org_routes-IsTable}
use code_vald_org.Registrar.{org_routes}
use code_vald_org.Registrar.ReadOnly.{has_read_route, handle-view}
use code_vald_org.HttpHandler.{
  Endpoint, Response, Handler, http_error, patterns, new_handler, serve_http,
}
use code_vald_org.ServeMux.{
  ServeMux, IsServeMux, is_literal, is_segment, is_plain, literal_from, handle_all, first_match,
}
use code_vald_org.Manager.Scopes.Grammar.{codes}
use code_vald_org.HttpHandler.Endpoints.{IsConsistent, serve_http-IsConsistent}
use code_vald_org.Storage.{value, error, SharedArango, new, new_backend, new_backend_from_db}
use code_vald_org.Schema.{default_org_schema}
use code_vald_org.App.{Runtime, panicked, register, announce, on_backend, run}
use code_vald_org.App.Startup.{IsDocumented, Explained, run-load}
use code_vald_org.Tests.Data.{cfg, with_user}
use code_vald_org.Tests.Configured.{server_util, environ, loaded_run, required_keys-IsOrder}

abbrev ask : Rpc
ask = Rpc.get_user (record { agency_id = "a1"; user_id = "u1" })

org_routes-IsTable_example : IsTable (org_routes "a1")
org_routes-IsTable_example = org_routes-IsTable "a1"

read_route : has_read_route "a1" ask ≡ true
unfolding org_routes
read_route = refl

handle-view_example : graph_of (handle memory cfg "a1" ask with_user).1 ≡ graph_of with_user
handle-view_example = handle-view memory graph_of memory-IsLawful cfg "a1" ask with_user read_route

-- A mux that keeps the patterns, and refuses one that is not literal.
abbrev Patterns : Type 0
Patterns = List (String × Endpoint)

abbrev mux : ServeMux Endpoint Response
mux = record {
  Table = Patterns;
  new_table = [];
  handle_func = λ p e t. if is_literal (codes p) then some (t ++ ((p, e) ∷ [])) else none;
  route = first_match;
  unmatched = λ t path. http_error "404 page not found" 404;
}

concat-cons :
    (t : Patterns) (p : String × Endpoint) (ps : Patterns) → (t ++ (p ∷ [])) ++ ps ≡ t ++ (p ∷ ps)
concat-cons [] p ps = refl
concat-cons (q ∷ t) p ps = ap (λ r. q ∷ r) (concat-cons t p ps)

concat-nil : (t : Patterns) → t ++ [] ≡ t
concat-nil [] = refl
concat-nil (q ∷ t) = ap (λ r. q ∷ r) (concat-nil t)

handle_all-concat :
    (ps t : Patterns)
    → all (λ (p : String × Endpoint). is_literal (codes p.0)) ps ≡ true
    → handle_all mux ps t ≡ some (t ++ ps)
unfolding handle_all
handle_all-concat [] t h = rw (concat-nil t) refl
handle_all-concat ((p, e) ∷ ps) t h =
    let here : is_literal (codes p) ≡ true = ground arith in
    let more : all (λ (p : String × Endpoint). is_literal (codes p.0)) ps ≡ true = ground arith in
    rw (handle_all, here)
      (handle_all-concat ps (t ++ ((p, e) ∷ [])) more ∙ ap some (concat-cons t (p, e) ps))

mux-IsServeMux : IsServeMux mux
mux-IsServeMux = record {
  handle_all-first_match =
      λ ps literal apart. (ps, handle_all-concat ps [] literal, λ path h. refl);
}

abbrev spaced : String
spaced = "my agency"

spaced_run : new_handler mux spaced "https://org" ≡ none
unfolding new_handler handle_all literal_from is_plain
spaced_run = refl

abbrev listener : Handler mux
listener = record { mux = patterns "a1"; agency_id = "a1"; issuer_url = "https://org" }

made_run : new_handler mux "a1" "https://org" ≡ some listener
unfolding new_handler handle_all literal_from is_plain
made_run = refl

unknown_run : (serve_http mux listener "/a1/oauth").status ≡ 404
unfolding serve_http first_match
unknown_run = refl

health_run : (serve_http mux listener "/healthz").body ≡ "ok"
unfolding serve_http first_match
health_run = refl

a1_segment : is_segment (codes "a1") ≡ true
unfolding is_plain
a1_segment = refl

serve_http-IsConsistent_example : (h : Handler mux) × IsConsistent mux "a1" "https://org" h
serve_http-IsConsistent_example =
    serve_http-IsConsistent mux mux-IsServeMux "a1" "https://org" a1_segment

server_util-IsDocumented : IsDocumented server_util
server_util-IsDocumented = record {
  env_or_default-set = λ env key def n. elim (Bool-cases (getenv env key == "")) [
    | inl empty ↦ absurd (n ((eq_iff _ _).0 empty))
    | inr set ↦ rw set refl
  ];
  env_or_default-unset = λ env key def e. rw e refl;
}

-- A world that counts the calls, and in which every call succeeds.
abbrev arango : SharedArango (List String)
arango = record {
  Database = Unit {0};
  Backend = Unit {0};
  Managers = Unit {0};
  shared_new = λ db c w. (value tt, "new" ∷ w);
  shared_new_backend = λ c w. (value tt, c.entity_collection ∷ w);
  shared_new_backend_from_db = λ db c w. (value tt, "from db" ∷ w);
}

abbrev runtime : Runtime
runtime = record {
  World = List String;
  arango = arango;
  Registrar = Unit {0};
  Listener = Unit {0};
  mux = mux;
  seed_schema = λ b agency s w. (none, "seed" ∷ w);
  shared_registrar = λ r w. (value tt, r.service ∷ w);
  listen = λ address w. (value tt, address ∷ w);
  serve = λ l s w. "serve" ∷ w;
}

unnamed_run :
    new_backend arango
      (record {
        endpoint = "";
        username = "";
        password = "";
        database = "";
        schema = default_org_schema;
      })
      []
    ≡ (error "arangodb: NewBackend: Database must be set", [])
unfolding new_backend
unnamed_run = refl

nil_run :
    new arango none default_org_schema [] ≡ (error "arangodb: New: database must not be nil", [])
unfolding new
nil_run = refl

nil_from_db_run :
    new_backend_from_db arango none default_org_schema []
    ≡ (error "arangodb: NewBackendFromDB: database must not be nil", [])
unfolding new_backend_from_db
nil_from_db_run = refl

abbrev loaded_config : Config
loaded_config = configuration server_util environ

-- With an agency id that holds a space, the start panics before it listens.
panicked_run :
    (run runtime
      (record loaded_config { agency_id = spaced; arango_endpoints = "http://a" ∷ [] })
      []).0
    ≡ panicked
unfolding run on_backend register new_backend new_handler handle_all literal_from is_plain
panicked_run = refl

loaded_segment : is_segment (codes loaded_config.agency_id) ≡ true
unfolding is_plain
loaded_segment = refl

run-load_example :
    ((w : List String) → Explained runtime loaded_config (run runtime loaded_config w).0)
    × ((w : List String) → register runtime loaded_config w ≡ announce runtime loaded_config w)
run-load_example =
    run-load runtime loaded_config server_util required_keys environ server_util-IsDocumented
      mux-IsServeMux loaded_segment required_keys-IsOrder loaded_run
