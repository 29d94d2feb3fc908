-- ===== src/HttpHandler.antt =====
-- internal/httphandler/httphandler.go: the listener's HTTP endpoints. ServeMux is a parameter, whose
-- HandleFunc may panic. A request is its path: no handler looks at the method, the headers or the
-- body.
pub mod Endpoints
pub mod Patterns
use code_vald_org.ServeMux.{ServeMux, handle_all}
use code_vald_org.Prelude.{
  ℕ, String, ◌<>◌, ◌==◌, Bool, true, false, Option, none, some, List, [], ◌∷◌, if◌then◌else◌,
}

-- What a handler writes: the status, the type of the content where it sets one, and the body.
pub record Response : Type 0 where
  pub status : ℕ
  pub content_type : Option String
  pub body : String

-- `http.Error(w, text, status)`
abbrev pub http_error : String → ℕ → Response
http_error text status = record {
  status = status;
  content_type = some "text/plain; charset=utf-8";
  body = text <> "\n";
}

pub data Endpoint : Type 0 where
  authorize token introspect revoke meta health : Endpoint

-- The four handlers of the OAuth endpoints write the same.
abbrev pub unavailable : Response
unavailable = http_error "{\"error\":\"temporarily_unavailable\"}" 503

pub record Handler (M : ServeMux Endpoint Response) : Type 0 where
  pub mux : M.Table
  pub agency_id : String
  pub issuer_url : String

-- The patterns that `New` registers, with their handlers.
abbrev pub patterns : String → List (String × Endpoint)
patterns agency_id =
    ("/" <> agency_id <> "/oauth/authorize", authorize)
    ∷ ("/" <> agency_id <> "/oauth/token", token)
    ∷ ("/" <> agency_id <> "/oauth/introspect", introspect)
    ∷ ("/" <> agency_id <> "/oauth/revoke", revoke)
    ∷ ("/" <> agency_id <> "/.well-known/oauth-authorization-server", meta)
    ∷ ("/healthz", health)
    ∷ []

module _ (M : ServeMux Endpoint Response) where
  -- `New`: nothing where the registration of a pattern panics.
  unfoldable pub new_handler : (agency_id issuer_url : String) → Option (Handler M)
  new_handler agency_id issuer_url = elim (handle_all M (patterns agency_id) M.new_table) [
    | none ↦ none
    | some table ↦ some (record { mux = table; agency_id = agency_id; issuer_url = issuer_url })
  ]

  -- `base` of handleMeta.
  abbrev pub base_url : Handler M → String
  base_url h = h.issuer_url <> "/" <> h.agency_id

  unfoldable pub metadata : Handler M → String
  metadata h =
      "{"
      <> "\"issuer\":\""
      <> base_url h
      <> "\","
      <> "\"authorization_endpoint\":\""
      <> base_url h
      <> "/oauth/authorize\","
      <> "\"token_endpoint\":\""
      <> base_url h
      <> "/oauth/token\","
      <> "\"introspection_endpoint\":\""
      <> base_url h
      <> "/oauth/introspect\","
      <> "\"revocation_endpoint\":\""
      <> base_url h
      <> "/oauth/revoke\","
      <> "\"response_types_supported\":[\"code\"],"
      <> "\"grant_types_supported\":[\"authorization_code\",\"client_credentials\",\"refresh_token\"],"
      <> "\"token_endpoint_auth_methods_supported\":[\"client_secret_basic\",\"client_secret_post\",\"none\"],"
      <> "\"code_challenge_methods_supported\":[\"S256\"]"
      <> "}"

  abbrev pub handle_endpoint : Handler M → Endpoint → Response
  handle_endpoint h authorize = unavailable
  handle_endpoint h token = unavailable
  handle_endpoint h introspect = unavailable
  handle_endpoint h revoke = unavailable
  handle_endpoint h meta = record {
    status = 200;
    content_type = some "application/json";
    body = metadata h;
  }
  handle_endpoint h health = record { status = 200; content_type = none; body = "ok" }

  -- `ServeHTTP`
  unfoldable pub serve_http : Handler M → String → Response
  serve_http h path = elim (M.route h.mux path) [
    | none ↦ M.unmatched h.mux path
    | some endpoint ↦ handle_endpoint h endpoint
  ]
