-- ===== src/HttpHandler/Endpoints.antt =====
-- httphandler: the endpoints that the metadata announces are those that are served.
use text.Mathlib.TextLemmas.{append_assoc}
use code_vald_org.Prelude.{String, ◌<>◌, ◌≡◌, refl, ◌∙◌, ap, true, some}
use code_vald_org.Manager.Scopes.Grammar.{codes}
use code_vald_org.ServeMux.{ServeMux, IsServeMux, is_segment}
use code_vald_org.HttpHandler.{
  Handler, Response, Endpoint, authorize, token, introspect, revoke, patterns, new_handler,
  base_url, metadata, handle_endpoint, serve_http,
}
use code_vald_org.HttpHandler.Patterns.{
  path_of, path_of-is_literal, patterns-is_literal, patterns-distinct, first_match-path_of,
}

-- What the metadata says besides the addresses.
abbrev pub supported : String
supported =
    "\"response_types_supported\":[\"code\"],"
    <> "\"grant_types_supported\":[\"authorization_code\",\"client_credentials\",\"refresh_token\"],"
    <> "\"token_endpoint_auth_methods_supported\":[\"client_secret_basic\",\"client_secret_post\",\"none\"],"
    <> "\"code_challenge_methods_supported\":[\"S256\"]" <> "}"

-- A metadata text that announces the given addresses.
abbrev pub announcing :
    (issuer authorization_url token_url introspection_url revocation_url : String) → String
announcing issuer authorization_url token_url introspection_url revocation_url =
    "{" <> "\"issuer\":\"" <> issuer <> "\"," <> "\"authorization_endpoint\":\""
    <> authorization_url <> "\"," <> "\"token_endpoint\":\"" <> token_url <> "\","
    <> "\"introspection_endpoint\":\"" <> introspection_url <> "\"," <> "\"revocation_endpoint\":\""
    <> revocation_url <> "\"," <> supported

-- An address that is written after the base, and what follows it.
address :
    (issuer agency suffix rest : String)
    → (issuer <> "/" <> agency) <> ((suffix <> "\",") <> rest)
      ≡ (issuer <> "/" <> agency <> suffix) <> ("\"," <> rest)
address issuer agency suffix rest = simp append_assoc

metadata-announcing :
    (M : ServeMux Endpoint Response) (h : Handler M)
    → metadata M h
      ≡ announcing
          (base_url M h)
          (h.issuer_url <> path_of h.agency_id authorize)
          (h.issuer_url <> path_of h.agency_id token)
          (h.issuer_url <> path_of h.agency_id introspect)
          (h.issuer_url <> path_of h.agency_id revoke)
unfolding metadata
metadata-announcing M h =
    let at_ = address h.issuer_url h.agency_id in
    ap
      (λ x. "{" <> "\"issuer\":\"" <> base_url M h <> "\"," <> "\"authorization_endpoint\":\"" <> x)
      (at_ "/oauth/authorize" _
        ∙ ap
            (λ x.
              (h.issuer_url <> path_of h.agency_id authorize)
              <> "\","
              <> "\"token_endpoint\":\""
              <> x)
            (at_ "/oauth/token" _
              ∙ ap
                  (λ x.
                    (h.issuer_url <> path_of h.agency_id token)
                    <> "\","
                    <> "\"introspection_endpoint\":\""
                    <> x)
                  (at_ "/oauth/introspect" _
                    ∙ ap
                        (λ x.
                          (h.issuer_url <> path_of h.agency_id introspect)
                          <> "\","
                          <> "\"revocation_endpoint\":\""
                          <> x)
                        (at_ "/oauth/revoke" supported))))

module _ (M : ServeMux Endpoint Response) where
  -- A handler was made of the agency and the issuer. It answers the well-known path with 200 and the
  -- metadata, as JSON, which announces the issuer and four addresses: each is the issuer's URL before
  -- the path of an OAuth endpoint of the agency, which is answered with 503. The test of health is
  -- answered with 200.
  pub record IsConsistent (agency issuer : String) (h : Handler M) : Type 0 where
    pub made : new_handler M agency issuer ≡ some h
    pub meta : serve_http M h (path_of agency Endpoint.meta) ≡ record {
      status = 200;
      content_type = some "application/json";
      body =
          announcing
            (issuer <> "/" <> agency)
            (issuer <> path_of agency Endpoint.authorize)
            (issuer <> path_of agency Endpoint.token)
            (issuer <> path_of agency Endpoint.introspect)
            (issuer <> path_of agency Endpoint.revoke);
    }
    pub authorize : (serve_http M h (path_of agency Endpoint.authorize)).status ≡ 503
    pub token : (serve_http M h (path_of agency Endpoint.token)).status ≡ 503
    pub introspect : (serve_http M h (path_of agency Endpoint.introspect)).status ≡ 503
    pub revoke : (serve_http M h (path_of agency Endpoint.revoke)).status ≡ 503
    pub health : (serve_http M h "/healthz").status ≡ 200

  abbrev handler : M.Table → (agency issuer : String) → Handler M
  handler t agency issuer = record { mux = t; agency_id = agency; issuer_url = issuer }

  -- The handler that `New` makes serves each endpoint under its path.
  new_handler-serves :
      IsServeMux M
      → (agency issuer : String) → is_segment (codes agency) ≡ true
      → (t : M.Table) × (new_handler M agency issuer ≡ some (handler t agency issuer))
        × ((e : Endpoint)
            → serve_http M (handler t agency issuer) (path_of agency e)
              ≡ handle_endpoint M (handler t agency issuer) e)
  unfolding new_handler serve_http
  new_handler-serves D agency issuer plain =
      let (t, made, routes) =
        D.handle_all-first_match (patterns agency) (patterns-is_literal agency plain)
          (patterns-distinct agency) in
      (
        t,
        rw (new_handler, made) refl,
        λ e.
            rw
              (
                serve_http,
                routes (path_of agency e) (path_of-is_literal agency e plain),
                first_match-path_of agency e,
              )
              refl,
      )

  -- Where ServeMux is as documented and the agency's id is one segment of letters, digits, `-` and
  -- `_`, New makes a handler, which answers the well-known path with 200 and the metadata; the
  -- metadata announces the issuer and four addresses, which are the issuer's URL before the paths of
  -- the four OAuth endpoints; each of the four is answered with 503, and the test of health with 200.
  pub serve_http-IsConsistent :
      IsServeMux M
      → (agency issuer : String) → is_segment (codes agency) ≡ true
      → (h : Handler M) × IsConsistent agency issuer h
  serve_http-IsConsistent D agency issuer plain =
      let (t, made, served) = new_handler-serves D agency issuer plain in
      let h : Handler M = handler t agency issuer in
      (
        h,
        record {
          made = made;
          meta =
              served Endpoint.meta
              ∙ ap
                  (λ (b : String). record {
                    status = 200;
                    content_type = some "application/json";
                    body = b;
                  })
                  (metadata-announcing M h);
          authorize = rw (served Endpoint.authorize) refl;
          token = rw (served Endpoint.token) refl;
          introspect = rw (served Endpoint.introspect) refl;
          revoke = rw (served Endpoint.revoke) refl;
          health = rw (served Endpoint.health) refl;
        },
      )
