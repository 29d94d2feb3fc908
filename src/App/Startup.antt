-- ===== src/App/Startup.antt =====
-- app.Run after config.Load: a configuration that was loaded starts the service.
use code_vald_org.Prelude.{
  String, ◌<>◌, ◌==◌, ◌≡◌, ◌≢◌, refl, ◌∙◌, ap, sym, subst, Option, some, ◌⊎◌, inl, inr, true, false,
  List, [], ◌∷◌, ◌++◌, Bool-cases, eq_iff,
}
use code_vald_org.Manager.Scopes.Grammar.{codes}
use code_vald_org.Configuration.{Environ, getenv, ServerUtil, Config, loaded, configuration, load}
use code_vald_org.Configuration.Numbers.{codes-append}
use code_vald_org.Configuration.Bounds.{IsOrder, nonempty, load-IsUsable}
use code_vald_org.ServeMux.{IsServeMux, is_segment}
use code_vald_org.HttpHandler.{Handler, new_handler}
use code_vald_org.HttpHandler.Endpoints.{serve_http-IsConsistent}
use code_vald_org.Storage.{Fallible, value, error, new_backend, to_shared_config}
use code_vald_org.App.{
  Runtime, Ending, finished, panicked, failed, conn_config, announce, register, on_listener,
  on_backend, run_at, run,
}

-- `EnvOrDefault` returns the variable where it is set and not empty, and the default otherwise.
pub record IsDocumented (S : ServerUtil) : Type 0 where
  pub env_or_default-set :
      (env : Environ) (key def : String)
      → getenv env key ≢ ""
      → S.env_or_default env key def ≡ getenv env key
  pub env_or_default-unset :
      (env : Environ) (key def : String) → getenv env key ≡ "" → S.env_or_default env key def ≡ def

prefixed_nonempty : (s : String) → "agency-" <> s ≢ ""
prefixed_nonempty s e =
    let t : codes "agency-" ++ codes s ≡ [] = sym (codes-append "agency-" s) ∙ ap codes e in cc

module _ (S : ServerUtil) (D : IsDocumented S) (env : Environ) where
  database_named : (configuration S env).arango_db_name ≢ ""
  database_named e = elim (Bool-cases (getenv env "ARANGO_DB_NAME" == "")) [
    | inl unset ↦
        prefixed_nonempty (getenv env "AGENCY_ID")
          (sym (D.env_or_default-unset env "ARANGO_DB_NAME" _ ((eq_iff _ _).0 unset)) ∙ e)
    | inr set ↦
        let other_ : getenv env "ARANGO_DB_NAME" ≢ "" = nonempty _ set in
        other_ (sym (D.env_or_default-set env "ARANGO_DB_NAME" _ other_) ∙ e)
  ]

is_empty_false : (s : String) → s ≢ "" → (s == "") ≡ false
is_empty_false s n = elim (Bool-cases (s == "")) [
  | inl empty ↦ absurd (n ((eq_iff s "").0 empty))
  | inr other_ ↦ other_
]

module _ (R : Runtime) (cfg : Config) where
  -- Why a start failed: the shared library could not open the database, or the address could not be
  -- listened on.
  abbrev pub Reason : String → Type 0
  Reason text =
      ((endpoint : String) × (w : R.World) × (e : String) × ((R.arango.shared_new_backend
            (to_shared_config (conn_config endpoint cfg)) w).0
          ≡ error e)
        × (text ≡ "ArangoDB backend: " <> e))
      ⊎ ((w : R.World) × (e : String) × ((R.listen cfg.bind_addr w).0 ≡ error e)
          × (text ≡ "failed to listen on " <> cfg.bind_addr <> ": " <> e))

  -- How a start ends: it does not panic, and fails for a reason.
  abbrev pub Explained : Ending → Type 0
  Explained finished = Unit
  Explained panicked = ⊥
  Explained (failed text) = Reason text

  on_listener-Explained :
      (backend : R.arango.Backend) (registrar : Option R.Registrar) (handler : Handler R.mux)
      (w : R.World) (listener : Fallible R.Listener) (v : R.World)
      → (R.listen cfg.bind_addr w).0 ≡ listener
      → Explained (on_listener R cfg backend registrar handler listener v).0
  on_listener-Explained backend registrar handler w (value listener) v e = tt
  on_listener-Explained backend registrar handler w (error text) v e = inr (w, text, e, refl)

  on_backend-Explained :
      (endpoint : String) (w : R.World) (backend : Fallible R.arango.Backend) (v : R.World)
      → (h : Handler R.mux) × (new_handler R.mux cfg.agency_id cfg.issuer_url ≡ some h)
      → (R.arango.shared_new_backend (to_shared_config (conn_config endpoint cfg)) w).0 ≡ backend
      → Explained (on_backend R cfg backend v).0
  unfolding on_backend
  on_backend-Explained endpoint w (value backend) v made e =
      rw made.1 (on_listener-Explained backend _ made.0 _ (R.listen cfg.bind_addr _).0 _ refl)
  on_backend-Explained endpoint w (error text) v made e = inl (endpoint, w, text, e, refl)

  run_at-Explained :
      (endpoints : List String) (w : R.World)
      → endpoints ≢ []
      → cfg.arango_db_name ≢ ""
      → (h : Handler R.mux) × (new_handler R.mux cfg.agency_id cfg.issuer_url ≡ some h)
      → Explained (run_at R cfg endpoints w).0
  unfolding new_backend
  run_at-Explained [] w n d made = n refl
  run_at-Explained (endpoint ∷ more) w n d made =
      rw (is_empty_false cfg.arango_db_name d) (on_backend-Explained endpoint w _ _ made refl)

  -- For a configuration that `Load` returned (the iteration over the map takes the required keys and
  -- no others, and EnvOrDefault and ServeMux are as documented), whose agency id is one segment of
  -- letters, digits, `-` and `_`, Run does not panic, and fails only because the shared library could
  -- not open the database or the address could not be listened on, with a text that says which; and
  -- the step of Run that registers with Cross asks for a registrar, which may fail: the branch for an
  -- empty CROSS_ENDPOINT is not taken.
  pub run-load :
      (S : ServerUtil) (order : List String) (env : Environ)
      → IsDocumented S
      → IsServeMux R.mux
      → is_segment (codes cfg.agency_id) ≡ true
      → IsOrder order
      → load S order env ≡ loaded cfg
      → ((w : R.World) → Explained (run R cfg w).0)
        × ((w : R.World) → register R cfg w ≡ announce R cfg w)
  unfolding run register
  run-load S order env D mux plain o h =
      let (same, usable) = load-IsUsable S order env cfg o h in
      (
        λ w.
            run_at-Explained cfg.arango_endpoints w usable.arango_endpoints
              (subst (λ (c : Config). c.arango_db_name ≢ "") (sym same) (database_named S D env))
              (let c = serve_http-IsConsistent R.mux mux cfg.agency_id cfg.issuer_url plain in
                (c.0, c.1.made)),
        λ w. rw (is_empty_false cfg.cross_endpoint usable.cross_endpoint) refl,
      )
