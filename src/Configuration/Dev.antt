-- ===== src/Configuration/Dev.antt =====
-- cmd/dev/main.go: the defaults that the development binary sets before it loads the configuration.
use code_vald_org.Prelude.{
  String, ◌==◌, ◌≡◌, refl, ◌∙◌, ap, true, false, Option, none, some, List, [], ◌∷◌, ◌++◌, any,
  arith, eq_refl, ◌⊎◌, inl, inr, if◌then◌else◌,
}
use code_vald_org.Configuration.{Environ, or_empty, ServerUtil, exited, load}
use code_vald_org.Configuration.Bounds.{IsOrder}
use code_vald_org.Configuration.Exit.{load-exited}

-- `os.Setenv`
abbrev pub setenv : Environ → String → String → Environ
setenv env key val = λ k. if k == key then some val else env k

abbrev if_unset : Option String → Environ → Environ → Environ
if_unset none changed old = changed
if_unset (some v) changed old = old

unfoldable pub set_default : String → String → Environ → Environ
set_default key val env = if_unset (env key) (setenv env key val) env

abbrev pub defaults : List (String × String)
defaults =
    ("BIND_ADDR", ":9090")
    ∷ ("ARANGO_ENDPOINTS", "http://localhost:8529")
    ∷ ("ARANGO_USER", "root")
    ∷ ("ARANGO_PASSWORD", "")
    ∷ ("AGENCY_ID", "dev-agency")
    ∷ ("ARANGO_DB_NAME", "agency-dev-agency")
    ∷ ("CROSS_ENDPOINT", "")
    ∷ ("ORG_ISSUER_URL", "http://localhost:9090")
    ∷ []

-- One call of `setDefault` after another.
unfoldable pub set_defaults : List (String × String) → Environ → Environ
unfolding set_default
set_defaults [] env = env
set_defaults ((key, val) ∷ more) env = set_defaults more (set_default key val env)

-- The environment in which `config.Load` runs.
abbrev pub dev_environ : Environ → Environ
dev_environ env = set_defaults defaults env

if_unset-at :
    (o : Option String) (changed env : Environ) (k : String)
    → changed k ≡ env k
    → if_unset o changed env k ≡ env k
if_unset-at none changed env k e = e
if_unset-at (some v) changed env k e = refl

-- A default touches no other variable.
set_default-other :
    (key val k : String) (env : Environ) → (k == key) ≡ false → set_default key val env k ≡ env k
unfolding set_default
set_default-other key val k env other =
    if_unset-at (env key) (setenv env key val) env k (rw other refl)

set_default-unset :
    (key val : String) (env : Environ)
    → env key ≡ none
    → (key == key) ≡ true
    → set_default key val env key ≡ some val
unfolding set_default
set_default-unset key val env unset same = rw (unset, same) refl

set_defaults-other :
    (ds : List (String × String)) (k : String) (env : Environ)
    → any (λ d. k == d.0) ds ≡ false
    → set_defaults ds env k ≡ env k
unfolding set_defaults
set_defaults-other [] k env other = refl
set_defaults-other ((key, val) ∷ ds) k env other =
    set_defaults-other ds k (set_default key val env) (ground arith)
    ∙ set_default-other key val k env (ground arith)

-- A variable that is not set has its default afterwards.
pub set_defaults-unset :
    (before after : List (String × String)) (key val : String) (env : Environ)
    → any (λ d. key == d.0) before ≡ false
    → any (λ d. key == d.0) after ≡ false
    → env key ≡ none
    → set_defaults (before ++ ((key, val) ∷ after)) env key ≡ some val
unfolding set_defaults
set_defaults-unset [] after key val env b a unset =
    set_defaults-other after key (set_default key val env) a
    ∙ set_default-unset key val env unset (eq_refl key)
set_defaults-unset ((k, v) ∷ before) after key val env b a unset =
    set_defaults-unset before after key val (set_default k v env) (ground arith) a
      (set_default-other k v key env (ground arith) ∙ unset)

cross_endpoint_unset :
    (env : Environ) → env "CROSS_ENDPOINT" ≡ none → dev_environ env "CROSS_ENDPOINT" ≡ some ""
cross_endpoint_unset env unset =
    set_defaults-unset
      (("BIND_ADDR", ":9090")
        ∷ ("ARANGO_ENDPOINTS", "http://localhost:8529")
        ∷ ("ARANGO_USER", "root")
        ∷ ("ARANGO_PASSWORD", "")
        ∷ ("AGENCY_ID", "dev-agency")
        ∷ ("ARANGO_DB_NAME", "agency-dev-agency")
        ∷ [])
      (("ORG_ISSUER_URL", "http://localhost:9090") ∷ []) "CROSS_ENDPOINT" "" env refl refl unset

arango_password_unset :
    (env : Environ) → env "ARANGO_PASSWORD" ≡ none → dev_environ env "ARANGO_PASSWORD" ≡ some ""
arango_password_unset env unset =
    set_defaults-unset
      (("BIND_ADDR", ":9090")
        ∷ ("ARANGO_ENDPOINTS", "http://localhost:8529")
        ∷ ("ARANGO_USER", "root")
        ∷ [])
      (("AGENCY_ID", "dev-agency")
        ∷ ("ARANGO_DB_NAME", "agency-dev-agency")
        ∷ ("CROSS_ENDPOINT", "")
        ∷ ("ORG_ISSUER_URL", "http://localhost:9090")
        ∷ [])
      "ARANGO_PASSWORD" "" env refl refl unset

-- Where CROSS_ENDPOINT or ARANGO_PASSWORD is not set, the development binary ends with status 2 when
-- it loads the configuration, since its own default for the variable is empty. The iteration over
-- the map takes the required keys and no others.
pub dev_environ-exited :
    (S : ServerUtil) (order : List String) (env : Environ)
    → IsOrder order
    → (env "CROSS_ENDPOINT" ≡ none) ⊎ (env "ARANGO_PASSWORD" ≡ none)
    → (text : String) × (load S order (dev_environ env) ≡ exited 2 text)
dev_environ-exited S order env o unset = (load-exited S order (dev_environ env) o).1 (elim unset [
  | inl cross ↦ (
    "CROSS_ENDPOINT",
    inr (inr (inr (inr (inl refl)))),
    ap or_empty (cross_endpoint_unset env cross),
  )
  | inr password ↦ (
    "ARANGO_PASSWORD",
    inr (inr (inr (inl refl))),
    ap or_empty (arango_password_unset env password),
  )
])
