-- ===== src/Configuration.antt =====
-- internal/config/config.go: the configuration that is read from environment variables. Lines that
-- are logged are left out. `serverutil` of the shared library is the parameter ServerUtil.
pub mod Scan
pub mod Text
pub mod Dev
pub mod Bounds
pub mod Exit
pub mod Numbers
use code_vald_org.Prelude.{
  ℕ, ◌*◌, ◌%◌, ◌^◌, String, ◌<>◌, ◌==◌, Option, none, some, List, [], ◌∷◌, map, keep, ltb,
  if◌then◌else◌,
}
use code_vald_org.Prelude.Int.{ℤ, pos, is_nonpositive}
use code_vald_org.Manager.Scopes.Grammar.{codes}
use Scan.{sscan_uint32}
use Text.{split, trim_space, join}

-- The environment: `os.LookupEnv`.
abbrev pub Environ : Type 0
Environ = String → Option String

abbrev pub or_empty : Option String → String
or_empty none = ""
or_empty (some v) = v

-- `os.Getenv`
abbrev pub getenv : Environ → String → String
getenv env key = or_empty (env key)

-- `EnvOrDefault(key, def)` and `ParseDurationString(key, def)`, which read the environment.
pub record ServerUtil : Type 0 where
  pub env_or_default : Environ → String → String → String
  pub parse_duration_string : Environ → String → ℤ → ℤ

pub record Config : Type 0 where
  pub agency_id : String
  pub arango_endpoints : List String
  pub arango_user : String
  pub arango_password : String
  pub cross_endpoint : String
  pub issuer_url : String
  pub arango_db_name : String
  pub bind_addr : String
  pub metrics_addr : String
  pub access_token_ttl : ℤ
  pub refresh_token_ttl : ℤ
  pub auth_code_ttl : ℤ
  pub client_secret_grace : ℤ
  pub argon2_time : ℕ
  pub argon2_memory_kib : ℕ
  pub argon2_threads : ℕ
  pub registrar_interval : ℤ
  pub ping_timeout : ℤ
  pub log_level : String

unfoldable pub parse_uint32 : Environ → String → ℕ → ℕ
unfolding sscan_uint32
parse_uint32 env key def =
    if getenv env key == ""
    then def
    else elim (sscan_uint32 (codes (getenv env key))) [ none ↦ def | some n ↦ n ]

-- The conversion to `uint8` keeps the low eight bits.
unfoldable pub parse_uint8 : Environ → String → ℕ → ℕ
unfolding parse_uint32
parse_uint8 env key def = parse_uint32 env key def % 2 ^ 8

-- How `Load` ends: with a configuration, or with a status of the process and a text.
pub data Outcome : Type 0 where
  loaded : Config → Outcome
  exited : (status : ℕ) → (text : String) → Outcome

abbrev pub required_keys : List String
required_keys =
    "AGENCY_ID" ∷ "ARANGO_ENDPOINTS" ∷ "ARANGO_USER" ∷ "ARANGO_PASSWORD" ∷ "CROSS_ENDPOINT"
    ∷ "ORG_ISSUER_URL" ∷ []

-- The first pass, over the keys in the order in which the iteration over the map takes them.
abbrev pub missing : Environ → List String → List String
missing env order = keep (λ k. getenv env k == "") order

abbrev pub seconds : ℕ → ℤ
seconds n = pos (n * 1_000_000_000)

abbrev pub configuration : ServerUtil → Environ → Config
configuration S env = record {
  agency_id = getenv env "AGENCY_ID";
  arango_endpoints = map trim_space (split b',' (getenv env "ARANGO_ENDPOINTS"));
  arango_user = getenv env "ARANGO_USER";
  arango_password = getenv env "ARANGO_PASSWORD";
  cross_endpoint = getenv env "CROSS_ENDPOINT";
  issuer_url = getenv env "ORG_ISSUER_URL";
  arango_db_name = S.env_or_default env "ARANGO_DB_NAME" ("agency-" <> getenv env "AGENCY_ID");
  bind_addr = S.env_or_default env "BIND_ADDR" ":9090";
  metrics_addr = S.env_or_default env "METRICS_ADDR" ":9091";
  access_token_ttl = S.parse_duration_string env "ORG_ACCESS_TOKEN_TTL" (seconds 3600);
  refresh_token_ttl = S.parse_duration_string env "ORG_REFRESH_TOKEN_TTL" (seconds (720 * 3600));
  auth_code_ttl = S.parse_duration_string env "ORG_AUTH_CODE_TTL" (seconds 60);
  client_secret_grace = S.parse_duration_string env "ORG_CLIENT_SECRET_GRACE" (seconds 300);
  argon2_time = parse_uint32 env "ORG_ARGON2_TIME" 3;
  argon2_memory_kib = parse_uint32 env "ORG_ARGON2_MEMORY_KIB" 65536;
  argon2_threads = parse_uint8 env "ORG_ARGON2_THREADS" 4;
  registrar_interval = S.parse_duration_string env "ORG_REGISTRAR_INTERVAL" (seconds 20);
  ping_timeout = S.parse_duration_string env "CROSS_PING_TIMEOUT" (seconds 5);
  log_level = S.env_or_default env "LOG_LEVEL" "info";
}

-- The second pass: `log.Fatal` ends the process with status 1.
unfoldable pub checked : Config → Outcome
checked cfg =
    if ltb cfg.argon2_time 1
    then exited 1 "codevaldorg: ORG_ARGON2_TIME must be >= 1"
    else if ltb cfg.argon2_memory_kib 8192
    then exited 1 "codevaldorg: ORG_ARGON2_MEMORY_KIB must be >= 8192"
    else if ltb cfg.argon2_threads 1
    then exited 1 "codevaldorg: ORG_ARGON2_THREADS must be >= 1"
    else if is_nonpositive cfg.access_token_ttl
    then exited 1 "codevaldorg: ORG_ACCESS_TOKEN_TTL must be positive"
    else if is_nonpositive cfg.refresh_token_ttl
    then exited 1 "codevaldorg: ORG_REFRESH_TOKEN_TTL must be positive"
    else if is_nonpositive cfg.auth_code_ttl
    then exited 1 "codevaldorg: ORG_AUTH_CODE_TTL must be positive"
    else loaded cfg

-- The first pass ends the process if a key is missing.
abbrev unless_missing : List String → Outcome → Outcome
unless_missing [] next = next
unless_missing (k ∷ ks) next =
    exited 2 ("codevaldorg: missing required env vars: " <> join (k ∷ ks) ", " <> "\n")

-- `Load`, in an environment, with the order of the map's iteration.
unfoldable pub load : ServerUtil → List String → Environ → Outcome
unfolding checked
load S order env = unless_missing (missing env order) (checked (configuration S env))
