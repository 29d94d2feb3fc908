-- ===== src/Tests/Configured.antt =====
-- The configuration at concrete inputs.
use code_vald_org.Prelude.{
  String, ◌==◌, ◌≡◌, refl, ◌↔◌, none, some, [], ◌∷◌, arith, inl, if◌then◌else◌,
}
use code_vald_org.Graph.State.{Occurs}
use code_vald_org.Manager.Scopes.Grammar.{codes}
use code_vald_org.Crypto.{decimal, decimal_from}
use code_vald_org.Configuration.{
  Environ, getenv, ServerUtil, loaded, exited, parse_uint32, parse_uint8, configuration, checked,
  load, required_keys,
}
use code_vald_org.Configuration.Scan.{is_space, skip_space, digits_value, number, sscan_uint32}
use code_vald_org.Configuration.Text.{split, trim_left, trim_right, trim_space}
use code_vald_org.Configuration.Bounds.{IsOrder, IsUsable, load-IsUsable}
use code_vald_org.Configuration.Exit.{load-exited}
use code_vald_org.Configuration.Numbers.{parse_uint32-decimal}
use code_vald_org.Configuration.Dev.{dev_environ, dev_environ-exited}

trimmed_run : trim_space "  a b " ≡ "a b"
unfolding trim_left trim_right is_space
trimmed_run = refl

split_run : split b',' "a,,b" ≡ "a" ∷ "" ∷ "b" ∷ []
unfolding split
split_run = refl

-- What follows the digits is not read.
trailing_run : sscan_uint32 (codes " 12abc") ≡ some 12
unfolding sscan_uint32 skip_space is_space number digits_value
trailing_run = refl

too_large_run : sscan_uint32 (codes "4294967296") ≡ none
unfolding sscan_uint32 skip_space is_space number digits_value
too_large_run = refl

abbrev pub server_util : ServerUtil
server_util = record {
  env_or_default = λ env key def. if getenv env key == "" then def else getenv env key;
  parse_duration_string = λ env key def. def;
}

abbrev pub environ : Environ
environ key =
    if key == "AGENCY_ID"
    then some "a1"
    else if key == "ARANGO_ENDPOINTS"
    then some "http://a:8529, http://b:8529"
    else if key == "ARANGO_USER"
    then some "root"
    else if key == "ARANGO_PASSWORD"
    then some "secret"
    else if key == "CROSS_ENDPOINT"
    then some "cross:9090"
    else if key == "ORG_ISSUER_URL"
    then some "https://org"
    else if key == "ORG_ARGON2_THREADS"
    then some "257"
    else none

abbrev nothing : Environ
nothing key = none

-- A number of threads above 255 is cut to eight bits.
threads_run : parse_uint8 environ "ORG_ARGON2_THREADS" 4 ≡ 1
unfolding parse_uint8 parse_uint32 sscan_uint32 skip_space is_space number digits_value
threads_run = refl

pub loaded_run : load server_util required_keys environ ≡ loaded (configuration server_util environ)
unfolding load checked parse_uint8 parse_uint32 sscan_uint32 skip_space is_space number digits_value
loaded_run = refl

pub required_keys-IsOrder : IsOrder required_keys
required_keys-IsOrder k = (λ o. o, λ o. o)

load-IsUsable_example :
    (configuration server_util environ ≡ configuration server_util environ)
    × IsUsable (configuration server_util environ)
load-IsUsable_example =
    load-IsUsable server_util required_keys environ (configuration server_util environ)
      required_keys-IsOrder loaded_run

load-exited_example :
    ((text : String) × (load server_util required_keys nothing ≡ exited 2 text))
    ↔ ((k : String) × Occurs k required_keys × (getenv nothing k ≡ ""))
load-exited_example = load-exited server_util required_keys nothing required_keys-IsOrder

abbrev with_time : Environ
with_time key = if key == "ORG_ARGON2_TIME" then some "12" else none

twelve : getenv with_time "ORG_ARGON2_TIME" ≡ decimal 12
unfolding decimal_from
twelve = refl

parse_uint32-decimal_example : parse_uint32 with_time "ORG_ARGON2_TIME" 3 ≡ 12
parse_uint32-decimal_example =
    parse_uint32-decimal with_time "ORG_ARGON2_TIME" 3 12 (omega arith) twelve

dev_environ-exited_example :
    (text : String) × (load server_util required_keys (dev_environ nothing) ≡ exited 2 text)
dev_environ-exited_example =
    dev_environ-exited server_util required_keys nothing required_keys-IsOrder (inl refl)
