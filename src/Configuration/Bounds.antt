-- ===== src/Configuration/Bounds.antt =====
-- config.Load: what a configuration that it returns satisfies, and when it ends the process.
use Prim.Native.Char.{Char}
use code_vald_org.Prelude.{
  ℕ, ◌^◌, ◌≤◌, ◌<◌, String, ◌==◌, ◌≡◌, ◌≢◌, refl, sym, subst, ◌↔◌, Bool, true, false, Option, none,
  some, List, [], ◌∷◌, map, keep, ltb, arith, Bool-cases, Option-cases, inl, inr, if◌then◌else◌,
}
use mathlib.Core.List.{cons-ne-nil}
use code_vald_org.Prelude.Int.{is_nonpositive}
use code_vald_org.Graph.State.{Occurs}
use code_vald_org.Graph.Occurs.{occurs_keep}
use code_vald_org.Configuration.{
  Environ, getenv, ServerUtil, Config, Outcome, loaded, exited, parse_uint32, parse_uint8,
  configuration, missing, checked, load, required_keys, unless_missing,
}
use code_vald_org.Configuration.Scan.{
  number_after, skip_space, sscan_uint32, number, in_uint32, digits_value,
}
use code_vald_org.Configuration.Text.{onto_first, split, trim_space}
use code_vald_org.Manager.Scopes.Grammar.{codes}

-- The order of an iteration over the map takes each required key, and no other.
abbrev pub IsOrder : List String → Type 0
IsOrder order = (k : String) → Occurs k order ↔ Occurs k required_keys

-- What the rest of the service may rely on.
pub record IsUsable (cfg : Config) : Type 0 where
  pub agency_id : cfg.agency_id ≢ ""
  pub arango_endpoints : cfg.arango_endpoints ≢ []
  pub arango_user : cfg.arango_user ≢ ""
  pub arango_password : cfg.arango_password ≢ ""
  pub cross_endpoint : cfg.cross_endpoint ≢ ""
  pub issuer_url : cfg.issuer_url ≢ ""
  pub argon2_time : (1 ≤ cfg.argon2_time) × (cfg.argon2_time < 2 ^ 32)
  pub argon2_memory_kib : (8192 ≤ cfg.argon2_memory_kib) × (cfg.argon2_memory_kib < 2 ^ 32)
  pub argon2_threads : (1 ≤ cfg.argon2_threads) × (cfg.argon2_threads < 2 ^ 8)
  pub access_token_ttl : is_nonpositive cfg.access_token_ttl ≡ false
  pub refresh_token_ttl : is_nonpositive cfg.refresh_token_ttl ≡ false
  pub auth_code_ttl : is_nonpositive cfg.auth_code_ttl ≡ false

in_uint32_bound : (n m : ℕ) → in_uint32 n ≡ some m → m < 2 ^ 32
in_uint32_bound n m h = ground arith

number_bound : (cs : List ℕ) (m : ℕ) → number cs ≡ some m → m < 2 ^ 32
unfolding number
number_bound [] m h = cc
number_bound (c ∷ cs) m h = ground (arith, in_uint32_bound (digits_value 0 (c ∷ cs)) m)

scanned_bound : (o : Option (List ℕ)) (m : ℕ) → number_after o ≡ some m → m < 2 ^ 32
scanned_bound none m h = cc
scanned_bound (some rest) m h = number_bound rest m h

sscan_uint32_bound : (cs : List ℕ) (m : ℕ) → sscan_uint32 cs ≡ some m → m < 2 ^ 32
unfolding sscan_uint32
sscan_uint32_bound cs m h = scanned_bound (skip_space cs) m h

pub parse_uint32_bound :
    (env : Environ) (key : String) (def : ℕ) → def < 2 ^ 32 → parse_uint32 env key def < 2 ^ 32
unfolding parse_uint32
parse_uint32_bound env key def d = elim (Bool-cases (getenv env key == "")) [
  | inl unset ↦ rw unset d
  | inr is_set ↦ rw is_set (elim (Option-cases (sscan_uint32 (codes (getenv env key)))) [
    | inl failed ↦ rw failed d
    | inr (n, e) ↦ rw e (sscan_uint32_bound (codes (getenv env key)) n e)
  ])
]

passed :
    (refused : Bool) (status : ℕ) (text : String) (next : Outcome) (out : Config)
    → (if refused then exited status text else next) ≡ loaded out
    → (refused ≡ false) × (next ≡ loaded out)
passed true status text next out h = cc
passed false status text next out h = (refl, h)

loaded_injective : (a b : Config) → loaded a ≡ loaded b → a ≡ b
loaded_injective a b h = cc

-- The tests of the second pass hold of a configuration that is loaded.
checked_usable :
    (cfg out : Config)
    → checked cfg ≡ loaded out
    → (cfg ≡ out)
      × (ltb cfg.argon2_time 1 ≡ false)
      × (ltb cfg.argon2_memory_kib 8192 ≡ false)
      × (ltb cfg.argon2_threads 1 ≡ false)
      × (is_nonpositive cfg.access_token_ttl ≡ false)
      × (is_nonpositive cfg.refresh_token_ttl ≡ false)
      × (is_nonpositive cfg.auth_code_ttl ≡ false)
unfolding checked
checked_usable cfg out h =
    let (time, h1) = passed (ltb cfg.argon2_time 1) _ _ _ out h in
    let (memory, h2) = passed (ltb cfg.argon2_memory_kib 8192) _ _ _ out h1 in
    let (threads, h3) = passed (ltb cfg.argon2_threads 1) _ _ _ out h2 in
    let (access, h4) = passed (is_nonpositive cfg.access_token_ttl) _ _ _ out h3 in
    let (refresh, h5) = passed (is_nonpositive cfg.refresh_token_ttl) _ _ _ out h4 in
    let (auth, h6) = passed (is_nonpositive cfg.auth_code_ttl) _ _ _ out h5 in
    (loaded_injective cfg out h6, time, memory, threads, access, refresh, auth)

loaded_checked :
    (ks : List String) (next : Outcome) (out : Config)
    → unless_missing ks next ≡ loaded out
    → (ks ≡ []) × (next ≡ loaded out)
loaded_checked [] next out h = (refl, h)
loaded_checked (k ∷ ks) next out h = cc

-- A list that `keep` leaves empty has no element that passes.
pub none_kept :
    {A : Type 0} (p : A → Bool) (xs : List A) (a : A) → keep p xs ≡ [] → Occurs a xs → p a ≡ false
none_kept p xs a e o = elim (Bool-cases (p a)) [
  | inl yes_ ↦
      let k : Occurs a (keep p xs) = occurs_keep p a xs o yes_ in absurd (subst (Occurs a) e k)
  | inr no_ ↦ no_
]

pub nonempty : (s : String) → (s == "") ≡ false → s ≢ ""
nonempty s h e = let t : (s == "") ≡ true = rw e refl in cc

onto_first-ne-nil : (c : Char) (parts : List String) → onto_first c parts ≢ []
onto_first-ne-nil c [] e = cc
onto_first-ne-nil c (part ∷ parts) e = cc

if-ne-nil : (b : Bool) (x y : List String) → x ≢ [] → y ≢ [] → (if b then x else y) ≢ []
if-ne-nil true x y p q = p
if-ne-nil false x y p q = q

-- `strings.Split` returns a part at least.
split-ne-nil : (sep : ℕ) (s : String) → split sep s ≢ []
unfolding split
split-ne-nil sep String.[] = cons-ne-nil "" []
split-ne-nil sep (String.◌∷◌ c s) =
    if-ne-nil _ _ _ (cons-ne-nil "" _) (onto_first-ne-nil c (split sep s))

map-ne-nil : (f : String → String) (xs : List String) → xs ≢ [] → map f xs ≢ []
map-ne-nil f [] n = n
map-ne-nil f (x ∷ xs) n = cons-ne-nil (f x) (map f xs)

parse_uint8_bound : (env : Environ) (key : String) (def : ℕ) → parse_uint8 env key def < 2 ^ 8
unfolding parse_uint8
parse_uint8_bound env key def = omega arith

module _ (S : ServerUtil) (order : List String) (env : Environ) where
  -- If the iteration over the map takes the required keys and no others, a configuration that `Load`
  -- returns is the one read from the environment, and is usable: the required texts are not empty,
  -- there is an endpoint, Argon2's time, memory and threads are at least 1, 8192 and 1 and fit 32,
  -- 32 and 8 bits, and the three lifetimes are positive.
  pub load-IsUsable :
      (cfg : Config)
      → IsOrder order
      → load S order env ≡ loaded cfg
      → (cfg ≡ configuration S env) × IsUsable cfg
  unfolding load
  load-IsUsable cfg o h =
      let (none_missing, c) = loaded_checked (missing env order) _ cfg h in
      let (same, time, memory, threads, access, refresh, auth) =
        checked_usable (configuration S env) cfg c in
      let set : (k : String) → Occurs k required_keys → getenv env k ≢ "" =
        λ k r. nonempty (getenv env k) (none_kept _ order k none_missing ((o k).1 r)) in
      (
        sym same,
        subst IsUsable same (record {
          agency_id = set "AGENCY_ID" (inl refl);
          arango_endpoints = map-ne-nil trim_space _ (split-ne-nil b',' _);
          arango_user = set "ARANGO_USER" (inr (inr (inl refl)));
          arango_password = set "ARANGO_PASSWORD" (inr (inr (inr (inl refl))));
          cross_endpoint = set "CROSS_ENDPOINT" (inr (inr (inr (inr (inl refl)))));
          issuer_url = set "ORG_ISSUER_URL" (inr (inr (inr (inr (inr (inl refl))))));
          argon2_time = (ground arith, parse_uint32_bound env "ORG_ARGON2_TIME" 3 (omega arith));
          argon2_memory_kib =
              (ground arith, parse_uint32_bound env "ORG_ARGON2_MEMORY_KIB" 65536 (omega arith));
          argon2_threads = (ground arith, parse_uint8_bound env "ORG_ARGON2_THREADS" 4);
          access_token_ttl = access;
          refresh_token_ttl = refresh;
          auth_code_ttl = auth;
        }),
      )
