-- ===== src/Configuration/Exit.antt =====
-- config.Load: when it ends the process for a variable that is missing.
use code_vald_org.Prelude.{
  ℕ, String, ◌==◌, ◌≡◌, ◌≢◌, refl, ◌↔◌, Bool, true, false, List, [], ◌∷◌, ltb, arith, eq_iff, inl,
  if◌then◌else◌,
}
use code_vald_org.Prelude.Int.{is_nonpositive}
use code_vald_org.Graph.State.{Occurs}
use code_vald_org.Graph.Occurs.{Occurs-keep}
use code_vald_org.Configuration.{
  Environ, getenv, ServerUtil, Config, Outcome, exited, configuration, missing, checked, load,
  required_keys, unless_missing,
}
use code_vald_org.Configuration.Bounds.{IsOrder, none_kept, nonempty}

missing_exits :
    (ks : List String) (next : Outcome)
    → ks ≢ []
    → (text : String) × (unless_missing ks next ≡ exited 2 text)
missing_exits [] next n = absurd (n refl)
missing_exits (k ∷ ks) next n = (_, refl)

status_injective : (a b : ℕ) (t text : String) → exited a t ≡ exited b text → a ≡ b
status_injective a b t text e = cc

status_apart : {t text : String} → exited 1 t ≢ exited 2 text
status_apart {t} {text} e = omega (arith, status_injective 1 2 t text e)

not_status_2 :
    (refused : Bool) (t text : String) (next : Outcome)
    → (if refused then exited 1 t else next) ≡ exited 2 text
    → next ≡ exited 2 text
not_status_2 true t text next h = absurd (status_apart h)
not_status_2 false t text next h = h

-- The second pass never ends the process with status 2.
checked_status : (cfg : Config) (text : String) → checked cfg ≢ exited 2 text
unfolding checked
checked_status cfg text h =
    let h1 = not_status_2 (ltb cfg.argon2_time 1) _ text _ h in
    let h2 = not_status_2 (ltb cfg.argon2_memory_kib 8192) _ text _ h1 in
    let h3 = not_status_2 (ltb cfg.argon2_threads 1) _ text _ h2 in
    let h4 = not_status_2 (is_nonpositive cfg.access_token_ttl) _ text _ h3 in
    let h5 = not_status_2 (is_nonpositive cfg.refresh_token_ttl) _ text _ h4 in
    let h6 = not_status_2 (is_nonpositive cfg.auth_code_ttl) _ text _ h5 in cc

exited_missing :
    (ks : List String) (cfg : Config) (text : String)
    → unless_missing ks (checked cfg) ≡ exited 2 text
    → (k : String) × Occurs k ks
exited_missing [] cfg text h = absurd (checked_status cfg text h)
exited_missing (k ∷ ks) cfg text h = (k, inl refl)

module _ (S : ServerUtil) (order : List String) (env : Environ) where
  required_missing :
      IsOrder order
      → (k : String) × Occurs k required_keys × (getenv env k ≡ "")
      → missing env order ≢ []
  required_missing o (k, r, e) nil = nonempty (getenv env k) (none_kept _ order k nil ((o k).1 r)) e

  missing_required :
      IsOrder order
      → ((k : String) × Occurs k (missing env order))
      → (k : String) × Occurs k required_keys × (getenv env k ≡ "")
  missing_required o (k, m) =
      let (kept, e) = Occurs-keep (λ k. getenv env k == "") k order m in
      (k, (o k).0 kept, (eq_iff _ _).0 e)

  -- If the iteration over the map takes the required keys and no others, `Load` ends the process
  -- with status 2 exactly if a required variable is empty or not set.
  pub load-exited :
      IsOrder order
      → ((text : String) × (load S order env ≡ exited 2 text))
        ↔ ((k : String) × Occurs k required_keys × (getenv env k ≡ ""))
  unfolding load
  load-exited o = (
    λ h. missing_required o (exited_missing (missing env order) (configuration S env) h.0 h.1),
    λ h. missing_exits (missing env order) _ (required_missing o h),
  )
