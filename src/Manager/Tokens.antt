-- ===== src/Manager/Tokens.antt =====
-- token_ops.go: the two stubs, introspection, revocation, and the audit list.
use code_vald_org.Prelude.{
  ℕ, String, ◌==◌, false, true, List, [], ◌∷◌, map, ltb, nat_eq, if◌then◌else◌,
}
use code_vald_org.Errors.{sentinel, temporarily_unavailable}
use code_vald_org.Graph.{str, Entity}
use code_vald_org.Effects.{Env, Result, ok, err, Action, pure, fail, lift, attempt, ◌>>=◌, ◌>>◌}
use code_vald_org.Models.{AuditEvent, TokenResult, IntrospectResult, ManagerConfig}
use code_vald_org.Models.Requests.{AuthorizeRequest, TokenRequest, AuditEventFilter}
use code_vald_org.Helpers.{prop_str, prop_time, entity_to_audit_event}
use code_vald_org.Crypto.{hash_sha256}
use code_vald_org.Manager.Calls.{or_unavailable, set_unless_empty, query, draft, now_text}

-- `IntrospectResult{Active: false}`
abbrev pub inactive : IntrospectResult
inactive = record {
  active = false;
  scopes = [];
  sub = "";
  client_id = "";
  exp = 0;
  iat = 0;
  token_type = "";
}

abbrev pub bearer : (exp iat : ℕ) → IntrospectResult
bearer exp iat = record inactive { active = true; exp = exp; iat = iat; token_type = "Bearer" }

module _ (E : Env) (cfg : ManagerConfig) where
  unfoldable pub authorize : AuthorizeRequest → Action E.World (String × String)
  authorize req = fail (sentinel temporarily_unavailable)

  unfoldable pub token : TokenRequest → Action E.World TokenResult
  token req = fail (sentinel temporarily_unavailable)

  -- The test of the expiry, which asks the clock only for a token that has one.
  unfoldable pub introspect_found : Entity → Action E.World IntrospectResult
  introspect_found t =
      let expires_at = prop_time E t.properties "expires_at" in
      let live = bearer expires_at (prop_time E t.properties "created_at") in
      if nat_eq expires_at 0
      then pure live
      else do at ← lift E.now; pure (if ltb expires_at at then inactive else live)

  unfoldable pub introspect_listed : Result (List Entity) → Action E.World IntrospectResult
  introspect_listed (err e) = pure inactive
  introspect_listed (ok []) = pure inactive
  introspect_listed (ok (t ∷ ts)) = introspect_found t

  unfoldable pub introspect_unless :
      (token_hash : String) → Result (List Entity) → Action E.World IntrospectResult
  introspect_unless token_hash (err e) = pure inactive
  introspect_unless token_hash (ok (revocation ∷ more)) = pure inactive
  introspect_unless token_hash (ok []) = do
    tokens ←
        attempt (E.list_entities (query cfg "AccessToken" (("token_hash", str token_hash) ∷ [])))
    introspect_listed tokens

  unfoldable pub introspect : String → Action E.World IntrospectResult
  introspect token_text = do
    let token_hash = hash_sha256 E token_text
    revocations ←
        attempt
          (E.list_entities (query cfg "TokenRevocation" (("token_hash", str token_hash) ∷ [])))
    introspect_unless token_hash revocations

  -- One round of the loop: the expiry of `tokens[0]`, or the rounds that follow.
  unfoldable pub expiry_or : Result (List Entity) → Action E.World String → Action E.World String
  expiry_or (err e) rest = rest
  expiry_or (ok []) rest = rest
  expiry_or (ok (t ∷ ts)) rest = pure (prop_str t.properties "expires_at")

  -- The loop over the token types, which ends at the first that has the token.
  unfoldable pub find_expiry : (token_hash : String) → List String → Action E.World String
  find_expiry token_hash [] = pure ""
  find_expiry token_hash (type_id ∷ type_ids) = do
    tokens ← attempt (E.list_entities (query cfg type_id (("token_hash", str token_hash) ∷ [])))
    expiry_or tokens (find_expiry token_hash type_ids)

  unfoldable pub revoke : (token_text reason : String) → Action E.World (Unit {0})
  revoke token_text reason = do
    let token_hash = hash_sha256 E token_text
    now ← now_text E
    found ← find_expiry token_hash ("AccessToken" ∷ "RefreshToken" ∷ [])
    let expires_at = if found == "" then now else found
    let why = if reason == "" then "user_logout" else reason
    or_unavailable (
        E.create_entity (
          draft cfg "TokenRevocation" (
            ("agency_id", str cfg.agency_id)
            ∷ ("token_hash", str token_hash)
            ∷ ("revoked_at", str now)
            ∷ ("expires_at", str expires_at)
            ∷ ("reason", str why)
            ∷ [])))
    pure tt

  unfoldable pub list_audit_events : AuditEventFilter → Action E.World (List AuditEvent)
  list_audit_events filter = do
    let props = set_unless_empty "subject_id" filter.subject_id_filter (
        set_unless_empty "actor_id" filter.actor_id_filter
          (set_unless_empty "event_type" filter.event_type_filter []))
    entities ← or_unavailable (E.list_entities (query cfg "AuditEvent" props))
    pure (map (entity_to_audit_event E) entities)
