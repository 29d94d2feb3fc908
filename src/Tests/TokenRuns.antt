-- ===== src/Tests/TokenRuns.antt =====
-- The theorems on tokens and invitations, at concrete inputs.
use code_vald_org.Prelude.{◌==◌, ◌≡◌, refl, true, false, ◌⊎◌, any, ltb}
use code_vald_org.Graph.{Entity}
use code_vald_org.Graph.State.{Occurs, selects, amended}
use code_vald_org.Effects.{ok}
use code_vald_org.Models.{IntrospectResult, User}
use code_vald_org.Helpers.{entity_to_user, entity_to_invitation, prop_time}
use code_vald_org.Crypto.{hash_sha256, decimal_from}
use code_vald_org.Store.Memory.{memory, graph_of, memory-IsLawful, find_named, store_entity}
use code_vald_org.Manager.Calls.{manager_calls}
use code_vald_org.Manager.Tokens.{
  bearer, inactive, introspect, introspect_unless, introspect_listed, introspect_found, revoke,
  find_expiry, expiry_or,
}
use code_vald_org.Manager.Invitations.{accept_invitation}
use code_vald_org.Behaviour.Tokens.{
  introspect-active, introspect-total, revocations, tokens, at_expiry_test,
}
use code_vald_org.Behaviour.Revocation.{revoke-introspect}
use code_vald_org.Behaviour.Invitations.{activation, invitations, Accepts}
use code_vald_org.Behaviour.Acceptance.{accept_invitation-Accepts, read_at}
use code_vald_org.Tests.Data.{cfg, with_token, invited, user}

active_run : (introspect memory cfg "t" with_token).0 ≡ ok (bearer 200 50)
unfolding introspect introspect_unless introspect_listed introspect_found manager_calls hash_sha256
active_run = refl

introspect-active_example :
    (any (selects (revocations memory cfg "t")) with_token.graph.entities ≡ false)
    × (t : Entity) × Occurs t with_token.graph.entities
    × (selects (tokens memory cfg "t") t ≡ true)
    × (200 ≡ prop_time memory t.properties "expires_at")
    × (50 ≡ prop_time memory t.properties "created_at")
    × ((bearer 200 50).token_type ≡ "Bearer")
    × ((prop_time memory t.properties "expires_at" ≡ 0)
        ⊎ (ltb
              (prop_time memory t.properties "expires_at")
              (memory.now (at_expiry_test memory cfg "t" with_token)).0
            ≡ false))
introspect-active_example =
    introspect-active memory graph_of memory-IsLawful cfg "t" with_token (bearer 200 50) active_run
      refl

introspect-total_example :
    ((r : IntrospectResult) × ((introspect memory cfg "t" with_token).0 ≡ ok r))
    × (graph_of (introspect memory cfg "t" with_token).1 ≡ graph_of with_token)
introspect-total_example = introspect-total memory graph_of memory-IsLawful cfg "t" with_token

revoked_run : (revoke memory cfg "t" "" with_token).0 ≡ ok tt
unfolding revoke find_expiry expiry_or manager_calls hash_sha256 store_entity decimal_from
revoked_run = refl

revoke-introspect_example :
    (introspect memory cfg "t" (revoke memory cfg "t" "" with_token).1).0 ≡ ok inactive
revoke-introspect_example =
    revoke-introspect memory graph_of memory-IsLawful cfg "t" "" with_token revoked_run

abbrev accepted_user : User
accepted_user = entity_to_user memory (amended (activation "101") user)

accepted_run : (accept_invitation memory cfg "t" invited).0 ≡ ok accepted_user
unfolding accept_invitation manager_calls hash_sha256 entity_to_invitation find_named decimal_from
accepted_run = refl

accept_invitation-Accepts_example :
    (found : Entity) × Occurs found invited.graph.entities
    × (selects (invitations memory cfg "t") found ≡ true)
    × (((entity_to_invitation memory found).status == "accepted") ≡ false)
    × (((entity_to_invitation memory found).status == "expired") ≡ false)
    × (ltb
          (entity_to_invitation memory found).expires_at
          (read_at memory graph_of memory-IsLawful cfg "t" invited)
        ≡ false)
    × Accepts memory cfg invited.graph
        (graph_of (accept_invitation memory cfg "t" invited).1)
        found
        accepted_user
accept_invitation-Accepts_example =
    accept_invitation-Accepts memory graph_of memory-IsLawful cfg "t" accepted_user invited
      accepted_run
