-- ===== src/Manager/Invitations.antt =====
-- org_lifecycle.go: inviting a user and accepting the invitation.
use code_vald_org.Prelude.{◌*◌, String, ◌==◌, ◌||◌, List, [], ◌∷◌, ltb, if◌then◌else◌}
use code_vald_org.Prelude.Int.{ℤ, pos, is_nonpositive}
use code_vald_org.Errors.{
  sentinel, user_already_exists, invitation_not_found, invitation_expired,
  invitation_already_accepted, temporarily_unavailable,
}
use code_vald_org.Graph.{str}
use code_vald_org.Effects.{Env, Action, pure, fail_if, lift, first_or, is_nonempty, ◌>>=◌, ◌>>◌}
use code_vald_org.Models.{User, Invitation, ManagerConfig}
use code_vald_org.Models.Requests.{InviteUserRequest}
use code_vald_org.Helpers.{entity_to_invitation, entity_to_user}
use code_vald_org.Crypto.{generate_token, hash_sha256}
use code_vald_org.Manager.Calls.{
  or_unavailable, add_duration, query, draft, edge, edges_to, now_text,
}

-- 72 * 60 * 60 * 1e9, the default of an invitation's life
abbrev pub default_ttl : ℤ
default_ttl = pos (72 * 60 * 60 * 1_000_000_000)

abbrev pub effective_ttl : ℤ → ℤ
effective_ttl ttl = if is_nonpositive ttl then default_ttl else ttl

module _ (E : Env) (cfg : ManagerConfig) where
  -- The loop over `req.RoleIDs`.
  unfoldable pub grant_roles : String → List String → Action E.World (Unit {0})
  grant_roles invitation_id [] = pure tt
  grant_roles invitation_id (role_id ∷ role_ids) = do
    or_unavailable (E.create_relationship (edge cfg "will_grant_role" invitation_id role_id))
    grant_roles invitation_id role_ids

  -- The edge to the inviting user, if there is one.
  unfoldable pub link_inviter : String → String → Action E.World (Unit {0})
  link_inviter invitation_id inviter = if inviter == "" then pure tt else do
    or_unavailable (E.create_relationship (edge cfg "invited_by" invitation_id inviter))
    pure tt

  unfoldable pub invite_user : InviteUserRequest → Action E.World Invitation
  invite_user req = do
    existing ← or_unavailable (E.list_entities (query cfg "User" (("email", str req.email) ∷ [])))
    fail_if (is_nonempty existing) (sentinel user_already_exists)
    now ← lift E.now
    let now_str = E.format_time now
    user ← or_unavailable (
        E.create_entity (
          draft cfg "User" (
            ("agency_id", str cfg.agency_id)
            ∷ ("email", str req.email)
            ∷ ("status", str "invited")
            ∷ ("display_name", str req.display_name)
            ∷ ("created_at", str now_str)
            ∷ ("updated_at", str now_str)
            ∷ [])))
    token ← or_unavailable (generate_token E "cv_iv_")
    let expires_at = E.format_time (add_duration now (effective_ttl req.expires_in))
    invitation ← or_unavailable (
        E.create_entity (
          draft cfg "Invitation" (
            ("agency_id", str cfg.agency_id)
            ∷ ("token_hash", str token.1)
            ∷ ("status", str "pending")
            ∷ ("expires_at", str expires_at)
            ∷ ("created_at", str now_str)
            ∷ [])))
    or_unavailable (E.create_relationship (edge cfg "has_invitation" user.id invitation.id))
    link_inviter invitation.id req.invited_by_user_id
    grant_roles invitation.id req.role_ids
    let inv = entity_to_invitation E invitation
    pure (record inv { token_hash = token.0 })

  unfoldable pub accept_invitation : String → Action E.World User
  accept_invitation token = do
    let token_hash = hash_sha256 E token
    invitations ←
        or_unavailable
          (E.list_entities (query cfg "Invitation" (("token_hash", str token_hash) ∷ [])))
    found ← first_or invitations (sentinel invitation_not_found)
    let inv = entity_to_invitation E found
    fail_if (inv.status == "accepted") (sentinel invitation_already_accepted)
    at ← lift E.now
    fail_if (ltb inv.expires_at at || inv.status == "expired") (sentinel invitation_expired)
    now ← now_text E
    rels ← or_unavailable (E.list_relationships (edges_to cfg "has_invitation" found.id))
    rel ← first_or rels (sentinel temporarily_unavailable)
    user ← or_unavailable (
        E.update_entity cfg.agency_id rel.from_id
          (("status", str "active") ∷ ("updated_at", str now) ∷ []))
    or_unavailable (
        E.update_entity cfg.agency_id found.id
          (("status", str "accepted") ∷ ("accepted_at", str now) ∷ []))
    pure (entity_to_user E user)
