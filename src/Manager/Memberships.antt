-- ===== src/Manager/Memberships.antt =====
-- memberships.go
use code_vald_org.Prelude.{String, ◌==◌, List, [], ◌∷◌, map, keep, any, if◌then◌else◌}
use code_vald_org.Errors.{sentinel, membership_not_found}
use code_vald_org.Graph.{str, Entity, Relationship}
use code_vald_org.Effects.{Env, Action, pure, or_fail, ◌>>=◌, ◌>>◌}
use code_vald_org.Models.{Membership, ManagerConfig}
use code_vald_org.Models.Requests.{GrantMembershipRequest, ListMembershipsRequest}
use code_vald_org.Helpers.{entity_to_membership}
use code_vald_org.Manager.Calls.{or_unavailable, query, draft, edge, edges_from, now_text}

-- The entities whose id is in the set of the edges' ends.
abbrev pub reachable : List Relationship → List Entity → List Entity
reachable rels = keep (λ e. any (λ r. r.to_id == e.id) rels)

module _ (E : Env) (cfg : ManagerConfig) where
  unfoldable pub grant_membership : GrantMembershipRequest → Action E.World Membership
  grant_membership req = do
    now ← now_text E
    membership ← or_unavailable (
        E.create_entity (
          draft cfg "Membership" (
            ("agency_id", str cfg.agency_id)
            ∷ ("granted_at", str now)
            ∷ ("granted_by", str req.granted_by)
            ∷ [])))
    or_unavailable (E.create_relationship (edge cfg "has_membership" req.user_id membership.id))
    or_unavailable (E.create_relationship (edge cfg "grants_role" membership.id req.role_id))
    pure (entity_to_membership E membership)

  unfoldable pub revoke_membership : String → Action E.World Membership
  revoke_membership membership_id = do
    or_fail (E.get_entity cfg.agency_id membership_id) (sentinel membership_not_found)
    now ← now_text E
    e ← or_unavailable (E.update_entity cfg.agency_id membership_id (("revoked_at", str now) ∷ []))
    pure (entity_to_membership E e)

  -- The filter by user, which asks for the user's edges.
  unfoldable pub memberships_of : String → List Entity → Action E.World (List Entity)
  memberships_of user_id entities = if user_id == "" then pure entities else do
    rels ← or_unavailable (E.list_relationships (edges_from cfg "has_membership" user_id))
    pure (reachable rels entities)

  unfoldable pub list_memberships : ListMembershipsRequest → Action E.World (List Membership)
  list_memberships req = do
    entities ← or_unavailable (E.list_entities (query cfg "Membership" []))
    filtered ← memberships_of req.user_id entities
    pure (map (entity_to_membership E) filtered)
