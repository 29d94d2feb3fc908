-- ===== src/Tests/Surprises.antt =====
-- Runs on which the code does what its names and documents do not suggest.
use code_vald_org.Prelude.{◌≡◌, refl, [], ◌∷◌}
use code_vald_org.Graph.{str, Entity}
use code_vald_org.Graph.State.{amended}
use code_vald_org.Effects.{ok}
use code_vald_org.Helpers.{entity_to_user, entity_to_invitation}
use code_vald_org.Crypto.{hash_sha256, decimal_from}
use code_vald_org.Store.Memory.{Memory, memory, find_named}
use code_vald_org.Manager.Calls.{manager_calls}
use code_vald_org.Manager.Invitations.{accept_invitation}
use code_vald_org.Manager.Roles.{delete_role}
use code_vald_org.Manager.Users.{get_user, reactivate_user}
use code_vald_org.Behaviour.Invitations.{activation}
use code_vald_org.Tests.Data.{cfg, entity, world, user, with_user}

abbrev revoked_invitation : Entity
revoked_invitation = entity "i1" "Invitation" (
    ("token_hash", str (hash_sha256 memory "t"))
    ∷ ("status", str "revoked")
    ∷ ("expires_at", str "200")
    ∷ [])

abbrev uninvited : Memory
uninvited =
    world (user ∷ revoked_invitation ∷ [])
      ((record { agency_id = "a1"; name = "has_invitation"; from_id = "u1"; to_id = "i1" }) ∷ [])

-- An invitation that was revoked is accepted.
revoked_accepted :
    (accept_invitation memory cfg "t" uninvited).0
    ≡ ok (entity_to_user memory (amended (activation "101") user))
unfolding accept_invitation manager_calls hash_sha256 entity_to_invitation find_named decimal_from
revoked_accepted = refl

abbrev former : Entity
former =
    entity "u1" "User"
      (("email", str "x@y") ∷ ("status", str "deleted") ∷ ("deleted_at", str "5") ∷ [])

-- A deleted user is active again.
deleted_reactivated :
    (reactivate_user memory cfg "u1" (world (former ∷ []) [])).0
    ≡ ok (entity_to_user memory (amended (activation "100") former))
unfolding reactivate_user get_user manager_calls find_named decimal_from
deleted_reactivated = refl

-- DeleteRole deletes a user.
user_deleted_as_role : (delete_role memory cfg "u1" with_user).1.graph.entities ≡ []
unfolding delete_role manager_calls find_named
user_deleted_as_role = refl
