-- ===== src/Tests/Memberships.antt =====
-- The theorem on the listing of memberships, at a concrete input.
use code_vald_org.Prelude.{◌≡◌, ◌↔◌, refl, List, [], ◌∷◌, map}
use code_vald_org.Prelude.Int.{pos}
use code_vald_org.Graph.{str, Entity}
use code_vald_org.Graph.State.{Occurs}
use code_vald_org.Effects.{ok}
use code_vald_org.Models.Requests.{ListMembershipsRequest}
use code_vald_org.Helpers.{entity_to_membership}
use code_vald_org.Store.Memory.{Memory, memory, graph_of, memory-IsLawful}
use code_vald_org.Manager.Calls.{manager_calls}
use code_vald_org.Manager.Memberships.{list_memberships, memberships_of}
use code_vald_org.Behaviour.Memberships.{IsMembershipOf, list_memberships-IsMembershipOf}
use code_vald_org.Tests.Data.{cfg, entity, world, user}

abbrev own_membership : Entity
own_membership = entity "m1" "Membership" (("granted_by", str "u0") ∷ [])

abbrev other_membership : Entity
other_membership = entity "m2" "Membership" (("granted_by", str "u0") ∷ [])

abbrev members : Memory
members =
    world (user ∷ own_membership ∷ other_membership ∷ [])
      ((record { agency_id = "a1"; name = "has_membership"; from_id = "u1"; to_id = "m1" }) ∷ [])

abbrev by_user : ListMembershipsRequest
by_user = record { user_id = "u1"; page_token = ""; page_size = pos 0 }

listed_run :
    (list_memberships memory cfg by_user members).0
    ≡ ok (map (entity_to_membership memory) (own_membership ∷ []))
unfolding list_memberships memberships_of manager_calls
listed_run = refl

list_memberships-IsMembershipOf_example :
    (es : List Entity) × (map (entity_to_membership memory) (own_membership ∷ [])
      ≡ map (entity_to_membership memory) es)
    × ((e : Entity)
        → Occurs e es ↔ IsMembershipOf memory graph_of memory-IsLawful cfg "u1" members.graph e)
list_memberships-IsMembershipOf_example =
    list_memberships-IsMembershipOf memory graph_of memory-IsLawful cfg by_user
      (map (entity_to_membership memory) (own_membership ∷ [])) members refl listed_run
