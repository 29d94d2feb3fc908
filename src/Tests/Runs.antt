-- ===== src/Tests/Runs.antt =====
-- The theorems on whole histories, the service and tokens, at concrete inputs.
use code_vald_org.Prelude.{String, ◌≡◌, refl, inl, some, List, [], ◌∷◌}
use code_vald_org.Errors.{Sentinel, sentinel, sentinel_text}
use code_vald_org.Graph.Step.{Reach}
use code_vald_org.Graph.Sound.{IsSound}
use code_vald_org.Graph.Builtin.{HasBuiltin}
use code_vald_org.Store.Memory.{memory, graph_of, memory-IsLawful}
use code_vald_org.Manager.Operations.{
  Operation, serve, init_organization, invite_user, delete_role, revoke,
}
use code_vald_org.Refinement.Histories.{serve-Reach, serve-IsSound, serve-HasBuiltin}
use code_vald_org.Server.Mappers.{to_grpc_error, unavailable}
use code_vald_org.Server.Reply.{agency_mismatch}
use code_vald_org.Server.Service.{Rpc, handle}
use code_vald_org.Server.Agency.{handle-mismatch, handle-Reach}
use code_vald_org.Server.Statuses.{to_grpc_error-sentinel}
use code_vald_org.Tests.Data.{
  cfg, acme, guest, empty, with_role, builtin_role, empty-IsSound, one-IsSound,
}

-- An organization is set up, twice; a user is invited, twice; and a role is deleted.
abbrev history : List Operation
history =
    init_organization acme
    ∷ init_organization acme
    ∷ invite_user guest
    ∷ invite_user guest
    ∷ delete_role "r1"
    ∷ revoke "t" ""
    ∷ []

serve-Reach_example : Reach (graph_of empty) (graph_of (serve memory cfg history empty))
serve-Reach_example = serve-Reach memory graph_of memory-IsLawful cfg history empty

serve-IsSound_example : IsSound (graph_of (serve memory cfg history empty))
serve-IsSound_example =
    serve-IsSound memory graph_of memory-IsLawful cfg history empty empty-IsSound

serve-HasBuiltin_example :
    HasBuiltin "a1" "r1" "admin" (graph_of (serve memory cfg history with_role))
serve-HasBuiltin_example =
    serve-HasBuiltin memory graph_of memory-IsLawful cfg history "a1" "r1" "admin" with_role
      (one-IsSound builtin_role) (builtin_role, inl refl, (refl, refl, refl, refl, refl))

abbrev removal : String → Rpc
removal agency = Rpc.delete_role (record { agency_id = agency; role_id = "r1" })

handle-Reach_example :
    Reach (graph_of with_role) (graph_of (handle memory cfg "a1" (removal "a1") with_role).1)
handle-Reach_example =
    handle-Reach memory graph_of memory-IsLawful cfg "a1" (removal "a1") with_role

handle-mismatch_example :
    handle memory cfg "a1" (removal "other") with_role ≡ (some agency_mismatch, with_role)
handle-mismatch_example = handle-mismatch memory cfg "a1" (removal "other") with_role refl

to_grpc_error-sentinel_example :
    to_grpc_error memory (sentinel Sentinel.temporarily_unavailable)
    ≡ record { code = unavailable; message = "temporarily_unavailable" }
unfolding sentinel_text
to_grpc_error-sentinel_example = to_grpc_error-sentinel memory Sentinel.temporarily_unavailable
