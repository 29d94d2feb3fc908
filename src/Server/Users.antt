-- ===== src/Server/Users.antt =====
-- internal/server/server.go: the handlers of users and invitations.
use code_vald_org.Prelude.{String, map, List}
use code_vald_org.Prelude.Int.{mul64}
use code_vald_org.Server.Reply.{second}
use code_vald_org.Effects.{Env}
use code_vald_org.Models.{ManagerConfig}
use code_vald_org.Manager.Invitations
use code_vald_org.Manager.Users
use code_vald_org.Server.Reply.{Call, with_agency, answer}
use code_vald_org.Server.Requests.{
  InviteUserRequest, AcceptInvitationRequest, GetUserRequest, ListUsersRequest, SuspendUserRequest,
  ReactivateUserRequest, DeleteUserRequest,
}
use code_vald_org.Server.Messages.{DeleteUserResponse, InvitationMsg, UserMsg}
use code_vald_org.Server.Convert.{to_proto_invitation, to_proto_user}

-- The server's own agency, and the manager that it delegates to.
module _ (E : Env) (cfg : ManagerConfig) (agency_id : String) where
  unfoldable pub invite_user : InviteUserRequest → Call E.World (InvitationMsg)
  invite_user req = with_agency agency_id req.agency_id (
      answer E
        (Invitations.invite_user E cfg (record {
          email = req.email;
          display_name = req.display_name;
          invited_by_user_id = req.invited_by_user_id;
          role_ids = req.role_ids;
          expires_in = mul64 req.expires_in_seconds second;
        }))
        to_proto_invitation)

  unfoldable pub accept_invitation : AcceptInvitationRequest → Call E.World (UserMsg)
  accept_invitation req =
      with_agency agency_id req.agency_id
        (answer E (Invitations.accept_invitation E cfg req.token) to_proto_user)

  unfoldable pub get_user : GetUserRequest → Call E.World (UserMsg)
  get_user req =
      with_agency agency_id req.agency_id
        (answer E (Users.get_user E cfg req.user_id) to_proto_user)

  unfoldable pub list_users : ListUsersRequest → Call E.World (List UserMsg)
  list_users req = with_agency agency_id req.agency_id (
      answer E
        (Users.list_users E cfg (record {
          status_filter = req.status_filter;
          page_token = req.page_token;
          page_size = req.page_size;
        }))
        (map to_proto_user))

  unfoldable pub suspend_user : SuspendUserRequest → Call E.World (UserMsg)
  suspend_user req =
      with_agency agency_id req.agency_id
        (answer E (Users.suspend_user E cfg req.user_id) to_proto_user)

  unfoldable pub reactivate_user : ReactivateUserRequest → Call E.World (UserMsg)
  reactivate_user req =
      with_agency agency_id req.agency_id
        (answer E (Users.reactivate_user E cfg req.user_id) to_proto_user)

  unfoldable pub delete_user : DeleteUserRequest → Call E.World (DeleteUserResponse)
  delete_user req = with_agency agency_id req.agency_id (
      answer E (Users.delete_user E cfg req.user_id)
        (λ _. record { agency_id = agency_id; user_id = req.user_id }))
