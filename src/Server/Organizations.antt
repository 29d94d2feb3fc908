-- ===== src/Server/Organizations.antt =====
-- internal/server/server.go: the handlers of the organization life cycle.
use code_vald_org.Prelude.{String}
use code_vald_org.Effects.{Env}
use code_vald_org.Models.{ManagerConfig}
use code_vald_org.Manager.Organizations
use code_vald_org.Server.Reply.{Call, with_agency, answer}
use code_vald_org.Server.Requests.{
  InitOrganizationRequest, GetOrganizationRequest, UpdateOrganizationRequest,
  DisableOrganizationRequest, DeleteOrganizationRequest,
}
use code_vald_org.Server.Messages.{DeleteOrganizationResponse, OrganizationMsg}
use code_vald_org.Server.Convert.{to_proto_org}

-- The server's own agency, and the manager that it delegates to.
module _ (E : Env) (cfg : ManagerConfig) (agency_id : String) where
  unfoldable pub init_organization : InitOrganizationRequest → Call E.World (OrganizationMsg)
  init_organization req = with_agency agency_id req.agency_id (
      answer E
        (Organizations.init_organization E cfg (record {
          name = req.name;
          description = req.description;
          contact_email = req.contact_email;
          logo_url = req.logo_url;
        }))
        to_proto_org)

  unfoldable pub get_organization : GetOrganizationRequest → Call E.World (OrganizationMsg)
  get_organization req =
      with_agency agency_id req.agency_id
        (answer E (Organizations.get_organization E cfg) to_proto_org)

  unfoldable pub update_organization : UpdateOrganizationRequest → Call E.World (OrganizationMsg)
  update_organization req = with_agency agency_id req.agency_id (
      answer E
        (Organizations.update_organization E cfg (record {
          name = req.name;
          description = req.description;
          contact_email = req.contact_email;
          logo_url = req.logo_url;
        }))
        to_proto_org)

  unfoldable pub disable_organization : DisableOrganizationRequest → Call E.World (OrganizationMsg)
  disable_organization req =
      with_agency agency_id req.agency_id
        (answer E (Organizations.disable_organization E cfg) to_proto_org)

  unfoldable pub delete_organization :
      DeleteOrganizationRequest → Call E.World (DeleteOrganizationResponse)
  delete_organization req =
      with_agency agency_id req.agency_id
        (answer E (Organizations.delete_organization E cfg) (λ _. record { agency_id = agency_id }))
