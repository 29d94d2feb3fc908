-- ===== src/Registrar/Routes.antt =====
-- registrar.orgRoutes against the gRPC service, and the table in itself.
use code_vald_org.Prelude.{
  String, ◌==◌, ◌≡◌, refl, Bool, true, false, not, ◌&&◌, List, [], ◌∷◌, map, any, all, keep, length,
  nat_eq, if◌then◌else◌,
}
use Prim.Native.Char.{Char, code}
use code_vald_org.Graph.State.{strs_eq}
use code_vald_org.Server.Service.{Rpc}
use code_vald_org.Registrar.{PathBinding, RouteInfo, org_routes}
use code_vald_org.Registrar.Methods.{full_method, is_oauth}

-- The announced routes that lead to the method.
abbrev pub routes_to : List RouteInfo → Rpc → List RouteInfo
routes_to routes q = keep (λ (r : RouteInfo). r.grpc_method == full_method q) routes

-- A character in front of the name that is being read.
abbrev onto_first : Char → List String → List String
onto_first c [] = String.◌∷◌ c String.[] ∷ []
onto_first c (name ∷ names) = String.◌∷◌ c name ∷ names

-- The names in braces of a pattern; `inside` tells whether a brace is open.
abbrev names_from : (inside : Bool) → String → List String
names_from inside String.[] = []
names_from true (String.◌∷◌ c s) =
    let after = names_from false s in
    let more = names_from true s in if nat_eq (code c) 125 then "" ∷ after else onto_first c more
names_from false (String.◌∷◌ c s) =
    let name = names_from true s in
    let more = names_from false s in if nat_eq (code c) 123 then name else more

-- Each parameter of the pattern is bound, in order.
abbrev pub is_bound : RouteInfo → Bool
is_bound r =
    strs_eq (names_from false r.pattern) (map (λ (b : PathBinding). b.url_param) r.path_bindings)

-- The routes that are no writes are those of GET.
abbrev pub is_marked : RouteInfo → Bool
is_marked r = if r.method == "GET" then not r.is_write else r.is_write

abbrev clashes : RouteInfo → RouteInfo → Bool
clashes a b = a.method == b.method && a.pattern == b.pattern

-- No two routes have both the HTTP method and the pattern in common.
abbrev pub are_distinct : List RouteInfo → Bool
are_distinct [] = true
are_distinct (r ∷ routes) = not (any (clashes r) routes) && are_distinct routes

pub record IsTable (routes : List RouteInfo) : Type 0 where
  pub reached : (q : Rpc) → length (routes_to routes q) ≡ (if is_oauth q then 0 else 1)
  pub bound : all is_bound routes ≡ true
  pub marked : all is_marked routes ≡ true
  pub distinct : are_distinct routes ≡ true

length-routes_to :
    (agency_id : String) (q : Rpc)
    → length (routes_to (org_routes agency_id) q) ≡ (if is_oauth q then 0 else 1)
unfolding org_routes
length-routes_to agency_id (Rpc.init_organization req) = refl
length-routes_to agency_id (Rpc.get_organization req) = refl
length-routes_to agency_id (Rpc.update_organization req) = refl
length-routes_to agency_id (Rpc.disable_organization req) = refl
length-routes_to agency_id (Rpc.delete_organization req) = refl
length-routes_to agency_id (Rpc.invite_user req) = refl
length-routes_to agency_id (Rpc.accept_invitation req) = refl
length-routes_to agency_id (Rpc.get_user req) = refl
length-routes_to agency_id (Rpc.list_users req) = refl
length-routes_to agency_id (Rpc.suspend_user req) = refl
length-routes_to agency_id (Rpc.reactivate_user req) = refl
length-routes_to agency_id (Rpc.delete_user req) = refl
length-routes_to agency_id (Rpc.create_role req) = refl
length-routes_to agency_id (Rpc.update_role req) = refl
length-routes_to agency_id (Rpc.delete_role req) = refl
length-routes_to agency_id (Rpc.list_roles req) = refl
length-routes_to agency_id (Rpc.register_scope req) = refl
length-routes_to agency_id (Rpc.deprecate_scope req) = refl
length-routes_to agency_id (Rpc.list_scopes req) = refl
length-routes_to agency_id (Rpc.grant_membership req) = refl
length-routes_to agency_id (Rpc.revoke_membership req) = refl
length-routes_to agency_id (Rpc.list_memberships req) = refl
length-routes_to agency_id (Rpc.create_oauth_client req) = refl
length-routes_to agency_id (Rpc.rotate_client_secret req) = refl
length-routes_to agency_id (Rpc.list_oauth_clients req) = refl
length-routes_to agency_id (Rpc.delete_oauth_client req) = refl
length-routes_to agency_id (Rpc.authorize req) = refl
length-routes_to agency_id (Rpc.token req) = refl
length-routes_to agency_id (Rpc.introspect req) = refl
length-routes_to agency_id (Rpc.revoke req) = refl
length-routes_to agency_id (Rpc.list_audit_events req) = refl

-- Each method of the gRPC service has exactly one announced route, save the four that the OAuth
-- endpoints offer, which have none; each route binds the parameters of its pattern, in order; those
-- that are no writes are those of GET; and no two have both the HTTP method and the pattern in
-- common.
pub org_routes-IsTable : (agency_id : String) → IsTable (org_routes agency_id)
unfolding org_routes
org_routes-IsTable agency_id = record {
  reached = length-routes_to agency_id;
  bound = refl;
  marked = refl;
  distinct = refl;
}
