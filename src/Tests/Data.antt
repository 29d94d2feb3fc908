-- ===== src/Tests/Data.antt =====
-- The inputs of the examples.
use code_vald_org.Prelude.{String, ◌≡◌, sym, ◌∙◌, true, inl, inr, List, [], ◌∷◌}
use code_vald_org.Prelude.Int.{pos}
use code_vald_org.Graph.{Value, str, bool, Entity, Relationship}
use code_vald_org.Graph.State.{Occurs}
use code_vald_org.Graph.Sound.{HasUniqueIds, IsSound}
use code_vald_org.Models.{ManagerConfig}
use code_vald_org.Models.Requests.{InitOrganizationRequest, InviteUserRequest}
use code_vald_org.Crypto.{hash_sha256}
use code_vald_org.Store.Memory.{Memory, memory}

abbrev pub cfg : ManagerConfig
cfg = record {
  agency_id = "a1";
  issuer_url = "https://org";
  access_token_ttl = pos 900;
  refresh_token_ttl = pos 900;
  auth_code_ttl = pos 60;
  client_secret_grace = pos 60;
  argon2_time = 3;
  argon2_memory_kib = 65536;
  argon2_threads = 1;
}

abbrev pub entity : String → String → List (String × Value) → Entity
entity id type_id props = record {
  id = id;
  agency_id = "a1";
  type_id = type_id;
  properties = props;
}

abbrev pub organization : Entity
organization = entity "o1" "Organization" (("name", str "Acme") ∷ ("enabled", bool true) ∷ [])

abbrev pub builtin_role : Entity
builtin_role = entity "r1" "Role" (("name", str "admin") ∷ ("builtin", bool true) ∷ [])

abbrev pub user : Entity
user = entity "u1" "User" (("email", str "x@y") ∷ ("status", str "invited") ∷ [])

abbrev pub invitation : Entity
invitation = entity "i1" "Invitation" (
    ("token_hash", str (hash_sha256 memory "t"))
    ∷ ("status", str "pending")
    ∷ ("expires_at", str "200")
    ∷ [])

abbrev pub access_token : Entity
access_token = entity "t1" "AccessToken" (
    ("token_hash", str (hash_sha256 memory "t"))
    ∷ ("expires_at", str "200")
    ∷ ("created_at", str "50")
    ∷ [])

abbrev pub world : List Entity → List Relationship → Memory
world es rs = record {
  graph = record { entities = es; relationships = rs };
  clock = 100;
  counter = 10;
}

abbrev pub empty : Memory
empty = world [] []

abbrev pub with_org : Memory
with_org = world (organization ∷ []) []

abbrev pub with_role : Memory
with_role = world (builtin_role ∷ []) []

abbrev pub with_user : Memory
with_user = world (user ∷ []) []

abbrev pub with_token : Memory
with_token = world (access_token ∷ []) []

abbrev pub invited : Memory
invited =
    world (user ∷ invitation ∷ [])
      ((record { agency_id = "a1"; name = "has_invitation"; from_id = "u1"; to_id = "i1" }) ∷ [])

pub empty-IsSound : IsSound (record { entities = []; relationships = [] })
empty-IsSound = record {
  unique_ids = λ a b oa ob agency id. absurd oa;
  unique_keys = λ a b oa ob c. absurd oa;
}

pub unique_one : (e : Entity) → HasUniqueIds (e ∷ [])
unique_one e a b (inl p) (inl q) agency id = p ∙ sym q
unique_one e a b (inl p) (inr q) agency id = absurd q
unique_one e a b (inr p) ob agency id = absurd p

keys_one : (e a b : Entity) → Occurs a (e ∷ []) → Occurs b (e ∷ []) → a ≡ b
keys_one e a b (inl p) (inl q) = p ∙ sym q
keys_one e a b (inl p) (inr q) = absurd q
keys_one e a b (inr p) ob = absurd p

pub one-IsSound : (e : Entity) → IsSound (record { entities = e ∷ []; relationships = [] })
one-IsSound e = record {
  unique_ids = unique_one e;
  unique_keys = λ a b oa ob c. keys_one e a b oa ob;
}

abbrev pub acme : InitOrganizationRequest
acme = record { name = "Acme"; description = ""; contact_email = ""; logo_url = "" }

abbrev pub guest : InviteUserRequest
guest = record {
  email = "x@y";
  display_name = "X";
  invited_by_user_id = "";
  role_ids = [];
  expires_in = pos 0;
}
