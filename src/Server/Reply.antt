-- ===== src/Server/Reply.antt =====
-- internal/server/server.go: the agency check, and the form that all handlers share.
use code_vald_org.Prelude.{String, ◌==◌, not, if◌then◌else◌}
use code_vald_org.Prelude.Int.{ℤ, pos}
use code_vald_org.Effects.{Env, Result, ok, err, Action}
use code_vald_org.Server.Mappers.{StatusError, permission_denied, to_grpc_error}

-- `(*pb.X, error)`: a message, or a status error beside nil.
pub data Reply (A : Type 0) : Type 0 where
  reply : A → Reply A
  refused : StatusError → Reply A

abbrev pub Call : Type 0 → Type 0 → Type 0
Call W A = W → Reply A × W

-- `time.Second`
abbrev pub second : ℤ
second = pos 1_000_000_000

abbrev pub agency_mismatch : StatusError
agency_mismatch = record { code = permission_denied; message = "agency_id mismatch" }

-- `if err := s.checkAgencyID(req.GetAgencyId()); err != nil { return nil, err }`
unfoldable pub with_agency : {W A : Type 0} → (own requested : String) → Call W A → Call W A
with_agency own requested call w =
    if not (requested == own) then (refused agency_mismatch, w) else call w

abbrev pub reply_of : {A B : Type 0} → Env → Result A → (A → B) → Reply B
reply_of E (ok a) convert = reply (convert a)
reply_of E (err e) convert = refused (to_grpc_error E e)

-- `if err != nil { return nil, toGRPCError(err) }`, then the message of the value.
unfoldable pub answer : {A B : Type 0} (E : Env) → Action E.World A → (A → B) → Call E.World B
answer E call convert w = let (r, w') = call w in (reply_of E r convert, w')
