-- ===== src/Crypto.antt =====
-- crypto.go: token generation, hashing and PKCE. SHA-256, Argon2id and the random source are the
-- environment's; `base64.RawURLEncoding` and `base64.RawStdEncoding` are written out.
pub mod Base64
pub mod Phc
pub mod Decoded
mod Scanned
pub mod Verified
use Prim.Native.String.{slice}
use code_vald_org.Prelude.{
  ℕ, zero, suc, ◌+◌, ◌*◌, ◌/◌, ◌%◌, String, ◌<>◌, ◌==◌, Bool, List, [], ◌∷◌, ltb, if◌then◌else◌,
}
use code_vald_org.Effects.{Env, Action, pure, ◌>>=◌}

abbrev pub url_alphabet : String
url_alphabet = "ABCDEFGHIJKLMNOPQRSTUVWXYZabcdefghijklmnopqrstuvwxyz0123456789-_"

abbrev pub std_alphabet : String
std_alphabet = "ABCDEFGHIJKLMNOPQRSTUVWXYZabcdefghijklmnopqrstuvwxyz0123456789+/"

abbrev pub digit : String → ℕ → String
digit alphabet k = slice alphabet k (k + 1)

-- `EncodeToString` without padding, over bytes.
unfoldable pub encode : String → List ℕ → String
encode t [] = ""
encode t (a ∷ []) = digit t (a / 4) <> digit t (a % 4 * 16)
encode t (a ∷ b ∷ []) = digit t (a / 4) <> digit t (a % 4 * 16 + b / 16) <> digit t (b % 16 * 4)
encode t (a ∷ b ∷ c ∷ rest) =
    digit t (a / 4)
    <> digit t (a % 4 * 16 + b / 16)
    <> digit t (b % 16 * 4 + c / 64)
    <> digit t (c % 64)
    <> encode t rest

-- `%d` of a number, on as much fuel as it has digits or more.
unfoldable pub decimal_from : ℕ → ℕ → String
decimal_from zero n = ""
decimal_from (suc fuel) n =
    let more = decimal_from fuel (n / 10) in
    let last = slice "0123456789" (n % 10) (n % 10 + 1) in if ltb n 10 then last else more <> last

abbrev pub decimal : ℕ → String
decimal n = decimal_from (suc n) n

module _ (E : Env) where
  unfoldable pub hash_sha256 : String → String
  unfolding encode
  hash_sha256 s = encode url_alphabet (E.sha256 s)

  -- `subtle.ConstantTimeCompare(a, b) == 1` is equality of the two byte strings.
  unfoldable pub verify_pkce : (verifier challenge : String) → Bool
  unfolding encode
  verify_pkce verifier challenge = encode url_alphabet (E.sha256 verifier) == challenge

  unfoldable pub generate_token : String → Action E.World (String × String)
  unfolding encode
  generate_token prefix = do
    b ← E.rand_read 32
    let plaintext = prefix <> encode url_alphabet b
    pure (plaintext, encode url_alphabet (E.sha256 plaintext))

  -- The PHC text of the Argon2id hash under a fresh salt.
  unfoldable pub hash_argon2id : String → (t m p : ℕ) → Action E.World String
  unfolding encode decimal_from
  hash_argon2id password t m p = do
    salt ← E.rand_read 16
    let hash = E.argon2_id_key password salt t m p 32
    pure (
        "$argon2id$v=19$m="
        <> decimal m
        <> ",t="
        <> decimal t
        <> ",p="
        <> decimal p
        <> "$"
        <> encode std_alphabet salt
        <> "$"
        <> encode std_alphabet hash)
