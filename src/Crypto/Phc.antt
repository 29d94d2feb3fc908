-- ===== src/Crypto/Phc.antt =====
-- crypto.go: verifyArgon2id, which reads a PHC text back and hashes the password again.
use code_vald_org.Prelude.{
  ℕ, ◌%◌, ◌^◌, String, ◌==◌, Bool, true, false, not, ◌&&◌, ◌||◌, Option, none, some, List, [], ◌∷◌,
  length, nat_eq, if◌then◌else◌,
}
use code_vald_org.Effects.{Env}
use code_vald_org.Manager.Scopes.Grammar.{codes}
use code_vald_org.Configuration.Scan.{skip_space, number_after, drop_digits}
use code_vald_org.Configuration.Text.{split}
use code_vald_org.Crypto.Base64.{decode}

-- The four errors, without the texts of those that they wrap.
pub data PhcError : Type 0 where
  invalid_format invalid_params invalid_salt invalid_hash : PhcError

-- `(bool, error)`; and Argon2 panics where the time or the threads are 0.
pub data Verification : Type 0 where
  panicked : Verification
  compared : Bool → Verification
  failed : PhcError → Verification

-- The characters of a format that are no verb stand in the input too.
abbrev pub literal : List ℕ → List ℕ → Option (List ℕ)
literal [] cs = some cs
literal (d ∷ ds) [] = none
literal (d ∷ ds) (c ∷ cs) = let rest = literal ds cs in if nat_eq c d then rest else none

infixl 5 ◌>>?◌
abbrev pub ◌>>?◌ : {A B : Type 0} → Option A → (A → Option B) → Option B
none >>? f = none
some a >>? f = f a

-- The verb `%d` for a uint32: the value, and what is left of the input.
unfoldable pub scan_verb : List ℕ → Option (ℕ × List ℕ)
scan_verb cs =
    skip_space cs >>? λ rest. number_after (some rest) >>? λ n. some (n, drop_digits rest)

-- `fmt.Sscanf(parts[3], "m=%d,t=%d,p=%d", &m, &t, &p)`
unfoldable pub scan_params : List ℕ → Option (ℕ × ℕ × ℕ)
scan_params cs = literal (b'm' ∷ b'=' ∷ []) cs >>? scan_verb >>? λ m.
    literal (b',' ∷ b't' ∷ b'=' ∷ []) m.1 >>? scan_verb >>? λ t.
    literal (b',' ∷ b'p' ∷ b'=' ∷ []) t.1 >>? scan_verb >>? λ p. some (m.0, t.0, p.0)

-- `subtle.ConstantTimeCompare(a, b) == 1`
abbrev pub bytes_eq : List ℕ → List ℕ → Bool
bytes_eq [] [] = true
bytes_eq [] (b ∷ bs) = false
bytes_eq (a ∷ as_) [] = false
bytes_eq (a ∷ as_) (b ∷ bs) = nat_eq a b && bytes_eq as_ bs

module _ (E : Env) (password : String) where
  -- Each step of the function, after those before it succeeded.
  abbrev pub with_hash : (m t p : ℕ) → (salt : List ℕ) → Option (List ℕ) → Verification
  with_hash m t p salt none = failed invalid_hash
  with_hash m t p salt (some expected) =
      let computed = E.argon2_id_key password salt t m (p % 2 ^ 8) (length expected) in
      if nat_eq t 0 || nat_eq (p % 2 ^ 8) 0 then panicked else compared (bytes_eq computed expected)

  abbrev pub with_salt : (m t p : ℕ) → Option (List ℕ) → (hash : String) → Verification
  with_salt m t p none hash = failed invalid_salt
  with_salt m t p (some salt) hash = with_hash m t p salt (decode (codes hash))

  abbrev pub with_params : Option (ℕ × ℕ × ℕ) → (salt hash : String) → Verification
  with_params none salt hash = failed invalid_params
  with_params (some (m, t, p)) salt hash = with_salt m t p (decode (codes salt)) hash

  -- Six parts are needed, of which the first and the third are not read.
  abbrev pub of_parts : List String → Verification
  of_parts (before ∷ name ∷ version ∷ params ∷ salt ∷ hash ∷ []) =
      let rest = with_params (scan_params (codes params)) salt hash in
      if not (name == "argon2id") then failed invalid_format else rest
  of_parts parts = failed invalid_format

  unfoldable pub verify_argon2id : String → Verification
  verify_argon2id phc = of_parts (split b'$' phc)
