-- ===== src/Crypto/Base64.antt =====
-- crypto.go: `base64.RawStdEncoding.DecodeString`, over the codes of the characters.
use code_vald_org.Prelude.{
  ℕ, ◌+◌, ◌*◌, ◌-◌, ◌/◌, ◌%◌, Bool, ◌&&◌, ◌||◌, Option, none, some, List, [], ◌∷◌, leb, nat_eq,
  if◌then◌else◌,
}

-- The value of a character of the alphabet.
abbrev pub sextet : ℕ → Option ℕ
sextet c =
    if leb b'A' c && leb c b'Z'
    then some (c - 65)
    else if leb b'a' c && leb c b'z'
    then some (c - 71)
    else if leb b'0' c && leb c b'9'
    then some (c + 4)
    else if nat_eq c b'+'
    then some 62
    else if nat_eq c b'/'
    then some 63
    else none

abbrev pub is_line_end : ℕ → Bool
is_line_end c = nat_eq c 10 || nat_eq c 13

abbrev pub in_front : Option ℕ → Option (List ℕ) → Option (List ℕ)
in_front (some v) (some vs) = some (v ∷ vs)
in_front (some v) none = none
in_front none vs = none

-- The values of the characters. Line ends are left out, and any other character is an error.
unfoldable pub sextets : List ℕ → Option (List ℕ)
sextets [] = some []
sextets (c ∷ cs) = let rest = sextets cs in if is_line_end c then rest else in_front (sextet c) rest

abbrev pub three : (a b c : ℕ) → Option (List ℕ) → Option (List ℕ)
three a b c none = none
three a b c (some bytes) = some (a ∷ b ∷ c ∷ bytes)

-- Four values are three bytes; at the end two are one and three are two, whose last bits are not
-- read, and one alone is an error.
unfoldable pub bytes_of : List ℕ → Option (List ℕ)
bytes_of [] = some []
bytes_of (a ∷ []) = none
bytes_of (a ∷ b ∷ []) = some ((a * 4 + b / 16) ∷ [])
bytes_of (a ∷ b ∷ c ∷ []) = some ((a * 4 + b / 16) ∷ (b % 16 * 16 + c / 4) ∷ [])
bytes_of (a ∷ b ∷ c ∷ d ∷ rest) =
    three (a * 4 + b / 16) (b % 16 * 16 + c / 4) (c % 4 * 64 + d) (bytes_of rest)

abbrev pub bytes_if : Option (List ℕ) → Option (List ℕ)
bytes_if none = none
bytes_if (some values) = bytes_of values

unfoldable pub decode : List ℕ → Option (List ℕ)
decode cs = bytes_if (sextets cs)
