-- ===== src/Configuration/Scan.antt =====
-- internal/config/config.go: `fmt.Sscanf(v, "%d", &n)` for an unsigned integer of 32 bits, over the
-- codes of the characters.
use code_vald_org.Prelude.{
  ℕ, ◌+◌, ◌*◌, ◌-◌, ◌^◌, Bool, ◌&&◌, ◌||◌, Option, none, some, List, [], ◌∷◌, ltb, leb, nat_eq,
  if◌then◌else◌,
}

-- The characters that `fmt` and `strings` take for white space.
unfoldable pub is_space : ℕ → Bool
is_space c =
    (leb 9 c && leb c 13)
    || nat_eq c 32
    || nat_eq c 133
    || nat_eq c 160
    || nat_eq c 5760
    || (leb 8192 c && leb c 8202)
    || nat_eq c 8232
    || nat_eq c 8233
    || nat_eq c 8239
    || nat_eq c 8287
    || nat_eq c 12288

-- What is left after the white space at the beginning. A newline is an error.
unfoldable pub skip_space : List ℕ → Option (List ℕ)
unfolding is_space
skip_space [] = some []
skip_space (c ∷ cs) =
    let rest = skip_space cs in
    if nat_eq c 10 then none else if is_space c then rest else some (c ∷ cs)

abbrev pub is_digit : ℕ → Bool
is_digit c = leb b'0' c && leb c b'9'

-- The number that the digits at the beginning make, after the number of those before.
unfoldable pub digits_value : ℕ → List ℕ → ℕ
digits_value before [] = before
digits_value before (c ∷ cs) =
    let more = digits_value (before * 10 + (c - b'0')) cs in if is_digit c then more else before

-- What is left after the digits at the beginning.
unfoldable pub drop_digits : List ℕ → List ℕ
drop_digits [] = []
drop_digits (c ∷ cs) = let rest = drop_digits cs in if is_digit c then rest else c ∷ cs

-- A value that does not fit the type is an error.
abbrev pub in_uint32 : ℕ → Option ℕ
in_uint32 n = if ltb n (2 ^ 32) then some n else none

-- One digit is needed, and what follows the digits is not read.
unfoldable pub number : List ℕ → Option ℕ
unfolding digits_value
number [] = none
number (c ∷ cs) = if is_digit c then in_uint32 (digits_value 0 (c ∷ cs)) else none

abbrev pub number_after : Option (List ℕ) → Option ℕ
number_after none = none
number_after (some rest) = number rest

unfoldable pub sscan_uint32 : List ℕ → Option ℕ
unfolding skip_space
sscan_uint32 cs = number_after (skip_space cs)
