-- ===== src/Configuration/Numbers.antt =====
-- config.parseUint32: a number that is written in decimal is read back.
use Prim.Native.Char.{code}
use Prim.Native.String.{slice}
use Prim.Native.String.append
use code_vald_org.Prelude.{
  ℕ, zero, suc, ◌+◌, ◌*◌, ◌-◌, ◌/◌, ◌%◌, ◌^◌, ◌<◌, String, ◌<>◌, ◌==◌, ◌≡◌, refl, sym, ap, ◌∙◌,
  Bool, true, false, some, List, [], ◌∷◌, ◌++◌, arith, ltb, Bool-cases, all_below-at, eq_iff,
  nat_eq, inl, inr,
}
use mathlib.Core.List.{append_assoc, append-nil}
use code_vald_org.Crypto.{decimal, decimal_from}
use code_vald_org.Manager.Scopes.Grammar.{codes}
use code_vald_org.Configuration.{Environ, getenv, parse_uint32}
use code_vald_org.Configuration.Scan.{
  is_space, skip_space, is_digit, digits_value, number_after, number, sscan_uint32,
}

pub codes-append : (s t : String) → codes (s <> t) ≡ codes s ++ codes t
codes-append String.[] t = ap codes (append.nil t)
codes-append (String.◌∷◌ c s) t =
    ap codes (append.cons c s t) ∙ ap (λ r. code c ∷ r) (codes-append s t)

abbrev is_code : ℕ → List ℕ → Bool
is_code n [] = false
is_code n (c ∷ []) = nat_eq c n
is_code n (c ∷ d ∷ cs) = false

code_of : (n : ℕ) (cs : List ℕ) → is_code n cs ≡ true → cs ≡ n ∷ []
code_of n [] h = cc
code_of n (c ∷ []) h = let e : c ≡ n = ground arith in rw e refl
code_of n (c ∷ d ∷ cs) h = cc

-- The character of a digit.
pub codes-digit : (k : ℕ) → k < 10 → codes (slice "0123456789" k (k + 1)) ≡ (48 + k) ∷ []
codes-digit k h =
    code_of (48 + k) _
      (all_below-at (λ k. is_code (48 + k) (codes (slice "0123456789" k (k + 1)))) 10 k refl h)

pub decimal_small :
    (fuel n : ℕ) → ltb n 10 ≡ true → codes (decimal_from (suc fuel) n) ≡ (48 + n) ∷ []
unfolding decimal_from
decimal_small fuel n small =
    let e : n % 10 ≡ n = ground arith in rw (small, e) (codes-digit n (ground arith))

pub decimal_large :
    (fuel n : ℕ)
    → ltb n 10 ≡ false
    → codes (decimal_from (suc fuel) n) ≡ codes (decimal_from fuel (n / 10)) ++ ((48 + n % 10) ∷ [])
unfolding decimal_from
decimal_large fuel n large = rw large (
    codes-append (decimal_from fuel (n / 10)) _
    ∙ ap (λ t. codes (decimal_from fuel (n / 10)) ++ t) (codes-digit (n % 10) (omega arith)))

digits_value-digit :
    (before d : ℕ) (out : List ℕ)
    → d < 10
    → digits_value before ((48 + d) ∷ out) ≡ digits_value (before * 10 + d) out
unfolding digits_value
digits_value-digit before d out h =
    let e : is_digit (48 + d) ≡ true = ground arith in
    let v : (48 + d) - 48 ≡ d = omega arith in rw (e, v) refl

-- Reading the decimal text of a number, and what follows it, gives the number so far.
pub digits_value-decimal :
    (fuel n : ℕ) (out : List ℕ)
    → n < fuel
    → digits_value 0 (codes (decimal_from fuel n) ++ out) ≡ digits_value n out
digits_value-decimal zero n out h = absurd (omega arith)
digits_value-decimal (suc fuel) n out h = elim (Bool-cases (ltb n 10)) [
  | inl small ↦
      let v : 0 * 10 + n ≡ n = omega arith in
      ap (λ t. digits_value 0 (t ++ out)) (decimal_small fuel n small)
      ∙ digits_value-digit 0 n out (ground arith)
      ∙ ap (λ v. digits_value v out) v
  | inr large ↦
      let m : n / 10 * 10 + n % 10 ≡ n = omega arith in
      ap (λ t. digits_value 0 (t ++ out)) (decimal_large fuel n large)
      ∙ ap (digits_value 0) (append_assoc (codes (decimal_from fuel (n / 10))) _ out)
      ∙ digits_value-decimal fuel (n / 10) ((48 + n % 10) ∷ out) (ground arith)
      ∙ digits_value-digit (n / 10) (n % 10) out (omega arith)
      ∙ ap (λ v. digits_value v out) m
]

abbrev pub StartsWithDigit : List ℕ → Type 0
StartsWithDigit cs = (c : ℕ) × (rest : List ℕ) × (cs ≡ c ∷ rest) × (is_digit c ≡ true)

pub first_digit : (fuel n : ℕ) → n < fuel → StartsWithDigit (codes (decimal_from fuel n))
first_digit zero n h = absurd (omega arith)
first_digit (suc fuel) n h = elim (Bool-cases (ltb n 10)) [
  | inl small ↦ (48 + n, [], decimal_small fuel n small, ground arith)
  | inr large ↦
      let (c, rest, e, d) = first_digit fuel (n / 10) (ground arith) in
      (
        c,
        rest ++ ((48 + n % 10) ∷ []),
        decimal_large fuel n large ∙ ap (λ t. t ++ ((48 + n % 10) ∷ [])) e,
        d,
      )
]

-- No digit is white space.
pub skip_space-digit :
    (c : ℕ) (rest : List ℕ) → is_digit c ≡ true → skip_space (c ∷ rest) ≡ some (c ∷ rest)
unfolding skip_space is_space
skip_space-digit c rest d = ground arith

pub number-digit :
    (c : ℕ) (rest : List ℕ)
    → is_digit c ≡ true
    → digits_value 0 (c ∷ rest) < 2 ^ 32
    → number (c ∷ rest) ≡ some (digits_value 0 (c ∷ rest))
unfolding number
number-digit c rest d fits = ground (arith, d)

sscan-digit :
    (c : ℕ) (rest : List ℕ)
    → is_digit c ≡ true
    → digits_value 0 (c ∷ rest) < 2 ^ 32
    → sscan_uint32 (c ∷ rest) ≡ some (digits_value 0 (c ∷ rest))
unfolding sscan_uint32
sscan-digit c rest d fits = ap number_after (skip_space-digit c rest d) ∙ number-digit c rest d fits

digits_value-whole : (n : ℕ) → digits_value 0 (codes (decimal n)) ≡ n
unfolding digits_value
digits_value-whole n =
    ap (digits_value 0) (sym (append-nil (codes (decimal n))))
    ∙ digits_value-decimal (suc n) n [] (omega arith)

pub sscan-decimal : (n : ℕ) → n < 2 ^ 32 → sscan_uint32 (codes (decimal n)) ≡ some n
sscan-decimal n h =
    let (c, rest, e, d) = first_digit (suc n) n (omega arith) in
    let v : digits_value 0 (c ∷ rest) ≡ n = ap (digits_value 0) (sym e) ∙ digits_value-whole n in
    ap sscan_uint32 e ∙ sscan-digit c rest d (omega (arith, v)) ∙ ap some v

decimal_nonempty : (n : ℕ) → (decimal n == "") ≡ false
decimal_nonempty n = elim (Bool-cases (decimal n == "")) [
  | inl empty ↦
      let (c, rest, e, d) = first_digit (suc n) n (omega arith) in
      let t : codes (decimal n) ≡ [] = ap codes ((eq_iff _ _).0 empty) in cc
  | inr other ↦ other
]

-- A variable that holds a number below 2^32 in decimal digits is read as that number, whatever the
-- default.
pub parse_uint32-decimal :
    (env : Environ) (key : String) (def n : ℕ)
    → n < 2 ^ 32
    → getenv env key ≡ decimal n
    → parse_uint32 env key def ≡ n
unfolding parse_uint32
parse_uint32-decimal env key def n h e =
    let t : (getenv env key == "") ≡ false = rw e (decimal_nonempty n) in
    rw (t, e, sscan-decimal n h) refl
