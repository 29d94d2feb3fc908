-- ===== src/Crypto/Decoded.antt =====
-- base64.RawStdEncoding: what is encoded is decoded to the same bytes.
use code_vald_org.Prelude.{
  ℕ, ◌+◌, ◌*◌, ◌/◌, ◌%◌, ◌<◌, String, ◌<>◌, ◌≡◌, refl, ◌∙◌, ap, sym, subst, Bool, true, false, not,
  ◌&&◌, Option, none, some, List, [], ◌∷◌, ◌++◌, all, ltb, nat_eq, all_below-at, arith,
}
use code_vald_org.Manager.Scopes.Grammar.{codes}
use code_vald_org.Configuration.Numbers.{codes-append}
use code_vald_org.Crypto.{std_alphabet, digit, encode}
use code_vald_org.Crypto.Base64.{sextet, is_line_end, sextets, bytes_of, bytes_if, decode}

abbrev pub is_byte : ℕ → Bool
is_byte b = ltb b 256

-- The character of a value: it is read back as the value, and is no line end and no `$`.
pub record IsSymbol (v c : ℕ) : Type 0 where
  pub value : sextet c ≡ some v
  pub line_end : is_line_end c ≡ false
  pub dollar : nat_eq c 36 ≡ false

abbrev is_value : ℕ → Option ℕ → Bool
is_value v none = false
is_value v (some u) = nat_eq u v

abbrev is_symbol : ℕ → List ℕ → Bool
is_symbol v [] = false
is_symbol v (c ∷ []) = is_value v (sextet c) && not (is_line_end c) && not (nat_eq c 36)
is_symbol v (c ∷ d ∷ cs) = false

of_value : (v : ℕ) (o : Option ℕ) → is_value v o ≡ true → o ≡ some v
of_value v none h = cc
of_value v (some u) h = let e : u ≡ v = ground arith in ap some e

from_test : (v : ℕ) (cs : List ℕ) → is_symbol v cs ≡ true → (c : ℕ) × (cs ≡ c ∷ []) × IsSymbol v c
from_test v [] h = cc
from_test v (c ∷ []) h = (
  c,
  refl,
  record {
    value = of_value v (sextet c) (ground arith);
    line_end = ground arith;
    dollar = ground arith;
  },
)
from_test v (c ∷ d ∷ cs) h = cc

symbol : (v : ℕ) → v < 64 → (c : ℕ) × (codes (digit std_alphabet v) ≡ c ∷ []) × IsSymbol v c
symbol v h =
    from_test v _ (all_below-at (λ u. is_symbol u (codes (digit std_alphabet u))) 64 v refl h)

-- The values that `encode` writes.
abbrev values : List ℕ → List ℕ
values [] = []
values (a ∷ []) = (a / 4) ∷ (a % 4 * 16) ∷ []
values (a ∷ b ∷ []) = (a / 4) ∷ (a % 4 * 16 + b / 16) ∷ (b % 16 * 4) ∷ []
values (a ∷ b ∷ c ∷ rest) =
    (a / 4) ∷ (a % 4 * 16 + b / 16) ∷ (b % 16 * 4 + c / 64) ∷ (c % 64) ∷ values rest

-- A text whose characters are read as the values, none of them a `$`.
pub record Spells (cs vs : List ℕ) : Type 0 where
  pub values : sextets cs ≡ some vs
  pub no_dollar : all (λ c. not (nat_eq c 36)) cs ≡ true

Spells-nil : Spells [] []
unfolding sextets
Spells-nil = record { values = refl; no_dollar = refl }

sextets-symbol :
    (v c : ℕ) (cs vs : List ℕ)
    → IsSymbol v c
    → sextets cs ≡ some vs
    → sextets (c ∷ cs) ≡ some (v ∷ vs)
unfolding sextets
sextets-symbol v c cs vs s e = rw (s.line_end, s.value, e) refl

Spells-symbol :
    (v : ℕ) (s : String) (vs : List ℕ)
    → v < 64
    → Spells (codes s) vs
    → Spells (codes (digit std_alphabet v <> s)) (v ∷ vs)
Spells-symbol v s vs h rest =
    let (c, e, sym_) = symbol v h in
    let t : codes (digit std_alphabet v <> s) ≡ c ∷ codes s =
      codes-append (digit std_alphabet v) s ∙ ap (λ x. x ++ codes s) e in
    subst (λ x. Spells x (v ∷ vs)) (sym t)
      (record {
        values = sextets-symbol v c (codes s) vs sym_ rest.values;
        no_dollar = rw (sym_.dollar) rest.no_dollar;
      })

Spells-last : (v : ℕ) → v < 64 → Spells (codes (digit std_alphabet v)) (v ∷ [])
Spells-last v h =
    let (c, e, sym_) = symbol v h in
    subst (λ x. Spells x (v ∷ [])) (sym e)
      (record {
        values = sextets-symbol v c [] [] sym_ Spells-nil.values;
        no_dollar = rw (sym_.dollar) refl;
      })

pub Spells-encode :
    (bs : List ℕ) → all is_byte bs ≡ true → Spells (codes (encode std_alphabet bs)) (values bs)
unfolding encode
Spells-encode [] h = Spells-nil
Spells-encode (a ∷ []) h = Spells-symbol _ _ _ (ground arith) (Spells-last _ (omega arith))
Spells-encode (a ∷ b ∷ []) h =
    Spells-symbol _ _ _ (ground arith)
      (Spells-symbol _ _ _ (ground arith) (Spells-last _ (omega arith)))
Spells-encode (a ∷ b ∷ c ∷ rest) h = Spells-symbol _ _ _ (ground arith) (
    Spells-symbol _ _ _ (ground arith) (
      Spells-symbol _ _ _ (ground arith)
        (Spells-symbol _ _ _ (omega arith) (Spells-encode rest (ground arith)))))

bytes_of-values : (bs : List ℕ) → all is_byte bs ≡ true → bytes_of (values bs) ≡ some bs
unfolding bytes_of
bytes_of-values [] h = refl
bytes_of-values (a ∷ []) h = let e : a / 4 * 4 + a % 4 * 16 / 16 ≡ a = omega arith in rw e refl
bytes_of-values (a ∷ b ∷ []) h =
    let hb : b < 256 = ground arith in
    let e : a / 4 * 4 + (a % 4 * 16 + b / 16) / 16 ≡ a = omega arith in
    let f : (a % 4 * 16 + b / 16) % 16 * 16 + b % 16 * 4 / 4 ≡ b = omega arith in rw (e, f) refl
bytes_of-values (a ∷ b ∷ c ∷ rest) h =
    let hb : b < 256 = ground arith in
    let hc : c < 256 = ground arith in
    let e : a / 4 * 4 + (a % 4 * 16 + b / 16) / 16 ≡ a = omega arith in
    let f : (a % 4 * 16 + b / 16) % 16 * 16 + (b % 16 * 4 + c / 64) / 4 ≡ b = omega arith in
    let g : (b % 16 * 4 + c / 64) % 4 * 64 + c % 64 ≡ c = omega arith in
    rw (bytes_of-values rest (ground arith), e, f, g) refl

-- What `EncodeToString` writes of bytes, `DecodeString` reads back.
pub decode-encode :
    (bs : List ℕ) → all is_byte bs ≡ true → decode (codes (encode std_alphabet bs)) ≡ some bs
unfolding decode
decode-encode bs h = ap bytes_if (Spells-encode bs h).values ∙ bytes_of-values bs h
