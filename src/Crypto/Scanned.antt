-- ===== src/Crypto/Scanned.antt =====
-- fmt.Sscanf of the parameters of a PHC text: the three numbers that were printed are read back.
use code_vald_org.Prelude.{
  ℕ, zero, suc, ◌+◌, ◌/◌, ◌%◌, ◌^◌, ◌<◌, String, ◌<>◌, ◌≡◌, refl, ◌∙◌, ap, sym, Bool, true, false,
  not, some, List, [], ◌∷◌, ◌++◌, all, ltb, Bool-cases, inl, inr, arith,
}
use mathlib.Core.List.{append-nil}
use code_vald_org.Manager.Scopes.Grammar.{codes}
use code_vald_org.Configuration.Scan.{is_digit, digits_value, drop_digits}
use code_vald_org.Configuration.Numbers.{
  codes-append, decimal_small, decimal_large, digits_value-decimal, first_digit, skip_space-digit,
  number-digit,
}
use code_vald_org.Crypto.{decimal, decimal_from}
use code_vald_org.Crypto.Phc.{scan_verb, scan_params}

pub all-append :
    (p : ℕ → Bool) (xs ys : List ℕ) → all p xs ≡ true → all p ys ≡ true → all p (xs ++ ys) ≡ true
all-append p [] ys h k = k
all-append p (x ∷ xs) ys h k = ground (arith, all-append p xs ys)

pub all_weaker :
    (p q : ℕ → Bool) (xs : List ℕ)
    → ((x : ℕ) → p x ≡ true → q x ≡ true)
    → all p xs ≡ true
    → all q xs ≡ true
all_weaker p q [] w h = refl
all_weaker p q (x ∷ xs) w h = ground (arith, w x, all_weaker p q xs w)

-- A number is printed in digits.
pub decimal_digits : (fuel n : ℕ) → all is_digit (codes (decimal_from fuel n)) ≡ true
unfolding decimal_from
decimal_digits zero n = refl
decimal_digits (suc fuel) n = elim (Bool-cases (ltb n 10)) [
  | inl small ↦ rw (decimal_small fuel n small) (ground arith)
  | inr large ↦ rw (decimal_large fuel n large) (
      all-append is_digit (codes (decimal_from fuel (n / 10))) ((48 + n % 10) ∷ [])
        (decimal_digits fuel (n / 10)) (ground arith))
]

abbrev pub stops : List ℕ → Bool
stops [] = true
stops (c ∷ cs) = not (is_digit c)

drop_digits-stops : (rest : List ℕ) → stops rest ≡ true → drop_digits rest ≡ rest
unfolding drop_digits
drop_digits-stops [] h = refl
drop_digits-stops (c ∷ rest) h = let e : is_digit c ≡ false = ground arith in rw e refl

drop_digits-append :
    (ds rest : List ℕ)
    → all is_digit ds ≡ true
    → stops rest ≡ true
    → drop_digits (ds ++ rest) ≡ rest
unfolding drop_digits
drop_digits-append [] rest h k = drop_digits-stops rest k
drop_digits-append (d ∷ ds) rest h k =
    let e : is_digit d ≡ true = ground arith in rw e (drop_digits-append ds rest (ground arith) k)

digits_value-stops : (n : ℕ) (rest : List ℕ) → stops rest ≡ true → digits_value n rest ≡ n
unfolding digits_value
digits_value-stops n [] h = refl
digits_value-stops n (c ∷ rest) h = let e : is_digit c ≡ false = ground arith in rw e refl

-- The verb at digits: what is read, and what is left.
verb-digit :
    (c : ℕ) (cs : List ℕ) (n : ℕ)
    → is_digit c ≡ true
    → digits_value 0 (c ∷ cs) ≡ n
    → n < 2 ^ 32
    → scan_verb (c ∷ cs) ≡ some (n, drop_digits (c ∷ cs))
unfolding scan_verb
verb-digit c cs n d v h =
    rw (skip_space-digit c cs d) (rw (number-digit c cs d (omega (arith, v))) (rw v refl))

-- The verb `%d` reads a printed number and stops at what follows it.
pub scan_verb-decimal :
    (n : ℕ) (rest : List ℕ)
    → n < 2 ^ 32
    → stops rest ≡ true
    → scan_verb (codes (decimal n) ++ rest) ≡ some (n, rest)
scan_verb-decimal n rest h k =
    let (c, r, e, d) = first_digit (suc n) n (omega arith) in
    let s : codes (decimal n) ++ rest ≡ c ∷ (r ++ rest) = ap (λ t. t ++ rest) e in
    let v : digits_value 0 (c ∷ (r ++ rest)) ≡ n =
      ap (digits_value 0) (sym s)
      ∙ digits_value-decimal (suc n) n rest (omega arith)
      ∙ digits_value-stops n rest k in
    ap scan_verb s
    ∙ verb-digit c (r ++ rest) n d v h
    ∙ ap (λ t. some (n, drop_digits t)) (sym s)
    ∙ ap (λ t. some (n, t))
        (drop_digits-append (codes (decimal n)) rest (decimal_digits (suc n) n) k)

-- The text that `Sprintf` makes of the three parameters.
abbrev pub params : (m t p : ℕ) → String
params m t p = "m=" <> decimal m <> ",t=" <> decimal t <> ",p=" <> decimal p

codes-params :
    (m t p : ℕ)
    → codes (params m t p)
      ≡ b'm'
        ∷ b'='
        ∷ (codes (decimal m)
            ++ (b','
                ∷ b't'
                ∷ b'='
                ∷ (codes (decimal t) ++ (b',' ∷ b'p' ∷ b'=' ∷ (codes (decimal p) ++ [])))))
codes-params m t p =
    codes-append "m=" _
    ∙ ap (λ x. b'm' ∷ b'=' ∷ x)
        (codes-append (decimal m) _
          ∙ ap (λ x. codes (decimal m) ++ x)
              (codes-append ",t=" _
                ∙ ap (λ x. b',' ∷ b't' ∷ b'=' ∷ x)
                    (codes-append (decimal t) _
                      ∙ ap (λ x. codes (decimal t) ++ x)
                          (codes-append ",p=" _
                            ∙ ap (λ x. b',' ∷ b'p' ∷ b'=' ∷ x)
                                (sym (append-nil (codes (decimal p))))))))

pub scan_params-params :
    (m t p : ℕ)
    → m < 2 ^ 32
    → t < 2 ^ 32
    → p < 2 ^ 32
    → scan_params (codes (params m t p)) ≡ some (m, t, p)
unfolding scan_params
scan_params-params m t p hm ht hp =
    ap scan_params (codes-params m t p)
    ∙ rw (scan_verb-decimal m _ hm refl)
        (rw (scan_verb-decimal t _ ht refl) (rw (scan_verb-decimal p [] hp refl) refl))
