-- ===== src/Crypto/Verified.antt =====
-- crypto.go: verifyArgon2id accepts the password of which hashArgon2id made the text.
use Prim.Native.Char.{Char, code}
use Prim.Native.String.append
use text.Mathlib.TextLemmas.{append_assoc}
use code_vald_org.Prelude.{
  ◌≤◌, ℕ, suc, ◌%◌, ◌^◌, ◌<◌, String, ◌<>◌, ◌≡◌, refl, ◌∙◌, ap, sym, Bool, true, false, not, List,
  [], ◌∷◌, all, length, nat_eq, arith,
}
use code_vald_org.Effects.{Env, Result, ok, err, pure, proceed, ◌>>=◌}
use code_vald_org.Manager.Scopes.Grammar.{codes}
use code_vald_org.Configuration.Scan.{is_digit}
use code_vald_org.Configuration.Text.{onto_first, split}
use code_vald_org.Configuration.Numbers.{codes-append}
use code_vald_org.Crypto.{std_alphabet, encode, decimal, hash_argon2id}
use code_vald_org.Crypto.Decoded.{is_byte, Spells-encode, decode-encode}
use code_vald_org.Crypto.Phc.{
  compared, bytes_eq, with_hash, with_salt, with_params, of_parts, verify_argon2id,
}
use code_vald_org.Crypto.Scanned.{
  all-append, all_weaker, decimal_digits, params, scan_params-params,
}

abbrev no_dollar : String → Bool
no_dollar s = all (λ c. not (nat_eq c 36)) (codes s)

split-dollar : (s : String) → split 36 ("$" <> s) ≡ "" ∷ split 36 s
unfolding split
split-dollar s =
    ap (split 36)
      (append.cons (Char.char 36 tt) String.[] s ∙ ap (String.◌∷◌ (Char.char 36 tt)) (append.nil s))

-- A text without a `$` before one is a part.
split-part :
    (s rest : String) → no_dollar s ≡ true → split 36 (s <> ("$" <> rest)) ≡ s ∷ split 36 rest
unfolding split
split-part String.[] rest h = ap (split 36) (append.nil ("$" <> rest)) ∙ split-dollar rest
split-part (String.◌∷◌ c s) rest h =
    let e : nat_eq (code c) 36 ≡ false = ground arith in
    ap (split 36) (append.cons c s ("$" <> rest))
    ∙ rw e (ap (onto_first c) (split-part s rest (ground arith)))

split-whole : (s : String) → no_dollar s ≡ true → split 36 s ≡ s ∷ []
unfolding split
split-whole String.[] h = refl
split-whole (String.◌∷◌ c s) h =
    let e : nat_eq (code c) 36 ≡ false = ground arith in
    rw e (ap (onto_first c) (split-whole s (ground arith)))

-- The text that `hashArgon2id` returns for a salt and a hash in base64.
abbrev phc_text : (m t p : ℕ) → (salt hash : String) → String
phc_text m t p salt hash =
    "$argon2id$v=19$m="
    <> decimal m
    <> ",t="
    <> decimal t
    <> ",p="
    <> decimal p
    <> "$"
    <> salt
    <> "$"
    <> hash

beginning :
    (rest : String)
    → "$argon2id$v=19$m=" <> rest
      ≡ "" <> ("$" <> ("argon2id" <> ("$" <> ("v=19" <> ("$" <> ("m=" <> rest))))))
beginning rest =
    append_assoc "$" "argon2id$v=19$m=" rest
    ∙ ap (λ x. "$" <> x)
        (append_assoc "argon2id" "$v=19$m=" rest
          ∙ ap (λ x. "argon2id" <> x)
              (append_assoc "$" "v=19$m=" rest
                ∙ ap (λ x. "$" <> x)
                    (append_assoc "v=19" "$m=" rest
                      ∙ ap (λ x. "v=19" <> x) (append_assoc "$" "m=" rest))))
    ∙ sym (append.nil _)

params_first :
    (m t p : ℕ) (rest : String)
    → params m t p <> rest ≡ "m=" <> decimal m <> ",t=" <> decimal t <> ",p=" <> decimal p <> rest
params_first m t p rest = simp append_assoc

split-phc :
    (m t p : ℕ) (salt hash : String)
    → no_dollar (params m t p) ≡ true
    → no_dollar salt ≡ true
    → no_dollar hash ≡ true
    → split 36 (phc_text m t p salt hash)
      ≡ "" ∷ "argon2id" ∷ "v=19" ∷ params m t p ∷ salt ∷ hash ∷ []
split-phc m t p salt hash hp hs hh =
    ap (split 36) (beginning _)
    ∙ split-part "" _ refl
    ∙ ap (λ x. "" ∷ x)
        (split-part "argon2id" _ refl
          ∙ ap (λ x. "argon2id" ∷ x)
              (split-part "v=19" _ refl
                ∙ ap (λ x. "v=19" ∷ x)
                    (ap (split 36) (sym (params_first m t p ("$" <> (salt <> ("$" <> hash)))))
                      ∙ split-part (params m t p) _ hp
                      ∙ ap (λ x. params m t p ∷ x)
                          (split-part salt hash hs ∙ ap (λ x. salt ∷ x) (split-whole hash hh)))))

no_dollar-append :
    (s t : String) → no_dollar s ≡ true → no_dollar t ≡ true → no_dollar (s <> t) ≡ true
no_dollar-append s t h k = rw (codes-append s t) (all-append _ (codes s) (codes t) h k)

no_dollar-decimal : (n : ℕ) → no_dollar (decimal n) ≡ true
no_dollar-decimal n =
    all_weaker is_digit (λ c. not (nat_eq c 36)) (codes (decimal n)) (λ c d. ground arith)
      (decimal_digits (suc n) n)

no_dollar-params : (m t p : ℕ) → no_dollar (params m t p) ≡ true
no_dollar-params m t p =
    let threads = ",p=" <> decimal p in
    let time = ",t=" <> decimal t <> threads in
    no_dollar-append "m=" (decimal m <> time) refl (
      no_dollar-append (decimal m) time (no_dollar-decimal m) (
        no_dollar-append ",t=" (decimal t <> threads) refl (
          no_dollar-append (decimal t) threads (no_dollar-decimal t)
            (no_dollar-append ",p=" (decimal p) refl (no_dollar-decimal p)))))

bytes_eq_refl : (bs : List ℕ) → bytes_eq bs bs ≡ true
bytes_eq_refl [] = refl
bytes_eq_refl (b ∷ bs) = ground (arith, bytes_eq_refl bs)

-- Of the packages that it calls: Argon2 returns as many bytes as it is asked for, and the random
-- source bytes.
pub record IsDocumented (E : Env) : Type 0 where
  pub length-argon2_id_key :
      (password : String) (salt : List ℕ) (t m p n : ℕ)
      → length (E.argon2_id_key password salt t m p n) ≡ n
  pub argon2_id_key-bytes :
      (password : String) (salt : List ℕ) (t m p n : ℕ)
      → all is_byte (E.argon2_id_key password salt t m p n) ≡ true
  pub rand_read-bytes :
      (n : ℕ) (w : E.World) (bs : List ℕ) → (E.rand_read n w).0 ≡ ok bs → all is_byte bs ≡ true

module _ (E : Env) (D : IsDocumented E) (password : String) (t m p : ℕ) where
  abbrev text_of : List ℕ → String
  text_of salt =
      phc_text m t p (encode std_alphabet salt)
        (encode std_alphabet (E.argon2_id_key password salt t m p 32))

  hashed_salt :
      (r : Result (List ℕ)) (w : E.World) (phc : String)
      → (proceed r (λ salt. pure (text_of salt)) w).0 ≡ ok phc
      → (salt : List ℕ) × (r ≡ ok salt) × (phc ≡ text_of salt)
  unfolding pure
  hashed_salt (err e) w phc h = cc
  hashed_salt (ok salt) w phc h = (salt, refl, cc)

  verified :
      (salt : List ℕ)
      → 1 ≤ t
      → t < 2 ^ 32
      → m < 2 ^ 32
      → 1 ≤ p
      → p < 2 ^ 8
      → all is_byte salt ≡ true
      → verify_argon2id E password (text_of salt) ≡ compared true
  unfolding verify_argon2id
  verified salt t1 ht hm p1 hp bytes =
      let key = E.argon2_id_key password salt t m p 32 in
      let e : p % 2 ^ 8 ≡ p = omega arith in
      let t_set : nat_eq t 0 ≡ false = ground arith in
      let p_set : nat_eq p 0 ≡ false = ground arith in
      ap (of_parts E password) (
        split-phc m t p (encode std_alphabet salt) (encode std_alphabet key)
          (no_dollar-params m t p) (Spells-encode salt bytes).no_dollar
          (Spells-encode key (D.argon2_id_key-bytes password salt t m p 32)).no_dollar)
      ∙ ap (λ x. with_params E password x (encode std_alphabet salt) (encode std_alphabet key))
          (scan_params-params m t p hm ht (omega arith))
      ∙ ap (λ x. with_salt E password m t p x (encode std_alphabet key)) (decode-encode salt bytes)
      ∙ ap (with_hash E password m t p salt)
          (decode-encode key (D.argon2_id_key-bytes password salt t m p 32))
      ∙ rw (e, t_set, p_set, D.length-argon2_id_key password salt t m p 32)
          (ap compared (bytes_eq_refl key))

  -- Where time and threads are at least 1 (Argon2 panics otherwise, when the password is hashed), time
  -- and memory fit 32 bits and the threads 8, Argon2 returns as many bytes as asked for
  -- and the random source bytes: verifyArgon2id accepts the password for any text that hashArgon2id
  -- returned of it, under whatever salt.
  pub verify_argon2id-hash :
      (w : E.World) (phc : String)
      → 1 ≤ t
      → t < 2 ^ 32
      → m < 2 ^ 32
      → 1 ≤ p
      → p < 2 ^ 8
      → (hash_argon2id E password t m p w).0 ≡ ok phc
      → verify_argon2id E password phc ≡ compared true
  unfolding hash_argon2id ◌>>=◌
  verify_argon2id-hash w phc t1 ht hm p1 hp h =
      let (salt, read, e) = hashed_salt (E.rand_read 16 w).0 _ phc h in
      ap (verify_argon2id E password) e
      ∙ verified salt t1 ht hm p1 hp (D.rand_read-bytes 16 w salt read)
