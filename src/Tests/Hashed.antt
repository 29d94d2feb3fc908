-- ===== src/Tests/Hashed.antt =====
-- The hash of a password at a concrete input, in an environment whose Argon2 and random source
-- return as many bytes as asked for.
use code_vald_org.Prelude.{
  ℕ, zero, suc, ◌+◌, ◌%◌, ◌<◌, String, ◌≡◌, refl, subst, true, length, all, arith,
}
use code_vald_org.Effects.{ok, pure, ◌>>=◌}
use code_vald_org.Crypto.{encode, decimal_from, hash_argon2id}
use code_vald_org.Crypto.Decoded.{is_byte}
use code_vald_org.Crypto.Phc.{compared, verify_argon2id}
use code_vald_org.Crypto.Verified.{IsDocumented, verify_argon2id-hash}
use code_vald_org.Store.Memory.{memory, repeat}
use code_vald_org.Tests.Data.{empty}

length-repeat : (n b : ℕ) → length (repeat n b) ≡ n
length-repeat zero b = refl
length-repeat (suc n) b = omega (arith, length-repeat n b)

bytes-repeat : (n b : ℕ) → b < 256 → all is_byte (repeat n b) ≡ true
bytes-repeat zero b h = refl
bytes-repeat (suc n) b h = ground (arith, bytes-repeat n b)

memory-IsDocumented : IsDocumented memory
memory-IsDocumented = record {
  length-argon2_id_key = λ password salt t m p n. length-repeat n ((t + m + p) % 256);
  argon2_id_key-bytes = λ password salt t m p n. bytes-repeat n ((t + m + p) % 256) (omega arith);
  rand_read-bytes = λ n w bs e.
      let same : repeat n (w.clock % 256) ≡ bs = cc in
      subst (λ x. all is_byte x ≡ true) same (bytes-repeat n (w.clock % 256) (omega arith));
}

abbrev phc : String
phc =
    "$argon2id$v=19$m=65536,t=3,p=4$ZGRkZGRkZGRkZGRkZGRkZA$BwcHBwcHBwcHBwcHBwcHBwcHBwcHBwcHBwcHBwcHBwc"

hashed_run : (hash_argon2id memory "secret" 3 65536 4 empty).0 ≡ ok phc
unfolding hash_argon2id ◌>>=◌ pure encode decimal_from
hashed_run = refl

verify_argon2id-hash_example : verify_argon2id memory "secret" phc ≡ compared true
verify_argon2id-hash_example =
    verify_argon2id-hash memory memory-IsDocumented "secret" 3 65536 4 empty phc (omega arith)
      (omega arith) (omega arith) (omega arith) (omega arith) hashed_run
