-- ===== src/Manager/Scopes/Names.antt =====
-- roles_scopes.go: which names the regular expression of scopes accepts, and what the first part of
-- a name is.
use code_vald_org.Prelude.{
  ℕ, zero, suc, ◌≤◌, ◌≡◌, refl, true, false, List, [], ◌∷◌, ◌++◌, all, length, nat_eq, arith, ◌↔◌,
  ap, Bool-cases, inl, inr,
}
use code_vald_org.Manager.Scopes.Grammar.{
  is_word, matches_words, matches_action, matches_service, matches_scope,
}

-- `service:action`, both parts of word characters, of 1 to 20 and of 1 to 28 of them.
abbrev pub IsScopeName : List ℕ → Type 0
IsScopeName name =
    (service : List ℕ) × (action : List ℕ) × (name ≡ service ++ (b':' ∷ action))
    × (all is_word service ≡ true)
    × (1 ≤ length service)
    × (length service ≤ 20)
    × (all is_word action ≡ true)
    × (1 ≤ length action)
    × (length action ≤ 28)

words_sound :
    (n : ℕ) (cs : List ℕ) → matches_words n cs ≡ true → (all is_word cs ≡ true) × (length cs ≤ n)
unfolding matches_words
words_sound n [] h = (refl, omega arith)
words_sound zero (c ∷ cs) h = cc
words_sound (suc n) (c ∷ cs) h =
    let r = words_sound n cs (ground arith) in (ground (arith, r.0), omega (arith, r.1))

words_complete :
    (n : ℕ) (cs : List ℕ) → all is_word cs ≡ true → length cs ≤ n → matches_words n cs ≡ true
unfolding matches_words
words_complete n [] h l = refl
words_complete zero (c ∷ cs) h l = absurd (omega arith)
words_complete (suc n) (c ∷ cs) h l =
    ground (arith, words_complete n cs (ground arith) (omega arith))

action_sound :
    (cs : List ℕ)
    → matches_action cs ≡ true
    → (all is_word cs ≡ true) × (1 ≤ length cs) × (length cs ≤ 28)
unfolding matches_action
action_sound [] h = cc
action_sound (c ∷ cs) h =
    let r = words_sound 27 cs (ground arith) in
    (ground (arith, r.0), omega arith, omega (arith, r.1))

action_complete :
    (cs : List ℕ)
    → all is_word cs ≡ true
    → 1 ≤ length cs
    → length cs ≤ 28
    → matches_action cs ≡ true
unfolding matches_action
action_complete [] h l u = absurd (omega arith)
action_complete (c ∷ cs) h l u = ground (arith, words_complete 27 cs (ground arith) (omega arith))

-- What is left of a name after part of the service name was read.
abbrev IsRest : ℕ → List ℕ → Type 0
IsRest n cs =
    (service : List ℕ) × (action : List ℕ) × (cs ≡ service ++ (b':' ∷ action))
    × (all is_word service ≡ true)
    × (length service ≤ n)
    × (all is_word action ≡ true)
    × (1 ≤ length action)
    × (length action ≤ 28)

IsRest-colon :
    (n c : ℕ) (cs : List ℕ) → nat_eq c b':' ≡ true → matches_action cs ≡ true → IsRest n (c ∷ cs)
IsRest-colon n c cs e h =
    let r = action_sound cs h in
    ([], cs, ap (λ (d : ℕ). d ∷ cs) (ground arith), refl, omega arith, r.0, r.1, r.2)

IsRest-word : (n c : ℕ) (cs : List ℕ) → is_word c ≡ true → IsRest n cs → IsRest (suc n) (c ∷ cs)
IsRest-word n c cs word (service, action, e, ws, l, av, p, u) =
    (c ∷ service, action, ap (λ (ds : List ℕ). c ∷ ds) e, ground arith, omega arith, av, p, u)

service_sound : (n : ℕ) (cs : List ℕ) → matches_service n cs ≡ true → IsRest n cs
unfolding matches_service
service_sound n [] h = cc
service_sound zero (c ∷ cs) h = IsRest-colon zero c cs (ground arith) (ground arith)
service_sound (suc n) (c ∷ cs) h = elim (Bool-cases (nat_eq c b':')) [
  | inl colon ↦ IsRest-colon (suc n) c cs colon (ground arith)
  | inr other_ ↦ IsRest-word n c cs (ground arith) (service_sound n cs (ground arith))
]

word_no_colon : (c : ℕ) → is_word c ≡ true → nat_eq c b':' ≡ false
unfolding is_word
word_no_colon c h = ground arith

service_complete :
    (n : ℕ) (service action : List ℕ)
    → all is_word service ≡ true
    → length service ≤ n
    → matches_action action ≡ true
    → matches_service n (service ++ (b':' ∷ action)) ≡ true
unfolding matches_service
service_complete zero [] action ws l h = h
service_complete (suc n) [] action ws l h = h
service_complete zero (c ∷ service) action ws l h = absurd (omega arith)
service_complete (suc n) (c ∷ service) action ws l h = ground (
  arith,
  word_no_colon c (ground arith),
  service_complete n service action (ground arith) (omega arith) h,
)

-- The regular expression accepts a name exactly if it is `service:action`, both parts of word
-- characters (a to z, 0 to 9, _), of 1 to 20 and of 1 to 28 of them.
pub matches_scope-IsScopeName : (cs : List ℕ) → (matches_scope cs ≡ true) ↔ IsScopeName cs
unfolding matches_scope
matches_scope-IsScopeName cs = (sound cs, λ h. complete cs h)
  where
    sound : (cs : List ℕ) → matches_scope cs ≡ true → IsScopeName cs
    sound [] h = cc
    sound (c ∷ cs) h =
        let (service, action, e, ws, l, av, p, u) = service_sound 19 cs (ground arith) in
        (
          c ∷ service,
          action,
          ap (λ (ds : List ℕ). c ∷ ds) e,
          ground arith,
          omega arith,
          omega arith,
          av,
          p,
          u,
        )

    complete : (cs : List ℕ) → IsScopeName cs → matches_scope cs ≡ true
    complete cs ([], action, e, ws, l, m, av, p, u) = absurd (omega arith)
    complete cs (c ∷ service, action, e, ws, l, m, av, p, u) = rw e (
        ground (
          arith,
          service_complete 19 service action (ground arith) (omega arith)
              (action_complete action av p u),
        ))
