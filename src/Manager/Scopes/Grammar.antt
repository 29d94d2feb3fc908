-- ===== src/Manager/Scopes/Grammar.antt =====
-- roles_scopes.go: the regular expression `^[a-z0-9_]{1,20}:[a-z0-9_]{1,28}$` and the first part of
-- `strings.SplitN(name, ":", 2)`. The expression reads characters; every one that it accepts is
-- ASCII.
use Prim.Native.Char.{code}
use code_vald_org.Prelude.{
  ℕ, zero, suc, String, Bool, true, false, ◌&&◌, ◌||◌, List, [], ◌∷◌, leb, nat_eq, if◌then◌else◌,
}

abbrev pub codes : String → List ℕ
codes String.[] = []
codes (String.◌∷◌ c s) = code c ∷ codes s

-- `[a-z0-9_]`
unfoldable pub is_word : ℕ → Bool
is_word c = (leb b'a' c && leb c b'z') || (leb b'0' c && leb c b'9') || nat_eq c b'_'

-- `[a-z0-9_]{0,n}$`
unfoldable pub matches_words : ℕ → List ℕ → Bool
matches_words n [] = true
matches_words zero (c ∷ cs) = false
matches_words (suc n) (c ∷ cs) = is_word c && matches_words n cs

-- `[a-z0-9_]{1,28}$`
unfoldable pub matches_action : List ℕ → Bool
unfolding matches_words
matches_action [] = false
matches_action (c ∷ cs) = is_word c && matches_words 27 cs

-- `[a-z0-9_]{0,n}:[a-z0-9_]{1,28}$`. No word character is a colon, so that a colon ends the first
-- part and nothing else does.
unfoldable pub matches_service : ℕ → List ℕ → Bool
unfolding matches_action
matches_service n [] = false
matches_service zero (c ∷ cs) = nat_eq c b':' && matches_action cs
matches_service (suc n) (c ∷ cs) =
    let rest = matches_service n cs in
    if nat_eq c b':' then matches_action cs else is_word c && rest

unfoldable pub matches_scope : List ℕ → Bool
unfolding matches_service is_word
matches_scope [] = false
matches_scope (c ∷ cs) = is_word c && matches_service 19 cs

-- `scopeGrammar.MatchString(name)`
unfoldable pub scope_grammar : String → Bool
unfolding matches_scope
scope_grammar name = matches_scope (codes name)

-- `strings.SplitN(name, ":", 2)[0]`
unfoldable pub before_colon : String → String
before_colon String.[] = String.[]
before_colon (String.◌∷◌ c s) =
    let rest = before_colon s in if nat_eq (code c) b':' then String.[] else String.◌∷◌ c rest
