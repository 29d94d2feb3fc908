-- ===== src/ServeMux.antt =====
-- net/http's ServeMux, as internal/httphandler/httphandler.go uses it: a parameter, with what its
-- documentation says of patterns without a wildcard, a method or a host.
use code_vald_org.Prelude.{
  ℕ, String, ◌==◌, ◌≡◌, Bool, true, false, not, ◌&&◌, ◌||◌, Option, none, some, List, [], ◌∷◌, all,
  any, map, leb, nat_eq, if◌then◌else◌,
}
use code_vald_org.Manager.Scopes.Grammar.{codes}

pub record ServeMux (H Response : Type 0) : Type 1 where
  pub Table : Type 0
  -- `http.NewServeMux()`
  pub new_table : Table
  -- `HandleFunc`: nothing where it panics.
  pub handle_func : String → H → Table → Option Table
  -- The handler of the pattern that the path of a request matches.
  pub route : Table → String → Option H
  -- What is answered where no pattern matches: that nothing is found, or a redirection.
  pub unmatched : Table → String → Response

-- A letter, a digit, `-` or `_`.
unfoldable pub is_plain : ℕ → Bool
is_plain c =
    (leb b'a' c && leb c b'z')
    || (leb b'A' c && leb c b'Z')
    || (leb b'0' c && leb c b'9')
    || nat_eq c b'-'
    || nat_eq c b'_'

-- What follows a character of a path: segments of plain characters, before which one dot may stand.
unfoldable pub literal_from : ℕ → List ℕ → Bool
literal_from prev [] = is_plain prev
literal_from prev (c ∷ cs) =
    (is_plain c || (nat_eq c b'/' && is_plain prev) || (nat_eq c b'.' && nat_eq prev b'/'))
    && literal_from c cs

-- A path of such segments: it is clean, and as a pattern it has no wildcard and does not end in `/`.
abbrev pub is_literal : List ℕ → Bool
is_literal [] = false
is_literal (c ∷ cs) = nat_eq c b'/' && literal_from b'/' cs

-- One segment of plain characters.
abbrev pub is_segment : List ℕ → Bool
is_segment [] = false
is_segment (c ∷ cs) = is_plain c && all is_plain cs

unfoldable pub distinct : List String → Bool
distinct [] = true
distinct (p ∷ ps) = not (any (λ q. q == p) ps) && distinct ps

-- The handler of the pattern that is the path itself.
unfoldable pub first_match : {H : Type 0} → List (String × H) → String → Option H
first_match [] path = none
first_match ((pattern_, h) ∷ more) path =
    let rest = first_match more path in if path == pattern_ then some h else rest

module _ {H Response : Type 0} where
  -- The patterns are registered in turn.
  unfoldable pub handle_all :
      (M : ServeMux H Response) → List (String × H) → M.Table → Option M.Table
  handle_all M [] t = some t
  handle_all M ((pattern_, h) ∷ more) t = elim (M.handle_func pattern_ h t) [
    | none ↦ none
    | some t' ↦ handle_all M more t'
  ]

  -- Literal patterns, no two the same, are registered in a new table without a panic, and a literal
  -- path is matched by the pattern that is the path itself and by no other.
  pub record IsServeMux (M : ServeMux H Response) : Type 0 where
    pub handle_all-first_match :
        (ps : List (String × H))
        → all (λ (p : String × H). is_literal (codes p.0)) ps ≡ true
        → distinct (map (λ (p : String × H). p.0) ps) ≡ true
        → (t : M.Table) × (handle_all M ps M.new_table ≡ some t)
          × ((path : String)
              → is_literal (codes path) ≡ true
              → M.route t path ≡ first_match ps path)
