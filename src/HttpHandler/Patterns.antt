-- ===== src/HttpHandler/Patterns.antt =====
-- httphandler.New: where the agency's id is a plain segment, the patterns are literal and distinct, and
-- each matches its own path.
use text.Mathlib.TextLemmas.{append_cancel_left}
use code_vald_org.Prelude.{
  ℕ, String, ◌<>◌, ◌==◌, ◌≡◌, refl, ◌∙◌, ap, true, false, eq_iff, eq_refl, Bool-cases, inl, inr,
  some, List, [], ◌∷◌, ◌++◌, all, any, map, nat_eq, arith,
}
use code_vald_org.Manager.Scopes.Grammar.{codes}
use code_vald_org.Configuration.Numbers.{codes-append}
use code_vald_org.ServeMux.{is_plain, literal_from, is_literal, is_segment, distinct, first_match}
use code_vald_org.HttpHandler.{
  Endpoint, authorize, token, introspect, revoke, meta, health, patterns,
}

-- The path of an endpoint of the agency.
abbrev pub path_of : String → Endpoint → String
path_of agency authorize = "/" <> agency <> "/oauth/authorize"
path_of agency token = "/" <> agency <> "/oauth/token"
path_of agency introspect = "/" <> agency <> "/oauth/introspect"
path_of agency revoke = "/" <> agency <> "/oauth/revoke"
path_of agency meta = "/" <> agency <> "/.well-known/oauth-authorization-server"
path_of agency health = "/healthz"

segment-literal_from :
    (prev : ℕ) (cs rest : List ℕ)
    → is_plain prev ≡ true
    → all is_plain cs ≡ true
    → literal_from prev (cs ++ (b'/' ∷ rest)) ≡ literal_from b'/' rest
unfolding literal_from
segment-literal_from prev [] rest p ps = rw p (ground arith)
segment-literal_from prev (c ∷ cs) rest p ps =
    let here : is_plain c ≡ true = ground arith in
    rw (here, segment-literal_from c cs rest here (ground arith)) refl

codes-path :
    (agency suffix : String)
    → codes ("/" <> agency <> suffix) ≡ b'/' ∷ (codes agency ++ codes suffix)
codes-path agency suffix =
    codes-append "/" (agency <> suffix) ∙ ap (λ r. b'/' ∷ r) (codes-append agency suffix)

segment-is_literal :
    (cs rest : List ℕ)
    → is_segment cs ≡ true
    → literal_from b'/' rest ≡ true
    → is_literal (b'/' ∷ (cs ++ (b'/' ∷ rest))) ≡ true
unfolding literal_from
segment-is_literal [] rest p l = cc
segment-is_literal (c ∷ cs) rest p l =
    let here : is_plain c ≡ true = ground arith in
    let more : all is_plain cs ≡ true = ground arith in
    rw (here, segment-literal_from c cs rest here more, l) refl

path-is_literal :
    (agency suffix : String) (rest : List ℕ)
    → is_segment (codes agency) ≡ true
    → codes suffix ≡ b'/' ∷ rest
    → literal_from b'/' rest ≡ true
    → is_literal (codes ("/" <> agency <> suffix)) ≡ true
path-is_literal agency suffix rest p e l =
    rw (codes-path agency suffix, e) (segment-is_literal (codes agency) rest p l)

pub path_of-is_literal :
    (agency : String) (e : Endpoint)
    → is_segment (codes agency) ≡ true
    → is_literal (codes (path_of agency e)) ≡ true
unfolding literal_from is_plain
path_of-is_literal agency authorize p = path-is_literal agency "/oauth/authorize" _ p refl refl
path_of-is_literal agency token p = path-is_literal agency "/oauth/token" _ p refl refl
path_of-is_literal agency introspect p = path-is_literal agency "/oauth/introspect" _ p refl refl
path_of-is_literal agency revoke p = path-is_literal agency "/oauth/revoke" _ p refl refl
path_of-is_literal agency meta p =
    path-is_literal agency "/.well-known/oauth-authorization-server" _ p refl refl
path_of-is_literal agency health p = refl

pub patterns-is_literal :
    (agency : String)
    → is_segment (codes agency) ≡ true
    → all (λ (p : String × Endpoint). is_literal (codes p.0)) (patterns agency) ≡ true
patterns-is_literal agency p =
    rw
      (
        path_of-is_literal agency authorize p,
        path_of-is_literal agency token p,
        path_of-is_literal agency introspect p,
        path_of-is_literal agency revoke p,
        path_of-is_literal agency meta p,
        path_of-is_literal agency health p,
      )
      refl

-- Paths of one agency with different ends are different.
apart :
    (agency a b : String) → (a == b) ≡ false → ("/" <> agency <> a == "/" <> agency <> b) ≡ false
apart agency a b h = elim (Bool-cases ("/" <> agency <> a == "/" <> agency <> b)) [
  | inl same ↦
      let p : "/" <> agency <> a ≡ "/" <> agency <> b = (eq_iff _ _).0 same in
      let q : a ≡ b = append_cancel_left agency a b (append_cancel_left "/" _ _ p) in
      let t : (a == b) ≡ true = (eq_iff a b).1 q in cc
  | inr other_ ↦ other_
]

any_slash : (cs rest : List ℕ) → any (λ c. nat_eq c b'/') (cs ++ (b'/' ∷ rest)) ≡ true
any_slash [] rest = refl
any_slash (c ∷ cs) rest = rw (any_slash cs rest) (ground arith)

-- No path of an agency is that of the test of health.
apart_health :
    (agency suffix : String) (rest : List ℕ)
    → codes suffix ≡ b'/' ∷ rest
    → ("/healthz" == "/" <> agency <> suffix) ≡ false
apart_health agency suffix rest e = elim (Bool-cases ("/healthz" == "/" <> agency <> suffix)) [
  | inl same ↦
      let p : "healthz" ≡ agency <> suffix = append_cancel_left "/" _ _ ((eq_iff _ _).0 same) in
      let q : codes "healthz" ≡ codes agency ++ (b'/' ∷ rest) =
        ap codes p ∙ codes-append agency suffix ∙ ap (λ r. codes agency ++ r) e in
      let t : false ≡ true = ap (any (λ c. nat_eq c b'/')) q ∙ any_slash (codes agency) rest in cc
  | inr other_ ↦ other_
]

abbrev well_known : String
well_known = "/.well-known/oauth-authorization-server"

pub patterns-distinct :
    (agency : String) → distinct (map (λ (p : String × Endpoint). p.0) (patterns agency)) ≡ true
unfolding distinct
patterns-distinct agency =
    rw
      (
        apart agency "/oauth/token" "/oauth/authorize" refl,
        apart agency "/oauth/introspect" "/oauth/authorize" refl,
        apart agency "/oauth/revoke" "/oauth/authorize" refl,
        apart agency well_known "/oauth/authorize" refl,
        apart_health agency "/oauth/authorize" _ refl,
        apart agency "/oauth/introspect" "/oauth/token" refl,
        apart agency "/oauth/revoke" "/oauth/token" refl,
        apart agency well_known "/oauth/token" refl,
        apart_health agency "/oauth/token" _ refl,
        apart agency "/oauth/revoke" "/oauth/introspect" refl,
        apart agency well_known "/oauth/introspect" refl,
        apart_health agency "/oauth/introspect" _ refl,
        apart agency well_known "/oauth/revoke" refl,
        apart_health agency "/oauth/revoke" _ refl,
        apart_health agency well_known _ refl,
      )
      refl

pub first_match-path_of :
    (agency : String) (e : Endpoint) → first_match (patterns agency) (path_of agency e) ≡ some e
unfolding first_match
first_match-path_of agency authorize = rw (eq_refl (path_of agency authorize)) refl
first_match-path_of agency token =
    rw (apart agency "/oauth/token" "/oauth/authorize" refl, eq_refl (path_of agency token)) refl
first_match-path_of agency introspect =
    rw
      (
        apart agency "/oauth/introspect" "/oauth/authorize" refl,
        apart agency "/oauth/introspect" "/oauth/token" refl,
        eq_refl (path_of agency introspect),
      )
      refl
first_match-path_of agency revoke =
    rw
      (
        apart agency "/oauth/revoke" "/oauth/authorize" refl,
        apart agency "/oauth/revoke" "/oauth/token" refl,
        apart agency "/oauth/revoke" "/oauth/introspect" refl,
        eq_refl (path_of agency revoke),
      )
      refl
first_match-path_of agency meta =
    rw
      (
        apart agency well_known "/oauth/authorize" refl,
        apart agency well_known "/oauth/token" refl,
        apart agency well_known "/oauth/introspect" refl,
        apart agency well_known "/oauth/revoke" refl,
        eq_refl (path_of agency meta),
      )
      refl
first_match-path_of agency health =
    rw
      (
        apart_health agency "/oauth/authorize" _ refl,
        apart_health agency "/oauth/token" _ refl,
        apart_health agency "/oauth/introspect" _ refl,
        apart_health agency "/oauth/revoke" _ refl,
        apart_health agency well_known _ refl,
      )
      refl
