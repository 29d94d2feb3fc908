-- ===== src/Behaviour/Scopes.antt =====
-- roles_scopes.go: the guards of RegisterScope.
use code_vald_org.Prelude.{
  ℕ, String, ◌==◌, ◌≡◌, refl, true, false, ◌⊎◌, inl, inr, List, [], ◌∷◌, ◌++◌, all, nat_eq, ◌≤◌,
  length, subst, arith, Bool-cases,
}
use Prim.Native.Char.{code}
use text.Mathlib.TextEquality.{Char-path}
use code_vald_org.Errors.{sentinel, invalid_scope, scope_reserved}
use code_vald_org.Graph.State.{Graph}
use code_vald_org.Effects.{Env, err}
use code_vald_org.Models.{ManagerConfig}
use code_vald_org.Models.Requests.{RegisterScopeRequest}
use code_vald_org.Store.Lawful.{IsLawful}
use code_vald_org.Manager.Calls.{manager_calls}
use code_vald_org.Manager.Scopes.{register_scope}
use code_vald_org.Manager.Scopes.Grammar.{codes, is_word, scope_grammar, before_colon}
use code_vald_org.Manager.Scopes.Names.{IsScopeName, matches_scope-IsScopeName}

-- Where the name is `service:action`, the first part that the code splits off is the service.
pub codes-before_colon :
    (name : String) (service action : List ℕ)
    → codes name ≡ service ++ (b':' ∷ action)
    → all is_word service ≡ true
    → codes (before_colon name) ≡ service
unfolding before_colon is_word
codes-before_colon String.[] [] action e ws = cc
codes-before_colon String.[] (c ∷ service) action e ws = cc
codes-before_colon (String.◌∷◌ c s) [] action e ws = let colon : code c ≡ b':' = cc in rw colon refl
codes-before_colon (String.◌∷◌ c s) (d ∷ service) action e ws =
    let head : code c ≡ d = cc in
    let rest : codes s ≡ service ++ (b':' ∷ action) = cc in
    let other_ : nat_eq (code c) b':' ≡ false = rw head (ground arith) in
    rw (other_, head, codes-before_colon s service action rest (ground arith)) refl

codes_injective : (s t : String) → codes s ≡ codes t → s ≡ t
codes_injective String.[] String.[] e = refl
codes_injective String.[] (String.◌∷◌ d t) e = cc
codes_injective (String.◌∷◌ c s) String.[] e = cc
codes_injective (String.◌∷◌ c s) (String.◌∷◌ d t) e =
    let head : c ≡ d = Char-path c d cc in
    let tail : s ≡ t = codes_injective s t cc in rw (head, tail) refl

service_of :
    (name service : String) (action : List ℕ)
    → codes name ≡ codes service ++ (b':' ∷ action)
    → all is_word (codes service) ≡ true
    → before_colon name ≡ service
service_of name service action e words =
    codes_injective (before_colon name) service
      (codes-before_colon name (codes service) action e words)

module _ (E : Env) (view : E.World → Graph) (L : IsLawful E view) (cfg : ManagerConfig) where
  -- RegisterScope fails with ErrInvalidScope on a name that is not `service:action`, and calls
  -- nothing.
  pub register_scope-malformed :
      (req : RegisterScopeRequest) (w : E.World)
      → ¬ IsScopeName (codes req.name)
      → register_scope E cfg req w ≡ (err (sentinel invalid_scope), w)
  unfolding register_scope scope_grammar manager_calls
  register_scope-malformed req w malformed = elim (Bool-cases (scope_grammar req.name)) [
    | inl good ↦ absurd (malformed ((matches_scope-IsScopeName (codes req.name)).0 good))
    | inr bad ↦ rw bad refl
  ]

  -- RegisterScope of a name `service:action` (of word characters, 1 to 28 of them in the action)
  -- fails with ErrScopeReserved if the service is `org` or `audit` and the owner is not codevaldorg;
  -- the code calls nothing then, and leaves the world as it was.
  pub register_scope-reserved :
      (req : RegisterScopeRequest) (service : String) (action : List ℕ) (w : E.World)
      → codes req.name ≡ codes service ++ (b':' ∷ action)
      → (service ≡ "org") ⊎ (service ≡ "audit")
      → all is_word action ≡ true
      → 1 ≤ length action
      → length action ≤ 28
      → (req.registered_by == "codevaldorg") ≡ false
      → register_scope E cfg req w ≡ (err (sentinel scope_reserved), w)
  unfolding register_scope scope_grammar manager_calls is_word
  register_scope-reserved req service action w e reserved words least most other = elim reserved [
    | inl org ↦
        let e' : codes req.name ≡ codes "org" ++ (b':' ∷ action) =
          subst (λ x. codes req.name ≡ codes x ++ (b':' ∷ action)) org e in
        let first : before_colon req.name ≡ "org" = service_of req.name "org" action e' refl in
        let good : IsScopeName (codes req.name) =
          (codes "org", action, e', refl, omega arith, omega arith, words, least, most) in
        rw ((matches_scope-IsScopeName (codes req.name)).1 good, first, other) refl
    | inr audit ↦
        let e' : codes req.name ≡ codes "audit" ++ (b':' ∷ action) =
          subst (λ x. codes req.name ≡ codes x ++ (b':' ∷ action)) audit e in
        let first : before_colon req.name ≡ "audit" = service_of req.name "audit" action e' refl in
        let good : IsScopeName (codes req.name) =
          (codes "audit", action, e', refl, omega arith, omega arith, words, least, most) in
        rw ((matches_scope-IsScopeName (codes req.name)).1 good, first, other) refl
  ]
