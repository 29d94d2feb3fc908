-- ===== src/Behaviour/Refusals.antt =====
-- org_lifecycle.go and roles_scopes.go: creations that find their key taken.
use code_vald_org.Prelude.{◌≡◌, ◌⊎◌}
use code_vald_org.Errors.{Error, Sentinel, sentinel}
use code_vald_org.Graph.State.{Graph}
use code_vald_org.Effects.{Env, Result, err, Action}

-- A call of the store that returned an error.
abbrev pub Failed : {A : Type 0} → Result A → Type 0
Failed called = (e : Error) × (called ≡ err e)

-- The call fails with the first error, or with the second one and then the call of the store failed.
abbrev pub FailsWith : {A B : Type 0} → Result A → (s t : Sentinel) → (called : Result B) → Type 0
FailsWith r s t called = (r ≡ err (sentinel s)) ⊎ ((r ≡ err (sentinel t)) × Failed called)

-- The call fails in that way, and the graph is as it was.
abbrev pub Refuses :
    (E : Env) (view : E.World → Graph) {A B : Type 0}
    → Action E.World A
    → (s t : Sentinel) → (called : Result B) → E.World
    → Type 0
Refuses E view m s t called w = FailsWith (m w).0 s t called × (view (m w).1 ≡ view w)
