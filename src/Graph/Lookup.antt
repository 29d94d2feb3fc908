-- ===== src/Graph/Lookup.antt =====
-- Laws of the property maps.
use code_vald_org.Prelude.{
  String, ◌==◌, ◌≡◌, refl, true, Option, none, some, List, [], ◌∷◌, all, arith, eq_iff,
  if◌then◌else◌,
}
use code_vald_org.Graph.{Value, str, Properties, lookup, insert}
use code_vald_org.Graph.State.{merge}
use code_vald_org.Graph.Step.{lacks, is_neutral, fixed_keys}
use code_vald_org.Manager.Calls.{set_unless_empty}

pub lookup-insert :
    (k j : String) (v : Value) (m : Properties)
    → lookup j (insert k v m) ≡ (if k == j then some v else lookup j m)
lookup-insert k j v [] = refl
lookup-insert k j v ((i, w) ∷ m) =
    ground (arith, eq_iff k j, eq_iff i k, eq_iff i j, lookup-insert k j v m)

-- A patch decides the keys that it has, and leaves the others.
pub lookup-merge :
    (j : String) (old p : Properties)
    → lookup j (merge old p)
      ≡ elim (lookup j p) as (λ _. Option Value) [ none ↦ lookup j old | some v ↦ some v ]
lookup-merge j old [] = refl
lookup-merge j old ((k, v) ∷ p) =
    ground (arith, lookup-insert k j v (merge old p), lookup-merge j old p)

pub lookup-merge-lacks :
    (j : String) (old p : Properties) → lacks p j ≡ true → lookup j (merge old p) ≡ lookup j old
lookup-merge-lacks j old p h = ground (arith, lookup-merge j old p)

lacks-insert :
    (k : String) (v : Value) (p : Properties) (ks : List String)
    → all (lacks ((k, v) ∷ [])) ks ≡ true
    → all (lacks p) ks ≡ true
    → all (lacks (insert k v p)) ks ≡ true
lacks-insert k v p [] h n = refl
lacks-insert k v p (j ∷ ks) h n = ground (arith, lookup-insert k j v p, lacks-insert k v p ks)

-- A patch built up from properties that are set only if not empty.
pub lacks-set_unless_empty :
    (ks : List String) (k v : String) (p : Properties)
    → all (lacks ((k, str v) ∷ [])) ks ≡ true
    → all (lacks p) ks ≡ true
    → all (lacks (set_unless_empty k v p)) ks ≡ true
lacks-set_unless_empty ks k v p h n = ground (arith, lacks-insert k (str v) p ks h n)

pub is_neutral-set_unless_empty :
    (k v : String) (p : Properties)
    → is_neutral ((k, str v) ∷ []) ≡ true
    → is_neutral p ≡ true
    → is_neutral (set_unless_empty k v p) ≡ true
is_neutral-set_unless_empty k v p h n = lacks-set_unless_empty fixed_keys k v p h n
