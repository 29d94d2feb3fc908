-- ===== src/Graph/Builtin.antt =====
-- Built-in roles outlive every step of the specification.
use code_vald_org.Prelude.{
  String, ◌≡◌, refl, sym, ap, ◌∙◌, true, false, not, inl, inr, some, List, arith, Bool-cases,
  eq_iff,
}
use code_vald_org.Graph.{str, bool, Properties, lookup, Entity}
use code_vald_org.Graph.State.{Graph, Occurs, is_named, amended, amend_named, with_amended}
use code_vald_org.Graph.Step.{
  Step, created, patched, org_patched, removed, linked, Reach, here, next, is_neutral, lacks,
  is_builtin_role,
}
use code_vald_org.Graph.Lookup.{lookup-merge-lacks}
use code_vald_org.Graph.Occurs.{occurs_left, occurs_map, occurs_keep}
use code_vald_org.Graph.Sound.{IsSound, HasUniqueIds, named_unique, Reach-IsSound}

-- The role as it must stay: its id, its name and its being built in.
abbrev pub IsBuiltin : (agency id name : String) → Entity → Type 0
IsBuiltin agency id name e =
    (e.agency_id ≡ agency)
    × (e.id ≡ id)
    × (e.type_id ≡ "Role")
    × (lookup "name" e.properties ≡ some (str name))
    × (lookup "builtin" e.properties ≡ some (bool true))

abbrev pub HasBuiltin : (agency id name : String) → Graph → Type 0
HasBuiltin agency id name g = (e : Entity) × Occurs e g.entities × IsBuiltin agency id name e

module _ (agency id name : String) where
  IsBuiltin-amended :
      (p : Properties) (e : Entity)
      → is_neutral p ≡ true
      → IsBuiltin agency id name e
      → IsBuiltin agency id name (amended p e)
  IsBuiltin-amended p e n (a, i, t, m, b) =
      let names : lacks p "name" ≡ true = ground arith in
      let flags : lacks p "builtin" ≡ true = ground arith in
      (
        a,
        i,
        t,
        lookup-merge-lacks "name" e.properties p names ∙ m,
        lookup-merge-lacks "builtin" e.properties p flags ∙ b,
      )

  amend-HasBuiltin :
      (agency' id' : String) (p : Properties) (g : Graph) (e : Entity)
      → Occurs e g.entities
      → IsBuiltin agency id name (amend_named agency' id' p e)
      → HasBuiltin agency id name (with_amended agency' id' p g)
  amend-HasBuiltin agency' id' p g e o k =
      (amend_named agency' id' p e, occurs_map (amend_named agency' id' p) e g.entities o, k)

  patched-IsBuiltin :
      (agency' id' : String) (p : Properties) (e : Entity)
      → is_neutral p ≡ true
      → IsBuiltin agency id name e
      → IsBuiltin agency id name (amend_named agency' id' p e)
  patched-IsBuiltin agency' id' p e n k = elim (Bool-cases (is_named agency' id' e)) [
    | inl named ↦ rw named (IsBuiltin-amended p e n k)
    | inr other_ ↦ rw other_ k
  ]

  -- Whatever an organization is renamed to, or a plain entity's deletion, names another entity.
  not_named :
      (agency' id' : String) (es : List Entity) (e x : Entity)
      → HasUniqueIds es
      → Occurs e es
      → Occurs x es
      → is_named agency' id' x ≡ true
      → (e ≡ x → ⊥)
      → is_named agency' id' e ≡ false
  not_named agency' id' es e x u oe ox nx differ = elim (Bool-cases (is_named agency' id' e)) [
    | inl named ↦ absurd (differ (named_unique agency' id' es e x u oe ox named nx))
    | inr other_ ↦ other_
  ]

  Step-HasBuiltin :
      {g h : Graph}
      → Step g h
      → IsSound g
      → HasBuiltin agency id name g
      → HasBuiltin agency id name h
  Step-HasBuiltin {g} (created x fresh free) s (e, o, k) = (e, occurs_left e g.entities _ o, k)
  Step-HasBuiltin {g} (patched agency' id' p n) s (e, o, k) =
      amend-HasBuiltin agency' id' p g e o (patched-IsBuiltin agency' id' p e n k)
  Step-HasBuiltin {g} (org_patched agency' id' p x ox named type safe) s (e, o, k) =
      let away : is_named agency' id' e ≡ false =
        not_named agency' id' g.entities e x s.unique_ids o ox named
          (λ same. role-ne-org (sym k.2 ∙ ap (λ (y : Entity). y.type_id) same ∙ type)) in
      amend-HasBuiltin agency' id' p g e o (rw away k)
    where
      role-ne-org : ◌≡◌ {A = String} "Role" "Organization" → ⊥
      role-ne-org h = ground (arith, eq_iff "Role" "Organization")
  Step-HasBuiltin {g} (removed agency' id' x ox named plain) s (e, o, k) =
      let away : is_named agency' id' e ≡ false =
        not_named agency' id' g.entities e x s.unique_ids o ox named
          (λ same. builtin-ne-plain (rw same plain)) in
      (e, occurs_keep (λ y. not (is_named agency' id' y)) e g.entities o (rw away refl), k)
    where
      builtin-ne-plain : is_builtin_role e ≡ false → ⊥
      builtin-ne-plain h = let (a, i, t, m, b) = k in ground (arith, rw t at h)
  Step-HasBuiltin {g} (linked r) s h = h

  pub Reach-HasBuiltin :
      {g h : Graph}
      → Reach g h
      → IsSound g
      → HasBuiltin agency id name g
      → HasBuiltin agency id name h
  Reach-HasBuiltin here s k = k
  Reach-HasBuiltin (next r st) s k = Step-HasBuiltin st (Reach-IsSound r s) (Reach-HasBuiltin r s k)
