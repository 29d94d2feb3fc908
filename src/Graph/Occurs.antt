-- ===== src/Graph/Occurs.antt =====
-- Which entities a list has after it was extended, mapped or filtered.
use code_vald_org.Prelude.{
  ◌≡◌, refl, ap, Bool, true, false, ◌⊎◌, inl, inr, List, [], ◌∷◌, ◌++◌, map, keep, any, arith,
  Bool-cases, if◌then◌else◌,
}
use code_vald_org.Graph.State.{Occurs}

module _ {A : Type 0} where
  pub occurs_left : (a : A) (xs ys : List A) → Occurs a xs → Occurs a (xs ++ ys)
  occurs_left a [] ys h = absurd h
  occurs_left a (x ∷ xs) ys (inl e) = inl e
  occurs_left a (x ∷ xs) ys (inr h) = inr (occurs_left a xs ys h)

  pub occurs_last : (a : A) (xs : List A) → Occurs a (xs ++ (a ∷ []))
  occurs_last a [] = inl refl
  occurs_last a (x ∷ xs) = inr (occurs_last a xs)

  pub Occurs-concat : (a b : A) (xs : List A) → Occurs a (xs ++ (b ∷ [])) → Occurs a xs ⊎ (a ≡ b)
  Occurs-concat a b [] (inl e) = inr e
  Occurs-concat a b [] (inr h) = absurd h
  Occurs-concat a b (x ∷ xs) (inl e) = inl (inl e)
  Occurs-concat a b (x ∷ xs) (inr h) = elim (Occurs-concat a b xs h) [
    | inl o ↦ inl (inr o)
    | inr e ↦ inr e
  ]

  pub occurs_map : (f : A → A) (a : A) (xs : List A) → Occurs a xs → Occurs (f a) (map f xs)
  occurs_map f a [] h = absurd h
  occurs_map f a (x ∷ xs) (inl e) = inl (ap f e)
  occurs_map f a (x ∷ xs) (inr h) = inr (occurs_map f a xs h)

  pub Occurs-map :
      (f : A → A) (b : A) (xs : List A) → Occurs b (map f xs) → (a : A) × Occurs a xs × (b ≡ f a)
  Occurs-map f b [] h = absurd h
  Occurs-map f b (x ∷ xs) (inl e) = (x, inl refl, e)
  Occurs-map f b (x ∷ xs) (inr h) = let (a, o, e) = Occurs-map f b xs h in (a, inr o, e)

  Occurs_if :
      (p : A → Bool) (a x : A) (xs : List A) (b : Bool)
      → p x ≡ b
      → Occurs a (if b then x ∷ keep p xs else keep p xs)
      → (Occurs a (keep p xs) → Occurs a xs × (p a ≡ true))
      → Occurs a (x ∷ xs) × (p a ≡ true)
  Occurs_if p a x xs true t (inl e) rest = (inl e, rw e t)
  Occurs_if p a x xs true t (inr h) rest = (inr (rest h).0, (rest h).1)
  Occurs_if p a x xs false t h rest = (inr (rest h).0, (rest h).1)

  pub Occurs-keep :
      (p : A → Bool) (a : A) (xs : List A) → Occurs a (keep p xs) → Occurs a xs × (p a ≡ true)
  Occurs-keep p a [] h = absurd h
  Occurs-keep p a (x ∷ xs) h = Occurs_if p a x xs (p x) refl h (Occurs-keep p a xs)

  pub occurs_keep :
      (p : A → Bool) (a : A) (xs : List A) → Occurs a xs → p a ≡ true → Occurs a (keep p xs)
  occurs_keep p a [] h t = absurd h
  occurs_keep p a (x ∷ xs) (inl e) t = rw (← e, t) (inl refl)
  occurs_keep p a (x ∷ xs) (inr h) t = elim (Bool-cases (p x)) [
    | inl yes_ ↦ rw yes_ (inr (occurs_keep p a xs h t))
    | inr no_ ↦ rw no_ (occurs_keep p a xs h t)
  ]

  pub Occurs-any :
      (p : A → Bool) (a : A) (xs : List A) → any p xs ≡ false → Occurs a xs → p a ≡ false
  Occurs-any p a [] n h = absurd h
  Occurs-any p a (x ∷ xs) n (inl e) = rw e (ground arith)
  Occurs-any p a (x ∷ xs) n (inr h) = Occurs-any p a xs (ground arith) h

pub Occurs_of_any :
    {A : Type 0} (p : A → Bool) (xs : List A)
    → any p xs ≡ true
    → (x : A) × Occurs x xs × (p x ≡ true)
Occurs_of_any p [] h = cc
Occurs_of_any p (x ∷ xs) h = elim (Bool-cases (p x)) [
  | inl yes_ ↦ (x, inl refl, yes_)
  | inr no_ ↦ let (y, o, e) = Occurs_of_any p xs (ground arith) in (y, inr o, e)
]

pub any_of_Occurs :
    {A : Type 0} (p : A → Bool) (x : A) (xs : List A) → Occurs x xs → p x ≡ true → any p xs ≡ true
any_of_Occurs p x [] o e = absurd o
any_of_Occurs p x (y ∷ ys) (inl same) e = rw (← same, e) refl
any_of_Occurs p x (y ∷ ys) (inr o) e = ground (arith, any_of_Occurs p x ys o e)
