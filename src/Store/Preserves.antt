-- ===== src/Store/Preserves.antt =====
-- Calls that preserve a property of the world, whatever they return: one rule for each form of the
-- monad, gathered in `preserves_rules`.
use code_vald_org.Prelude.{Bool, true, false, List, [], ◌∷◌, if◌then◌else◌}
use code_vald_org.Errors.{Error}
use code_vald_org.Effects.{
  Result, ok, err, Action, pure, fail, or_fail, on_error, attempt, proceed, fail_if, first_or,
  ◌>>=◌, ◌>>◌,
}
use code_vald_org.Manager.Calls.{or_unavailable}

pub record Preserves {W : Type 0} (I : W → Type 0) {A : Type 0} (m : Action W A) : Type 0 where
  pub at : (w : W) → I w → I (m w).1

module _ {W : Type 0} (I : W → Type 0) where
  proceed_preserves :
      {A B : Type 0} (r : Result A) (w : W) (f : A → Action W B)
      → I w
      → ((a : A) → Preserves I (f a))
      → I (proceed r f w).1
  proceed_preserves (ok a) w f i rest = (rest a).at w i
  proceed_preserves (err e) w f i rest = i

  pub Preserves-bind :
      {A B : Type 0} (m : Action W A) (f : A → Action W B)
      → Preserves I m
      → ((a : A) → Preserves I (f a))
      → Preserves I (m >>= f)
  unfolding ◌>>=◌
  Preserves-bind m f first rest = record {
    at = λ w i. proceed_preserves (m w).0 (m w).1 f (first.at w i) rest;
  }

  pub Preserves-then :
      {A B : Type 0} (m : Action W A) (k : Action W B)
      → Preserves I m
      → Preserves I k
      → Preserves I (m >> k)
  unfolding ◌>>◌
  Preserves-then m k first rest = record {
    at = λ w i. proceed_preserves (m w).0 (m w).1 (λ _. k) (first.at w i) (λ _. rest);
  }

  pub Preserves-pure : {A : Type 0} (a : A) → Preserves I (pure a)
  unfolding pure
  Preserves-pure a = record { at = λ w i. i }

  pub Preserves-fail : {A : Type 0} (e : Error) → Preserves I (fail {A = A} e)
  unfolding fail
  Preserves-fail e = record { at = λ w i. i }

  pub Preserves-fail_if : (c : Bool) (e : Error) → Preserves I (fail_if c e)
  unfolding fail_if
  Preserves-fail_if c e = record { at = λ w i. i }

  pub Preserves-first_or : {A : Type 0} (xs : List A) (e : Error) → Preserves I (first_or xs e)
  unfolding first_or
  Preserves-first_or [] e = record { at = λ w i. i }
  Preserves-first_or (x ∷ xs) e = record { at = λ w i. i }

  pub Preserves-or_fail :
      {A : Type 0} (m : Action W A) (e : Error) → Preserves I m → Preserves I (or_fail m e)
  unfolding or_fail
  Preserves-or_fail m e k = record { at = λ w i. k.at w i }

  pub Preserves-on_error :
      {A : Type 0} (m : Action W A) (f : Error → Error) → Preserves I m → Preserves I (on_error m f)
  unfolding on_error
  Preserves-on_error m f k = record { at = λ w i. k.at w i }

  pub Preserves-attempt : {A : Type 0} (m : Action W A) → Preserves I m → Preserves I (attempt m)
  unfolding attempt
  Preserves-attempt m k = record { at = λ w i. k.at w i }

  pub Preserves-or_unavailable :
      {A : Type 0} (m : Action W A) → Preserves I m → Preserves I (or_unavailable m)
  unfolding or_unavailable or_fail
  Preserves-or_unavailable m k = record { at = λ w i. k.at w i }

  pub Preserves-if :
      {A : Type 0} (c : Bool) (m k : Action W A)
      → Preserves I m
      → Preserves I k
      → Preserves I (if c then m else k)
  Preserves-if true m k a b = a
  Preserves-if false m k a b = b

pub ruleset preserves_rules = (
  Preserves-bind, Preserves-then, Preserves-pure, Preserves-fail, Preserves-fail_if,
  Preserves-first_or, Preserves-or_fail, Preserves-on_error, Preserves-attempt,
  Preserves-or_unavailable, Preserves-if,
)
