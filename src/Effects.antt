-- ===== src/Effects.antt =====
-- What the service calls and does not implement (the entity graph's DataManager, the clock, the
-- random source, hashing and the layout of times), and the monad in which it calls them.
use code_vald_org.Prelude.{ℕ, String, Bool, true, false, Option, List, [], ◌∷◌, if◌then◌else◌}
use code_vald_org.Errors.{Error}
use code_vald_org.Graph.{
  Entity, Relationship, EntityFilter, CreateEntityRequest, CreateRelationshipRequest,
  RelationshipFilter, Properties,
}

-- A Go result `(A, error)`: the value beside a non-nil error is the zero value, and is dropped.
pub data Result (A : Type 0) : Type 0 where
  ok : A → Result A
  err : Error → Result A

-- A call that may change the world `W`.
abbrev pub Action : Type 0 → Type 0 → Type 0
Action W A = W → Result A × W

-- `if err != nil { return e }`: a failure becomes the error `e`.
abbrev pub replace : {A : Type 0} → Result A → Error → Result A
replace (ok a) e = ok a
replace (err _) e = err e

abbrev pub map_error : {A : Type 0} → Result A → (Error → Error) → Result A
map_error (ok a) f = ok a
map_error (err e) f = err (f e)

module _ {W A : Type 0} where
  unfoldable pub pure : A → Action W A
  pure a w = (ok a, w)

  unfoldable pub fail : Error → Action W A
  fail e w = (err e, w)

  unfoldable pub or_fail : Action W A → Error → Action W A
  or_fail m e w = let (r, w') = m w in (replace r e, w')

  unfoldable pub on_error : Action W A → (Error → Error) → Action W A
  on_error m f w = let (r, w') = m w in (map_error r f, w')

  -- A call that returns no error.
  unfoldable pub lift : (W → A × W) → Action W A
  lift m w = let (a, w') = m w in (ok a, w')

  -- Runs `m` and hands its result, error or not, to the rest.
  unfoldable pub attempt : Action W A → Action W (Result A)
  attempt m w = let (r, w') = m w in (ok r, w')

-- What follows a call that returned.
abbrev pub proceed : {W A B : Type 0} → Result A → (A → Action W B) → Action W B
proceed (ok a) f w = f a w
proceed (err e) f w = (err e, w)

infixl 5 ◌>>=◌ ◌>>◌
unfoldable pub ◌>>=◌ : {W A B : Type 0} → Action W A → (A → Action W B) → Action W B
◌>>=◌ m f w = let (r, w') = m w in proceed r f w'

unfoldable pub ◌>>◌ : {W A B : Type 0} → Action W A → Action W B → Action W B
unfolding ◌>>=◌
m >> k = m >>= λ _. k

-- `if c { return err }`
unfoldable pub fail_if : {W : Type 0} → Bool → Error → Action W (Unit {0})
fail_if c e w = (if c then err e else ok tt, w)

-- `if len(xs) == 0 { return err }`, then `xs[0]`
unfoldable pub first_or : {W A : Type 0} → List A → Error → Action W A
first_or [] e w = (err e, w)
first_or (x ∷ xs) e w = (ok x, w)

abbrev pub is_nonempty : {A : Type 0} → List A → Bool
is_nonempty [] = false
is_nonempty (x ∷ xs) = true

-- The calls. A time is the number of nanoseconds since `time.Time{}`, the first instant of the
-- year 1.
pub record Env : Type 1 where
  pub World : Type 0
  -- `entitygraph.DataManager`
  pub list_entities : EntityFilter → Action World (List Entity)
  pub get_entity : (agency id : String) → Action World Entity
  pub create_entity : CreateEntityRequest → Action World Entity
  pub update_entity : (agency id : String) → Properties → Action World Entity
  pub delete_entity : (agency id : String) → Action World (Unit {0})
  pub create_relationship : CreateRelationshipRequest → Action World Relationship
  pub list_relationships : RelationshipFilter → Action World (List Relationship)
  -- `Clock.Now`
  pub now : World → ℕ × World
  -- `rand.Read` of so many bytes
  pub rand_read : ℕ → Action World (List ℕ)
  -- `uuid.New().String()`
  pub new_uuid : World → String × World
  -- `sha256.Sum256([]byte(s))`
  pub sha256 : String → List ℕ
  -- `argon2.IDKey(password, salt, t, m, p, n)`
  pub argon2_id_key : String → List ℕ → (t m p n : ℕ) → List ℕ
  -- `UTC().Format("2006-01-02T15:04:05Z")` and `time.Parse(time.RFC3339, s)`
  pub format_time : ℕ → String
  pub parse_time : String → Option ℕ
  -- the texts of the entity graph's two errors
  pub entity_not_found_text : String
  pub immutable_type_text : String

-- Opens every form above, for a proof or a test that computes a call through.
unfoldable pub calls : Unit {0}
unfolding pure fail or_fail on_error lift attempt ◌>>=◌ ◌>>◌ fail_if first_or
calls = tt
