-- ===== src/Select.antt =====
-- tobiko/common/_select.py: selections of objects by their attributes or items.
-- `attr` is `getattr` (or `obj[key]`, for dictionaries), `none` where it raises. A matcher is a value
-- that is compared by `eq`, or a compiled regular expression, whose `match` is a function here.
pub mod Filtering
pub mod Uniques
mod Examples
use tobiko.Prelude.{
  ℕ, String, Bool, true, false, not, Option, none, some, List, [], ◌∷◌, ◌++◌, Result, ok, err,
  ◌>>=◌, length, ltb, if◌then◌else◌,
}

pub data SelectError (T : Type 0) : Type 0 where
  missing : T → String → SelectError T
  object_not_found : SelectError T
  multiple_objects_found : List T → SelectError T

pub data Matcher (V : Type 0) : Type 0 where
  value : V → Matcher V
  pattern' : (V → Bool) → Matcher V

abbrev pub Attributes : Type 0 → Type 0
Attributes V = List (String × Matcher V)

-- `a is b` for booleans
abbrev pub same : Bool → Bool → Bool
same true b = b
same false b = not b

module _ {T V : Type 0} (eq : V → V → Bool) (attr : T → String → Option V) where
  unfoldable pub match' : Matcher V → V → Bool
  match' (value w) v = eq w v
  match' (pattern' p) v = p v

  unfoldable pub get_attr : T → String → Result (SelectError T) V
  get_attr obj key = elim (attr obj key) [ none ↦ err (missing obj key) | some v ↦ ok v ]

  -- The loop returns at the first attribute that decides.
  unfoldable pub equal_attributes : T → Attributes V → Bool → Result (SelectError T) Bool
  unfolding match' get_attr
  equal_attributes obj [] inverse = ok true
  equal_attributes obj ((key, m) ∷ rest) inverse = do
    v ← get_attr obj key
    elim (same (match' m v) inverse) [ true ↦ ok false | false ↦ equal_attributes obj rest inverse ]

module _ {T : Type 0} where
  unfoldable pub select :
      (T → Result (SelectError T) Bool) → Bool → List T → Result (SelectError T) (List T)
  select predicate expect [] = ok []
  select predicate expect (obj ∷ objs) = do
    b ← predicate obj
    rest ← select predicate expect objs
    ok (if same b expect then obj ∷ rest else rest)

  unfoldable pub unselect :
      (T → Result (SelectError T) Bool) → List T → Result (SelectError T) (List T)
  unfolding select
  unselect predicate = select predicate false

  unfoldable pub first : List T → Result (SelectError T) T
  first [] = err object_not_found
  first (obj ∷ objs) = ok obj

  unfoldable pub last : List T → Result (SelectError T) T
  last [] = err object_not_found
  last (obj ∷ []) = ok obj
  last (obj ∷ next ∷ objs) = last (next ∷ objs)

  unfoldable pub unique : List T → Result (SelectError T) T
  unfolding first
  unique objs = if ltb 1 (length objs) then err (multiple_objects_found objs) else first objs

  module _ (eq : T → T → Bool) where
    -- `obj in destination`
    unfoldable pub contains : List T → T → Bool
    contains [] obj = false
    contains (x ∷ xs) obj = if eq x obj then true else contains xs obj

    unfoldable pub select_uniques : List T → List T → List T
    unfolding contains
    select_uniques [] destination = destination
    select_uniques (obj ∷ objs) destination =
        select_uniques objs
          (if contains destination obj then destination else destination ++ obj ∷ [])

module _ {T V : Type 0} (eq : V → V → Bool) (attr : T → String → Option V) (objs : List T)
    (attributes : Attributes V) where
  -- `with_attributes`, and `with_items` of dictionaries
  unfoldable pub with_attributes : Result (SelectError T) (List T)
  unfolding equal_attributes select
  with_attributes = select (λ obj. equal_attributes eq attr obj attributes false) true objs

  -- `without_attributes`, and `without_items` of dictionaries
  unfoldable pub without_attributes : Result (SelectError T) (List T)
  unfolding equal_attributes select
  without_attributes = select (λ obj. equal_attributes eq attr obj attributes true) true objs
