-- ===== src/Select/Examples.antt =====
-- Selections of numbers, whose attributes are their last digit and whether they are even.
use Prim.Native.Nat.{◌%◌}
use tobiko.Prelude.{
  ℕ, ◌≡◌, refl, String, Bool, Option, none, some, List, [], ◌∷◌, ok, ◌==◌, str_eq, if◌then◌else◌,
}
use tobiko.Select.{Attributes, value, pattern', with_attributes, without_attributes}

abbrev attr : ℕ → String → Option ℕ
attr n key =
    if str_eq key "digit" then some (n % 10) else if str_eq key "parity" then some (n % 2) else none

abbrev eq : ℕ → ℕ → Bool
eq a b = a == b

abbrev numbers : List ℕ
numbers = 14 ∷ 7 ∷ 24 ∷ 3 ∷ 14 ∷ []

abbrev even : Attributes ℕ
even = ("parity", value 0) ∷ []

abbrev ends_in_four : Attributes ℕ
ends_in_four = ("digit", pattern' (λ d. d == 4)) ∷ []

evens : with_attributes eq attr numbers even ≡ ok (14 ∷ 24 ∷ 14 ∷ [])
unfolding with_attributes
evens = refl

odds : without_attributes eq attr numbers even ≡ ok (7 ∷ 3 ∷ [])
unfolding without_attributes
odds = refl

fours : with_attributes eq attr (14 ∷ 24 ∷ 14 ∷ []) ends_in_four ≡ ok (14 ∷ 24 ∷ 14 ∷ [])
unfolding with_attributes
fours = refl
