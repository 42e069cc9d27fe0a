-- ===== src/Time.antt =====
-- tobiko/common/_time.py: seconds as numbers of clock ticks.
-- A Python float is an integer number of ticks here, of whatever size the clock has; `float` of a
-- text is a parameter, `none` where it raises ValueError.
pub mod Bounds
mod Examples
use tobiko.Prelude.{
  ℕ, zero, suc, ◌-◌, ◌≤◌, String, Bool, true, false, Option, none, some, List, [], ◌∷◌, min, max,
  Result, ok, err, ◌>>=◌, str_eq, if◌then◌else◌,
}

-- A Python number: `negsuc n` is -(n + 1).
pub data ℤ : Type 0 where
  pos : ℕ → ℤ
  negsuc : ℕ → ℤ

-- `max(0., value)`
abbrev pub clamp : ℤ → ℕ
clamp (pos n) = n
clamp (negsuc n) = 0

-- What an argument for a time may be.
pub data ToSecondsValue : Type 0 where
  null : ToSecondsValue
  number : ℤ → ToSecondsValue
  text : String → ToSecondsValue

pub data SecondsError : Type 0 where
  value_error : String → SecondsError

abbrev pub Seconds : Type 0
Seconds = Option ℕ

least : ℕ → List ℕ → ℕ
least n [] = n
least n (m ∷ ms) = least (min n m) ms

greatest : ℕ → List ℕ → ℕ
greatest n [] = n
greatest n (m ∷ ms) = greatest (max n m) ms

abbrev min_of : List ℕ → Seconds
min_of [] = none
min_of (n ∷ ns) = some (least n ns)

abbrev max_of : List ℕ → Seconds
max_of [] = none
max_of (n ∷ ns) = some (greatest n ns)

module _ (float_of : String → Option ℤ) where
  float_text : String → Result SecondsError ℕ
  float_text t = elim (float_of t) [ none ↦ err (value_error t) | some z ↦ ok (clamp z) ]

  -- `value and max(0., float(value)) or 0.`: a false value is 0 without a conversion.
  unfoldable pub to_seconds_float : ToSecondsValue → Result SecondsError ℕ
  unfolding float_text
  to_seconds_float null = ok 0
  to_seconds_float (number z) = ok (clamp z)
  to_seconds_float (text t) = if str_eq t "" then ok 0 else float_text t

  unfoldable pub to_seconds : ToSecondsValue → Result SecondsError Seconds
  unfolding to_seconds_float
  to_seconds null = ok none
  to_seconds v = do s ← to_seconds_float v; ok (some s)

  -- Argument lists are walked in order, and the first bad value raises.
  unfoldable pub true_seconds : List ToSecondsValue → Result SecondsError (List ℕ)
  unfolding to_seconds
  true_seconds [] = ok []
  true_seconds (v ∷ vs) = do
    s ← to_seconds v
    rest ← true_seconds vs
    ok (elim s [ none ↦ rest | some n ↦ n ∷ rest ])

  unfoldable pub min_seconds : List ToSecondsValue → Result SecondsError Seconds
  unfolding true_seconds least
  min_seconds vs = do ns ← true_seconds vs; ok (min_of ns)

  unfoldable pub max_seconds : List ToSecondsValue → Result SecondsError Seconds
  unfolding true_seconds greatest
  max_seconds vs = do ns ← true_seconds vs; ok (max_of ns)
