-- ===== src/Skip.antt =====
-- The skip decorators of tobiko/common/_skip.py, on functions. The predicate and the method are the
-- user's: each answers or raises, on the state of the program. `reason` and `cause` are texts that
-- Python formats; here the skip carries the exception that caused it.
pub mod Deciding
use tobiko.Prelude.{Bool, true, false, Option, none, some, Result, ok, err, if◌then◌else◌}
use tobiko.Select.{same}

-- What leaves a decorated method: SkipTest with its cause, or an exception of the user's code.
pub data Leaving (E : Type 0) : Type 0 where
  skip_test : Option E → Leaving E
  raised : E → Leaving E

unfoldable pub lift : {S E A : Type 0} → Result E A × S → Result (Leaving E) A × S
lift (ok a, s) = (ok a, s)
lift (err e, s) = (err (raised e), s)

-- `unless in [None, bool(return_value)]`
runs : Option Bool → Bool → Bool
runs none value = true
runs (some unless) value = same unless value

module _ {S E V A : Type 0} (truth : V → Bool) (caught : E → Bool) where
  after_predicate : Option Bool → (S → Result E A × S) → Result E V × S → Result (Leaving E) A × S
  unfolding runs lift
  after_predicate unless method (ok v, s) =
      if runs unless (truth v) then lift (method s) else (err (skip_test none), s)
  after_predicate unless method (err e, s) =
      if caught e then (err (skip_test (some e)), s) else (err (raised e), s)

  -- `wrapper` of `_skip_decorator`
  unfoldable pub wrapper :
      Option Bool
      → Option (S → Result E V × S)
      → (S → Result E A × S)
      → S
      → Result (Leaving E) A × S
  unfolding after_predicate
  wrapper unless none method s = (err (skip_test none), s)
  wrapper unless (some predicate) method s = after_predicate unless method (predicate s)

-- No exception is caught but by `skip_on_error`.
abbrev pub nothing : {E : Type 0} → E → Bool
nothing e = false

module _ {S E V A : Type 0} (truth : V → Bool) where
  unfoldable pub skip : (S → Result E A × S) → S → Result (Leaving E) A × S
  unfolding wrapper
  skip = wrapper {V = V} truth nothing none none

  unfoldable pub skip_if :
      (S → Result E V × S) → (S → Result E A × S) → S → Result (Leaving E) A × S
  unfolding wrapper
  skip_if predicate = wrapper truth nothing (some false) (some predicate)

  unfoldable pub skip_unless :
      (S → Result E V × S) → (S → Result E A × S) → S → Result (Leaving E) A × S
  unfolding wrapper
  skip_unless predicate = wrapper truth nothing (some true) (some predicate)

  unfoldable pub skip_on_error :
      (E → Bool) → (S → Result E V × S) → (S → Result E A × S) → S → Result (Leaving E) A × S
  unfolding wrapper
  skip_on_error caught predicate = wrapper truth caught none (some predicate)
