-- ===== src/Skip/Deciding.antt =====
-- When a decorated method runs, is skipped or raises.
use tobiko.Prelude.{◌≡◌, Bool, none, Result, ok, err, arith, if◌then◌else◌}
use tobiko.Skip.{Leaving, skip_test, raised, lift, skip_if, skip_unless}

module _ {S E V A : Type 0} (truth : V → Bool) (predicate : S → Result E V × S)
    (method : S → Result E A × S) (s : S) where
  -- Of one predicate, evaluated once, exactly one of `skip_if` and `skip_unless` runs the method, from
  -- the state that the predicate leaves, and the other one skips without it: `skip_if` runs it where
  -- the value is false. Where the predicate raises, both raise the same, and nothing is skipped.
  pub skip_if_unless :
      ((v : V)
        → (predicate s).0 ≡ ok v
        → let run = lift (method (predicate s).1) in
          let skipped : Result (Leaving E) A × S = (err (skip_test none), (predicate s).1) in
          (skip_if truth predicate method s ≡ (if truth v then skipped else run))
          × (skip_unless truth predicate method s ≡ (if truth v then run else skipped)))
      × ((e : E)
          → (predicate s).0 ≡ err e
          → (skip_if truth predicate method s ≡ (err (raised e), (predicate s).1))
            × (skip_unless truth predicate method s ≡ (err (raised e), (predicate s).1)))
  unfolding skip_if skip_unless
  skip_if_unless = (λ v h. (ground arith, ground arith), λ e h. (ground arith, ground arith))
