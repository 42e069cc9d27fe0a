-- ===== src/Operation/Once.antt =====
-- An operation is run once at most, and decides which tests run.
use tobiko.Prelude.{
  ℕ, zero, suc, ◌+◌, ◌≡◌, refl, String, Bool, true, not, ◌&&◌, ◌||◌, none, some, Result, ok, err,
  arith, if◌then◌else◌,
}
use tobiko.Skip.{Leaving, skip_test, lift}
use tobiko.Operation.{
  Config, Operation, init, listed, get_operation, before_operation, after_operation, is_after,
  predicate, answer,
}

module _ {S E : Type 0} (config : Config) (run_operation : S → Result E (Unit {0}) × S) where
  abbrev pub times : ℕ → Operation S → Operation S
  times zero op = op
  times (suc n) op = times n (get_operation config run_operation op).1

  -- The operation is to be run by the tests.
  abbrev pub is_due : String → Bool
  is_due name = not (listed name config.after_operations) && config.run_operations

  module _ (runs : S → ℕ) (counts : (s : S) → runs (run_operation s).1 ≡ suc (runs s)) where
    first_time :
        (name : String) (s : S)
        → let op = (get_operation config run_operation (init name s)).1 in
          runs op.inner ≡ runs s + (if is_due name then 1 else 0)
    unfolding get_operation
    first_time name s = ground (arith, counts s)

  settled : Operation S → Bool
  settled op = elim op.is_after' [ some true ↦ true | _ ↦ not config.run_operations ]

  module _ (runs : S → ℕ) (counts : (s : S) → runs (run_operation s).1 ≡ suc (runs s)) where
    get_operation-settled :
        (op : Operation S)
        → settled op ≡ true
        → settled (get_operation config run_operation op).1 ≡ true
    unfolding get_operation settled
    get_operation-settled op h = ground arith

    get_operation-runs :
        (op : Operation S)
        → settled op ≡ true
        → runs (get_operation config run_operation op).1.inner ≡ runs op.inner
    unfolding get_operation settled
    get_operation-runs op h = ground arith

    init-settled :
        (name : String) (s : S)
        → settled (get_operation config run_operation (init name s)).1 ≡ true
    unfolding get_operation settled
    init-settled name s = ground arith

    times-runs :
        (n : ℕ) (op : Operation S) → settled op ≡ true → runs (times n op).inner ≡ runs op.inner
    times-runs zero op h = refl
    times-runs (suc n) op h =
        let next = get_operation config run_operation op in
        ground (arith, times-runs n next.1 (get_operation-settled op h), get_operation-runs op h)

    -- However often an operation is got, the first time included, and whether running it succeeds
    -- or raises, it has been run once if it is due and never otherwise.
    pub runs_once :
        (n : ℕ) (name : String) (s : S)
        → runs (times (suc n) (init name s)).inner ≡ runs s + (if is_due name then 1 else 0)
    runs_once n name s =
        let next = get_operation config run_operation (init name s) in
        ground (arith, times-runs n next.1 (init-settled name s), first_time runs counts name s)

  abbrev is_reached : String → Bool
  is_reached name = listed name config.after_operations || config.run_operations

  got :
      (name : String) (s : S) (op : Operation S)
      → get_operation config run_operation (init name s) ≡ (ok tt, op)
      → op.is_after' ≡ some (is_reached name)
  unfolding get_operation
  got name s op h = ground arith

  is_after-kept :
      (op : Operation S) (b : Bool)
      → op.is_after' ≡ some b
      → is_after config run_operation op ≡ (b, op)
  unfolding is_after
  is_after-kept op b h = ground arith

  predicate-got :
      (f : Bool → Bool) (name : String) (s : S) (op : Operation S)
      → get_operation config run_operation (init name s) ≡ (ok tt, op)
      → predicate config run_operation f (init name s) ≡ (ok (f (is_reached name)), op)
  unfolding predicate answer
  predicate-got f name s op h = rw (h, is_after-kept op (is_reached name) (got name s op h))

  -- Where getting the operation does not raise, an `after_operation` test runs and a
  -- `before_operation` test is skipped if the operation is listed or operations are run; else it is
  -- the other way round.
  pub before_after :
      {A : Type 0} (test : Operation S → Result E A × Operation S)
      → (name : String) (s : S) (op : Operation S)
      → get_operation config run_operation (init name s) ≡ (ok tt, op)
      → let reached = listed name config.after_operations || config.run_operations in
        let skipped : Result (Leaving E) A × Operation S = (err (skip_test none), op) in
        (before_operation config run_operation test (init name s)
          ≡ (if reached then skipped else lift (test op)))
        × (after_operation config run_operation test (init name s)
            ≡ (if reached then lift (test op) else skipped))
  unfolding get_operation before_operation after_operation lift
  before_after test name s op h =
      rw (predicate-got not name s op h, predicate-got (λ b. b) name s op h) ground arith
