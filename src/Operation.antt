-- ===== src/Operation.antt =====
-- tobiko/common/_operation.py: operations that are run once, and tests that stand before or after one.
-- `run_operation` is the user's. The configuration is read from TOBIKO_AFTER_OPERATIONS and
-- TOBIKO_RUN_OPERATIONS, once.
pub mod Once
use tobiko.Prelude.{
  String, Bool, true, false, not, ◌&&◌, Option, none, some, List, [], ◌∷◌, Result, ok, err, str_eq,
  if◌then◌else◌,
}
use tobiko.Skip.{Leaving, skip_unless}

pub record Config : Type 0 where
  pub after_operations : List String
  pub run_operations : Bool

-- `is_after'` is the attribute `_is_after`; `setup_executed` is the flag of `SharedFixture.setUp`.
pub record Operation (S : Type 0) : Type 0 where
  pub operation_name : String
  pub is_after' : Option Bool
  pub setup_executed : Bool
  pub inner : S

abbrev pub init : {S : Type 0} → String → S → Operation S
init name s = record { operation_name = name; is_after' = none; setup_executed = false; inner = s }

abbrev pub listed : String → List String → Bool
listed name [] = false
listed name (n ∷ ns) = if str_eq n name then true else listed name ns

module _ {S E : Type 0} (config : Config) (run_operation : S → Result E (Unit {0}) × S) where
  -- The property reads the configuration once and keeps the answer.
  unfoldable pub is_after : Operation S → Bool × Operation S
  is_after op = elim op.is_after' [
    | some b ↦ (b, op)
    | none ↦
        let b = listed op.operation_name config.after_operations in
        (b, record op { is_after' = some b })
  ]

  -- Whether it succeeds or raises, the operation has been run.
  unfoldable pub setup_fixture : Operation S → Result E (Unit {0}) × Operation S
  unfolding is_after
  setup_fixture op =
      let (after, op') = is_after op in
      let (r, s) = run_operation op'.inner in
      if after then (ok tt, op') else (r, record op' { inner = s; is_after' = some true })

  -- `SharedFixture.setUp`
  unfoldable pub set_up : Operation S → Result E (Unit {0}) × Operation S
  unfolding setup_fixture
  set_up op =
      let (r, op') = setup_fixture op in
      if op.setup_executed
      then (ok tt, op)
      else elim r [ ok _ ↦ (ok tt, record op' { setup_executed = true }) | err e ↦ (err e, op') ]

  unfoldable pub get_operation : Operation S → Result E (Unit {0}) × Operation S
  unfolding set_up
  get_operation op =
      let (after, op') = is_after op in
      if not after && config.run_operations then set_up op' else (ok tt, op')

  unfoldable pub answer :
      (Bool → Bool) → Result E (Unit {0}) × Operation S → Result E Bool × Operation S
  answer f (ok _, op) = let (after, op') = is_after op in (ok (f after), op')
  answer f (err e, op) = (err e, op)

  -- The predicate of the decorators: the value of `is_before` or `is_after` of `get_operation()`.
  unfoldable pub predicate : (Bool → Bool) → Operation S → Result E Bool × Operation S
  predicate f op = answer f (get_operation op)

  module _ {A : Type 0} (test : Operation S → Result E A × Operation S) where
    unfoldable pub before_operation : Operation S → Result (Leaving E) A × Operation S
    unfolding predicate skip_unless
    before_operation = skip_unless (λ b. b) (predicate not) test

    unfoldable pub after_operation : Operation S → Result (Leaving E) A × Operation S
    unfolding predicate skip_unless
    after_operation = skip_unless (λ b. b) (predicate (λ b. b)) test
