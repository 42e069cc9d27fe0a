-- ===== src/Case.antt =====
-- tobiko/common/_case.py: the stack of running test cases and the results they forward.
-- Test cases are of unittest: their type `C`, identity and `id` are parameters, and so are
-- `subTest`, whose block may swallow an exception, and the world `W` that the bodies of tests change.
pub mod Nesting
pub mod Results
mod Examples
use tobiko.Prelude.{
  ℕ, String, Bool, true, false, Option, none, some, List, [], ◌∷◌, Result, ok, err, if◌then◌else◌,
}

pub record TestCaseEntry (C : Type 0) : Type 0 where
  pub case : C
  pub start_time : ℕ

-- The entries of `_cases`, the last one first, and the world.
pub record TestCaseManager (C W : Type 0) : Type 0 where
  pub cases : List (TestCaseEntry C)
  pub world : W

-- IndexError of an empty list, AssertionError, and what a test raises.
pub data CaseError (E : Type 0) : Type 0 where
  index_error : CaseError E
  assertion_error : CaseError E
  raised : E → CaseError E

-- None stands for a DummyTestCase.
abbrev pub get_test_case : {C W : Type 0} → TestCaseManager C W → Option C
get_test_case m = elim m.cases [ [] ↦ none | entry ∷ _ ↦ some entry.case ]

abbrev pub get_parent_test_case : {C W : Type 0} → TestCaseManager C W → Option C
get_parent_test_case m = elim m.cases [ _ ∷ entry ∷ _ ↦ some entry.case | _ ↦ none ]

-- What a test does: change the world, run another test case, ask for the running one, or end.
pub data Test (C W E : Type 0) : Type 0 where
  done : Result E (Unit {0}) → Test C W E
  act : (W → W) → Test C W E → Test C W E
  ask : (Option C → Option C → Bool) → Test C W E → Test C W E → Test C W E
  run_test : C → Test C W E → Test C W E → Test C W E

-- The methods of unittest's test cases, the clock, and the clean up of the shelves.
pub record Unittest (C W E : Type 0) : Type 0 where
  pub is_same : C → C → Bool
  pub id : C → String
  pub time : W → ℕ
  pub sub_test :
      Option C → String → Result (CaseError E) (Unit {0}) × W → Result (CaseError E) (Unit {0}) × W
  pub remove_test_from_all_shared_resources : String → W → W

unfoldable pub pop_test_case :
    {C W E : Type 0} → TestCaseManager C W → Result (CaseError E) C × TestCaseManager C W
pop_test_case m = elim m.cases [
  | [] ↦ (err index_error, m)
  | entry ∷ rest ↦ (ok entry.case, record m { cases = rest })
]

module _ {C W E : Type 0} (u : Unittest C W E) where
  unfoldable pub push_test_case : C → TestCaseManager C W → Option C × TestCaseManager C W
  push_test_case c m =
      let entry : TestCaseEntry C = record { case = c; start_time = u.time m.world } in
      (get_test_case m, record m { cases = entry ∷ m.cases })

  -- The `finally` clause, after a block with the outcome `r`.
  unfoldable pub leave_test_case :
      C
      → Result (CaseError E) (Unit {0}) × TestCaseManager C W
      → Result (CaseError E) (Unit {0}) × TestCaseManager C W
  unfolding pop_test_case
  leave_test_case c (r, m) =
      let (popped, m') = pop_test_case m in
      elim popped [
        | err e ↦ (err e, m')
        | ok c' ↦
            if u.is_same c c'
            then (
              r,
              record m' { world = u.remove_test_from_all_shared_resources (u.id c) m'.world },
            )
            else (err assertion_error, m')
      ]

  -- `with enter_test_case(c): body`
  unfoldable pub enter_test_case :
      C
      → (TestCaseManager C W → Result (CaseError E) (Unit {0}) × TestCaseManager C W)
      → TestCaseManager C W
      → Result (CaseError E) (Unit {0}) × TestCaseManager C W
  unfolding push_test_case leave_test_case
  enter_test_case c body m =
      let (parent, m') = push_test_case c m in
      let (r, m'') = body m' in
      let (r', w) = u.sub_test parent (u.id c) (r, m''.world) in
      leave_test_case c (r', record m'' { world = w })

  -- A test's code; `BaseTestCase.run` enters the test case around it.
  unfoldable pub run :
      Test C W E → TestCaseManager C W → Result (CaseError E) (Unit {0}) × TestCaseManager C W
  unfolding enter_test_case
  run (done (ok _)) m = (ok tt, m)
  run (done (err e)) m = (err (raised e), m)
  run (act f rest) m = run rest (record m { world = f m.world })
  run (ask f yes_case no_case) m =
      let taken = run yes_case m in
      let other = run no_case m in
      if f (get_test_case m) (get_parent_test_case m) then taken else other
  run (run_test c body rest) m =
      let (r, m') = enter_test_case c (run body) m in
      let after = run rest m' in elim r [ ok _ ↦ after | err e ↦ (err e, m') ]
