-- ===== src/Case/Nesting.antt =====
-- Running tests in tests leaves the stack of test cases as it was.
use tobiko.Prelude.{
  ◌≡◌, refl, ap, ◌∙◌, String, Bool, true, false, Option, List, ◌∷◌, Result, ok, err, arith,
}
use tobiko.Case.{
  Unittest, TestCaseManager, TestCaseEntry, get_test_case, CaseError, index_error, assertion_error,
  Test, done, act, ask, run_test, run, enter_test_case, leave_test_case, push_test_case,
  pop_test_case,
}

-- The outcome is not an error of the stack itself.
abbrev pub is_sound : {E : Type 0} → Result (CaseError E) (Unit {0}) → Bool
is_sound (err index_error) = false
is_sound (err assertion_error) = false
is_sound _ = true

module _ {C W E : Type 0} (u : Unittest C W E) (is_same_refl : (c : C) → u.is_same c c ≡ true)
    (sub_test_sound : (parent : Option C) (name : String) (r : Result (CaseError E) (Unit {0}))
        (w : W)
      → is_sound r ≡ true
      → is_sound (u.sub_test parent name (r, w)).0 ≡ true) where
  leave-balanced :
      (c : C) (r : Result (CaseError E) (Unit {0})) (m : TestCaseManager C W)
      → (entry : TestCaseEntry C) (rest : List (TestCaseEntry C)) → m.cases ≡ (entry ∷ rest)
      → c ≡ entry.case
      → ((leave_test_case u c (r, m)).1.cases ≡ rest) × ((leave_test_case u c (r, m)).0 ≡ r)
  unfolding leave_test_case pop_test_case
  leave-balanced c r m entry rest h k = ground (arith, is_same_refl c)

  enter-balanced :
      (c : C)
      → (body : TestCaseManager C W → Result (CaseError E) (Unit {0}) × TestCaseManager C W)
      → (m : TestCaseManager C W)
      → let m' = (push_test_case u c m).1 in
        ((body m').1.cases ≡ m'.cases)
        → is_sound (body m').0 ≡ true
        → let (r, last) = enter_test_case u c body m in (last.cases ≡ m.cases) × (is_sound r ≡ true)
  unfolding enter_test_case push_test_case
  enter-balanced c body m h k =
      let (r, m') = body (push_test_case u c m).1 in
      let (r', w) = u.sub_test (get_test_case m) (u.id c) (r, m'.world) in
      let left =
        leave-balanced c r' (record m' { world = w })
          (record { case = c; start_time = u.time m.world }) m.cases h refl in
      (left.0, ap is_sound left.1 ∙ sub_test_sound (get_test_case m) (u.id c) r m'.world k)

  -- Where a subtest raises no error of the stack that its block did not raise, whatever tests run in
  -- a test, and whether they raise or not, the stack of test cases is at the end what it was at the
  -- start, and neither the assertion of `enter_test_case` nor `pop` of an empty list fails.
  pub run-balanced :
      (test : Test C W E) (m : TestCaseManager C W)
      → let (r, m') = run u test m in (m'.cases ≡ m.cases) × (is_sound r ≡ true)
  unfolding run push_test_case
  run-balanced (done (ok _)) m = (refl, refl)
  run-balanced (done (err e)) m = (refl, refl)
  run-balanced (act f rest) m = run-balanced rest (record m { world = f m.world })
  run-balanced (ask f yes_case no_case) m =
      ground (arith, run-balanced yes_case m, run-balanced no_case m)
  run-balanced (run_test c body rest) m =
      let m' = (push_test_case u c m).1 in
      let entered = run-balanced body m' in
      let left = enter-balanced c (run u body) m entered.0 entered.1 in
      ground (arith, left, run-balanced rest (enter_test_case u c (run u body) m).1)
