-- ===== src/Case/Examples.antt =====
-- Test cases that are numbers; the world lists the ids that were removed from the shelves.
use tobiko.Prelude.{ℕ, ◌≡◌, String, true, List, [], ◌∷◌, ok, err, arith, length, ◌==◌}
use tobiko.Case.{Unittest, TestCaseManager, Test, done, run_test, run}
use tobiko.Case.Nesting.{is_sound, run-balanced}

abbrev unittest : Unittest ℕ (List String) ℕ
unittest = record {
  is_same = λ c d. c == d;
  id = λ c. "id";
  time = λ w. length w;
  sub_test = λ parent name o. o;
  remove_test_from_all_shared_resources = λ name w. name ∷ w;
}

-- The test 2 raises in the test 1.
abbrev test : Test ℕ (List String) ℕ
test = run_test 1 (run_test 2 (done (err 5)) (done (ok tt))) (done (ok tt))

abbrev manager : TestCaseManager ℕ (List String)
manager = record { cases = record { case = 0; start_time = 0 } ∷ []; world = [] }

is_same_refl : (c : ℕ) → unittest.is_same c c ≡ true
is_same_refl c = ground arith

run-balanced_example :
    let (r, m') = run unittest test manager in (m'.cases ≡ manager.cases) × (is_sound r ≡ true)
run-balanced_example = run-balanced unittest is_same_refl (λ parent name r w h. h) test manager
