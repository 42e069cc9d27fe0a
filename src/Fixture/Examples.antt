-- ===== src/Fixture/Examples.antt =====
-- Runs of shared fixtures and of the manager, and the theorems at them.
use tobiko.Prelude.{
  ℕ, suc, ◌+◌, ◌<◌, ◌≡◌, refl, String, Bool, true, false, Option, none, some, List, [], ◌∷◌, Result,
  ok, err, arith, ◌==◌, if◌then◌else◌,
}
use tobiko.Fixture.Shared
use tobiko.Fixture.Shared.{
  Base, Method, SharedFixture, with_inner, Call, set_up_call, clean_up_call, Counts, IsBalanced,
  run, run-IsBalanced, set_up_once,
}
use tobiko.Fixture.Manager.{
  Object, class', Target, named, object, Manager, get_fixture, get_fixtures, remove_fixture,
}
use tobiko.Fixture.Manager.Singletons.{get_fixture_again}

-- A fixture that counts its set-ups and cleanups, and whose second set-up fails.
record Counter : Type 0 where
  tries : ℕ
  setups : ℕ
  cleanups : ℕ

-- It calls the given cleanup where it raises, as `fixtures.Fixture` does.
set_up : Method Counter ℕ → Method Counter ℕ
set_up clean_up f =
    let c = f.inner in
    if c.tries == 1
    then (err 7, (clean_up (with_inner f (record c { tries = 2 }))).1)
    else (ok tt, with_inner f (record c { tries = suc c.tries; setups = suc c.setups }))

abbrev base : Base Counter ℕ
base = record {
  set_up = set_up;
  clean_up = λ b c. (ok tt, record c { cleanups = suc c.cleanups });
  add_cleanup = λ c. c;
}

raised :
    (method : Method Counter ℕ) (f : SharedFixture Counter) (e : ℕ)
    → (set_up method f).0 ≡ err e
    → (set_up method f).1 ≡ (method (with_inner f (record (f.inner) { tries = 2 }))).1
unfolding set_up
raised method f e h = ground arith

counts : Counts base (λ c. c.setups) (λ c. c.cleanups)
unfolding set_up
counts = record {
  set_up-ok = λ method f h. (ground arith, ground arith);
  set_up-err = λ method f e h.
      (record (f.inner) { tries = 2 }, unfold set_up in raised method f e h, refl, refl);
  setups-clean_up = λ b s. refl;
  cleanups-clean_up = λ b s. refl;
  setups-add_cleanup = λ s. refl;
  cleanups-add_cleanup = λ s. refl;
}

abbrev new : SharedFixture Counter
new = Shared.init (record { tries = 0; setups = 0; cleanups = 0 })

abbrev calls : List (Call base)
calls = set_up_call false ∷ set_up_call false ∷ clean_up_call false true ∷ set_up_call false ∷ []

run_calls : (run base calls new).inner ≡ record { tries = 2; setups = 1; cleanups = 2 }
unfolding run set_up
run_calls = refl

new-IsBalanced : IsBalanced base (λ c. c.setups) (λ c. c.cleanups) new
new-IsBalanced = record { consistent = refl; balanced = omega arith }

run-IsBalanced_example : IsBalanced base (λ c. c.setups) (λ c. c.cleanups) (run base calls new)
run-IsBalanced_example =
    run-IsBalanced base (λ c. c.setups) (λ c. c.cleanups) counts calls new new-IsBalanced

-- The manager
abbrev stack : Object
stack = record {
  fixture_name = none;
  kind = class';
  is_function = false;
  own = record { module_name = some "tobiko.stacks"; qualname = some "ServerStack" };
  type_of = record { module_name = none; qualname = none };
}

abbrev load : String → Option Object
load name = some stack

-- Every call of a class gives a new number.
abbrev count : Object → ℕ → Option ℕ × ℕ
count obj n = (some n, suc n)

abbrev is_fixture : ℕ → Bool
is_fixture f = true

abbrev empty : Manager ℕ ℕ
empty = record { fixtures = []; world = 0 }

first_got : (get_fixture load count is_fixture (object stack) (some "id") empty).0 ≡ ok 0
unfolding get_fixture tobiko.Prelude.Dict.lookup
first_got = refl

abbrev others : List (Target × Option String)
others = (object stack, none) ∷ (named "x", some "y") ∷ (object stack, some "id") ∷ []

get_fixture_again_example :
    let got = (get_fixture load count is_fixture (object stack) (some "id") empty).1 in
    let m = get_fixtures load count is_fixture others got in
    (get_fixture load count is_fixture (object stack) (some "id") m ≡ (ok 0, m))
    × ((remove_fixture (object stack) (some "id") m).0 ≡ ok (some 0))
get_fixture_again_example =
    get_fixture_again load count is_fixture (object stack) (some "id") empty 0 others first_got
