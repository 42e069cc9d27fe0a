-- ===== src/Shelves/Holding.antt =====
-- Which tests a resource has after each operation.
use tobiko.Prelude.{
  ◌≡◌, String, Bool, true, false, ◌&&◌, [], ◌∷◌, arith, str_eq, eq_iff, if◌then◌else◌,
}
use tobiko.Prelude.Dict.{is_in, lookup, insert, lookup-insert}
use tobiko.Shelves.{
  Tests, add, discard, Shelf, Shelves, or_empty, added, removed, remove_test_from_shelf_resources,
  is_resource_shelf, remove_test_from_all_shared_resources,
}

-- The test is one of the users of the resource.
unfoldable pub holds : Shelves → (shelf resource testcase_id : String) → Bool
holds shelves shelf resource t =
    is_in t (or_empty (lookup resource (or_empty (lookup shelf shelves))))

pub is_in-add :
    (t u : String) (ts : Tests) → is_in u (add t ts) ≡ (if str_eq t u then true else is_in u ts)
unfolding is_in add
is_in-add t u ts = ground (arith, eq_iff t u)

pub is_in-discard :
    (t u : String) (ts : Tests)
    → is_in u (discard t ts) ≡ (if str_eq t u then false else is_in u ts)
unfolding is_in discard
is_in-discard t u [] = ground arith
is_in-discard t u (v ∷ vs) =
    ground (arith, eq_iff t u, eq_iff v u, eq_iff v t, is_in-discard t u vs)

pub holds-update :
    (shelf resource : String) (tests : Tests) (shelves : Shelves) (shelf' resource' u : String)
    → holds
        (insert shelf (insert resource tests (or_empty (lookup shelf shelves))) shelves)
        shelf'
        resource'
        u
      ≡ (if str_eq shelf shelf' && str_eq resource resource'
          then is_in u tests
          else holds shelves shelf' resource' u)
unfolding holds
holds-update shelf resource tests shelves shelf' resource' u =
    let db = or_empty (lookup shelf shelves) in
    ground (
      arith,
      eq_iff shelf shelf',
      lookup-insert shelf shelf' (insert resource tests db) shelves,
      lookup-insert resource resource' tests db,
    )

-- After a test is added to a resource of a shelf, or removed from it, that test alone is or is not
-- one of its users; every other test, resource and shelf is as before.
pub share_lem :
    (shelf resource t : String) (shelves : Shelves) (shelf' resource' u : String)
    → let here = str_eq shelf shelf' && str_eq resource resource' && str_eq t u in
      let before = holds shelves shelf' resource' u in
      (holds (added shelf resource t shelves).1 shelf' resource' u
        ≡ (if here then true else before))
      × (holds (removed shelf resource t shelves).1 shelf' resource' u
          ≡ (if here then false else before))
unfolding added removed holds
share_lem shelf resource t shelves shelf' resource' u =
    let tests = or_empty (lookup resource (or_empty (lookup shelf shelves))) in
    let without = if is_in t tests then discard t tests else tests in
    (
      ground (
        arith,
        eq_iff shelf shelf',
        eq_iff resource resource',
        eq_iff t u,
        holds-update shelf resource (add t tests) shelves shelf' resource' u,
        is_in-add t u tests,
      ),
      ground (
        arith,
        eq_iff shelf shelf',
        eq_iff resource resource',
        eq_iff t u,
        holds-update shelf resource without shelves shelf' resource' u,
        is_in-discard t u tests,
      ),
    )

lookup-remove_test :
    (t resource u : String) (db : Shelf)
    → is_in u (or_empty (lookup resource (remove_test_from_shelf_resources t db)))
      ≡ (if str_eq t u then false else is_in u (or_empty (lookup resource db)))
unfolding lookup remove_test_from_shelf_resources is_in
lookup-remove_test t resource u [] = ground arith
lookup-remove_test t resource u ((r, tests) ∷ db) =
    ground (arith, eq_iff t u, is_in-discard t u tests, lookup-remove_test t resource u db)

module _ (contains ends_with : String → String → Bool) where
  -- After a test is removed from all shared resources it uses none of those of a shelf, the file of
  -- the test run and the auxiliary files aside, and every other use is as before.
  pub remove_test_from_all_shared_resources_lem :
      (t : String) (shelves : Shelves) (shelf resource u : String)
      → holds (remove_test_from_all_shared_resources contains ends_with t shelves) shelf resource u
        ≡ (if is_resource_shelf contains ends_with shelf && str_eq t u
            then false
            else holds shelves shelf resource u)
  unfolding holds lookup remove_test_from_all_shared_resources is_in
  remove_test_from_all_shared_resources_lem t [] shelf resource u = ground arith
  remove_test_from_all_shared_resources_lem t ((name, db) ∷ shelves) shelf resource u = ground (
    arith,
    eq_iff t u,
    eq_iff name shelf,
    lookup-remove_test t resource u db,
    remove_test_from_all_shared_resources_lem t shelves shelf resource u,
  )
