-- ===== src/Shelves.antt =====
-- tobiko/common/_shelves.py: which tests use which shared resource. A shelf is a file with a
-- dictionary from resources to sets of test ids; the shelves directory is a dictionary of shelves.
-- Whether a shelf can be opened is a parameter of the functions.
pub mod Holding
use tobiko.Prelude.{
  String, Bool, true, false, not, ◌&&◌, ◌||◌, Option, none, some, List, [], ◌∷◌, Result, ok, err,
  str_eq, if◌then◌else◌,
}
use tobiko.Prelude.Dict.{Dict, lookup, insert, is_in}

-- A set of test ids, in the order in which they were added.
abbrev pub Tests : Type 0
Tests = List String

-- `auxset.add(testcase_id)`
unfoldable pub add : String → Tests → Tests
unfolding is_in
add t tests = if is_in t tests then tests else t ∷ tests

-- `auxset.remove(testcase_id)`, where it is in the set
unfoldable pub discard : String → Tests → Tests
discard t [] = []
discard t (u ∷ us) = let rest = discard t us in if str_eq u t then rest else u ∷ rest

abbrev pub Shelf : Type 0
Shelf = Dict Tests

abbrev pub Shelves : Type 0
Shelves = Dict Shelf

abbrev pub or_empty {ℓ} : {A : Type ℓ} → Option (List A) → List A
or_empty none = []
or_empty (some xs) = xs

-- The block under `shelve.open` of addme_to_shared_resource.
unfoldable pub added : (shelf resource testcase_id : String) → Shelves → Tests × Shelves
unfolding add
added shelf resource testcase_id shelves =
    let db = or_empty (lookup shelf shelves) in
    let auxset = add testcase_id (or_empty (lookup resource db)) in
    (auxset, insert shelf (insert resource auxset db) shelves)

-- The block under `shelve.open` of removeme_from_shared_resource.
unfoldable pub removed : (shelf resource testcase_id : String) → Shelves → Tests × Shelves
unfolding discard
removed shelf resource testcase_id shelves =
    let db = or_empty (lookup shelf shelves) in
    let tests = or_empty (lookup resource db) in
    let auxset = if is_in testcase_id tests then discard testcase_id tests else tests in
    (auxset, insert shelf (insert resource auxset db) shelves)

-- What the attempts to open a shelf come to: one of them opened it, or the exception of the last one is
-- raised; the attempts before leave the shelves as they are.
abbrev pub opens :
    {E A : Type 0} → Result E (Unit {0}) → (Shelves → A × Shelves) → Shelves → Result E A × Shelves
opens (err e) block shelves = (err e, shelves)
opens (ok _) block shelves = let (a, shelves') = block shelves in (ok a, shelves')

unfoldable pub addme_to_shared_resource :
    {E : Type 0}
    → Result E (Unit {0})
    → (shelf resource testcase_id : String) → Shelves
    → Result E Tests × Shelves
addme_to_shared_resource opened shelf resource testcase_id =
    opens opened (added shelf resource testcase_id)

unfoldable pub removeme_from_shared_resource :
    {E : Type 0}
    → Result E (Unit {0})
    → (shelf resource testcase_id : String) → Shelves
    → Result E Tests × Shelves
removeme_from_shared_resource opened shelf resource testcase_id =
    opens opened (removed shelf resource testcase_id)

-- `for resource in db.keys()`
unfoldable pub remove_test_from_shelf_resources : String → Shelf → Shelf
unfolding is_in discard
remove_test_from_shelf_resources testcase_id [] = []
remove_test_from_shelf_resources testcase_id ((resource, tests) ∷ db) =
    let rest = remove_test_from_shelf_resources testcase_id db in
    (resource, if is_in testcase_id tests then discard testcase_id tests else tests) ∷ rest

-- `s in filename` and `filename.endswith(s)` of Python's texts are parameters.
module _ (contains ends_with : String → String → Bool) where
  abbrev pub is_resource_shelf : String → Bool
  is_resource_shelf filename =
      not (contains "test_run" filename)
      && not
          (ends_with "-shm" filename || ends_with "-wal" filename || ends_with "-journal" filename)

  unfoldable pub remove_test_from_all_shared_resources : String → Shelves → Shelves
  unfolding remove_test_from_shelf_resources
  remove_test_from_all_shared_resources testcase_id [] = []
  remove_test_from_all_shared_resources testcase_id ((filename, db) ∷ shelves) =
      let rest = remove_test_from_all_shared_resources testcase_id shelves in
      (
        filename,
        if is_resource_shelf filename then remove_test_from_shelf_resources testcase_id db else db,
      )
      ∷ rest
