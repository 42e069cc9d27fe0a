-- ===== src/Table/Consistent.antt =====
-- Every change of a table, and every sequence of changes, keeps its rows to its schema.
use tobiko.Prelude.{
  ℕ, ◌+◌, String, Bool, List, [], ◌∷◌, ◌++◌, inl, inr, length, ◌==◌, Bool-cases, ==_iff, Option,
  none, some, Result, Result-cases,
}
use tobiko.Prelude.Dict.{Dict}
use tobiko.Table.{Error, TableData, Item, dict, tuple, Call, dicts, validate_item, append}
use tobiko.Table.Calls.{then-ok, then-err}
use tobiko.Table.Fitting.{
  Fits, IsTable, Grows-IsTable, splice-Fits, append-Fits, validated, validated_all,
  set_rows-IsTable,
}
use tobiko.Table.Renaming.{rename_rows-Fits, replace-Fits}
use tobiko.Table.Editing.{
  Index, insert_place, insert_item, Assigned, an_item, a_list, set_index, set_at, item_place,
  set_slice, validate_all, splice, iadd, set_columns, ToReplace, replace_in_place,
}

pub data Change (V : Type 0) : Type 0 where
  appends : Item V → Change V
  inserts : Index → Item V → Change V
  sets_index : Index → Assigned V → Change V
  sets_slice : (start stop : ℕ) → Assigned V → Change V
  extends : List (Item V) → Change V
  sets_columns : List String → Change V
  replaces : (value : V) (regex : Bool) → ToReplace V → Change V

module _ {V : Type 0} (eq : V → V → Result Error Bool)
    (sub : (pattern val : V) → Result Error V) where
  unfoldable pub perform : Change V → Call V Unit
  perform (appends item) = append item
  perform (inserts i item) = insert_item i item
  perform (sets_index i value) = set_index i value
  perform (sets_slice start stop value) = set_slice start stop value
  perform (extends other) = iadd other
  perform (sets_columns new_columns) = set_columns new_columns
  perform (replaces value regex to_replace) = replace_in_place eq sub value regex to_replace

  -- The caller goes on after an exception.
  unfoldable pub perform_all : List (Change V) → TableData V → TableData V
  perform_all [] t = t
  perform_all (change ∷ changes) t = perform_all changes (perform change t).1

  append-IsTable : (item : Item V) (t : TableData V) → IsTable t → IsTable (append item t).1
  unfolding append
  append-IsTable item t h =
      set_rows-IsTable (validate_item item) (λ rows. rows ++ dicts (item ∷ [])) (dicts (item ∷ []))
        t (validated item t) h λ schema rows fn fr. append-Fits schema rows _ fr fn

  iadd-IsTable : (other : List (Item V)) (t : TableData V) → IsTable t → IsTable (iadd other t).1
  unfolding iadd
  iadd-IsTable [] t h = h
  iadd-IsTable (item ∷ other) t h =
      let h' = append-IsTable item t h in
      elim (Result-cases (append item t).0) [
        | inl (a, e) ↦ rw (then-ok (append item) (iadd other) t a e) (iadd-IsTable other _ h')
        | inr (x, e) ↦ rw (then-err (append item) (iadd other) t x e) h'
      ]

  insert_item-IsTable :
      (i : Index) (item : Item V) (t : TableData V) → IsTable t → IsTable (insert_item i item t).1
  unfolding insert_item
  insert_item-IsTable i item t h =
      let new = dicts (item ∷ []) in
      let place = λ (rows : List (Dict V)). insert_place i (length rows) in
      set_rows-IsTable (validate_item item) (λ rows. splice (place rows) (place rows) new rows) new
        t (validated item t) h
        λ schema rows fn fr. splice-Fits schema (place rows) (place rows) new rows fn fr

  set_slice-IsTable :
      (start stop : ℕ) (value : Assigned V) (t : TableData V)
      → IsTable t
      → IsTable (set_slice start stop value t).1
  unfolding set_slice
  set_slice-IsTable start stop (an_item _) t h = h
  set_slice-IsTable start stop (a_list items) t h =
      set_rows-IsTable (validate_all items) (splice start stop (dicts items)) (dicts items) t
        (validated_all items t) h
        λ schema rows fn fr. splice-Fits schema start stop (dicts items) rows fn fr

  set_at-IsTable :
      (place : Option ℕ) (row : Dict V) (t : TableData V)
      → IsTable t
      → Fits t.schema (row ∷ [])
      → IsTable (set_at place (dict row) t).1
  set_at-IsTable none row t h f = h
  set_at-IsTable (some n) row t h f = splice-Fits t.schema n (n + 1) _ t.rows f h

  set_index-IsTable :
      (i : Index) (value : Assigned V) (t : TableData V)
      → IsTable t
      → IsTable (set_index i value t).1
  unfolding set_index
  set_index-IsTable i (a_list _) t h = h
  set_index-IsTable i (an_item (tuple _)) t h = h
  set_index-IsTable i (an_item (dict row)) t h =
      let place = λ (u : TableData V). set_at (item_place i (length u.rows)) (dict row) u in
      let valid = validated (dict row) t in
      let h' = Grows-IsTable t _ valid.0 h in
      elim (Result-cases (validate_item (dict row) t).0) [
        | inl (a, e) ↦ rw (then-ok (validate_item (dict row)) place t a e) (
            set_at-IsTable (item_place i (length (validate_item (dict row) t).1.rows)) row _ h'
              (valid.1 e))
        | inr (x, e) ↦ rw (then-err (validate_item (dict row)) place t x e) h'
      ]

  set_columns-IsTable :
      (new : List String) (t : TableData V) → IsTable t → IsTable (set_columns new t).1
  unfolding set_columns
  set_columns-IsTable new t h = elim (Bool-cases (length new == length t.schema)) [
    | inr other ↦ rw other h
    | inl same ↦
        let (rows, e, fit, _) = rename_rows-Fits new t.schema t.rows ((==_iff _ _).0 same) h in
        rw same (rw e fit)
  ]

  pub perform-IsTable :
      (change : Change V) (t : TableData V) → IsTable t → IsTable (perform change t).1
  unfolding perform replace_in_place
  perform-IsTable (appends item) t h = append-IsTable item t h
  perform-IsTable (inserts i item) t h = insert_item-IsTable i item t h
  perform-IsTable (sets_index i value) t h = set_index-IsTable i value t h
  perform-IsTable (sets_slice start stop value) t h = set_slice-IsTable start stop value t h
  perform-IsTable (extends other) t h = iadd-IsTable other t h
  perform-IsTable (sets_columns new) t h = set_columns-IsTable new t h
  perform-IsTable (replaces value regex to_replace) t h =
      replace-Fits eq sub value regex t.schema to_replace t.rows h

  -- After any sequence of appends, insertions, assignments to an index or a slice, in-place
  -- additions, new column names and replacements in place, whether they raised or not, each row of
  -- the table has exactly the names of its schema as keys, and there is no row without a schema, if
  -- it was so before.
  pub perform_all-IsTable :
      (changes : List (Change V)) (t : TableData V) → IsTable t → IsTable (perform_all changes t)
  unfolding perform_all
  perform_all-IsTable [] t h = h
  perform_all-IsTable (change ∷ changes) t h =
      perform_all-IsTable changes (perform change t).1 (perform-IsTable change t h)
