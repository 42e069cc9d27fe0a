-- ===== src/Table/Editing.antt =====
-- The methods that change a table: insert, __setitem__, __add__, __iadd__, the setter of columns,
-- replace.
use tobiko.Prelude.{
  ℕ, ◌+◌, ◌-◌, max, min, String, Bool, Option, none, some, List, [], ◌∷◌, ◌++◌, map, Result, ok,
  err, if◌then◌else◌, zip, take, drop, length, ltb, ◌==◌,
}
use tobiko.Prelude.Dict.{Dict, lookup, insert}
use tobiko.Table.{
  Error, key_error, index_error, value_error, type_error, TableData, Item, dict, tuple, Call, ◌>>◌,
  update, set_rows, validate_item, validate_keys, dicts, append, init, table_of,
}

-- An index i, or −(i + 1) counted from the end.
pub data Index : Type 0 where
  front back : ℕ → Index

-- The place that `xs.insert(i, x)` takes.
abbrev pub insert_place : Index → ℕ → ℕ
insert_place (front i) size = min i size
insert_place (back i) size = size - (i + 1)

abbrev pub item_place : Index → ℕ → Option ℕ
item_place (front i) size = if ltb i size then some i else none
item_place (back i) size = if ltb i size then some (size - (i + 1)) else none

-- What stands on the right of an assignment.
pub data Assigned (V : Type 0) : Type 0 where
  an_item : Item V → Assigned V
  a_list : List (Item V) → Assigned V

-- The argument `to_replace`.
pub data ToReplace (V : Type 0) : Type 0 where
  nothing : ToReplace V
  by_column : Dict V → ToReplace V
  one : V → ToReplace V

-- `xs[start:stop] = ys`
abbrev pub splice {ℓ} : {A : Type ℓ} → (start stop : ℕ) → List A → List A → List A
splice start stop ys xs = take start xs ++ ys ++ drop (max start stop) xs

module _ {V : Type 0} where
  unfoldable pub insert_item : Index → Item V → Call V Unit
  unfolding validate_keys
  insert_item i item =
      validate_item item
      >> set_rows
          λ rows. let n = insert_place i (length rows) in splice n n (dicts (item ∷ [])) rows

  -- `self.data[i] = item` of the list
  abbrev pub set_at : Option ℕ → Item V → Call V Unit
  set_at none item t = (err index_error, t)
  set_at (some n) item t = set_rows (splice n (n + 1) (dicts (item ∷ []))) t

  unfoldable pub set_index : Index → Assigned V → Call V Unit
  unfolding validate_keys
  set_index i (a_list _) t = (err type_error, t)
  set_index i (an_item (tuple _)) t = (err type_error, t)
  set_index i (an_item (dict row)) t =
      (validate_item (dict row) >> λ t. set_at (item_place i (length t.rows)) (dict row) t) t

  unfoldable pub validate_all : List (Item V) → Call V Unit
  unfolding validate_keys
  validate_all [] t = (ok tt, t)
  validate_all (item ∷ items) t = (validate_item item >> validate_all items) t

  -- `table[start:stop] = value`, with no step
  unfoldable pub set_slice : (start stop : ℕ) → Assigned V → Call V Unit
  unfolding validate_all
  set_slice start stop (an_item _) t = (err type_error, t)
  set_slice start stop (a_list values) t =
      (validate_all values >> set_rows (splice start stop (dicts values))) t

  -- `table += other`
  unfoldable pub iadd : List (Item V) → Call V Unit
  unfolding append
  iadd [] t = (ok tt, t)
  iadd (item ∷ other) t = (append item >> iadd other) t

  -- `table + other`
  unfoldable pub add : TableData V → List (Item V) → Result Error (TableData V)
  unfolding init
  add t other = init (map dict t.rows ++ other) []

  -- `{new_col: row[old_col] for new_col, old_col in pairs}`, from `new_row` on
  unfoldable pub rename_row : List (String × String) → Dict V → Dict V → Result Error (Dict V)
  rename_row [] row new_row = ok new_row
  rename_row ((new_col, old_col) ∷ pairs) row new_row = elim (lookup old_col row) [
    | none ↦ err key_error
    | some v ↦ rename_row pairs row (insert new_col v new_row)
  ]

  unfoldable pub rename_rows : List (String × String) → List (Dict V) → Result Error (List (Dict V))
  unfolding rename_row
  rename_rows pairs [] = ok []
  rename_rows pairs (row ∷ rows) = elim (rename_row pairs row []) [
    | err e ↦ err e
    | ok new_row ↦ elim (rename_rows pairs rows) [
      | err e ↦ err e
      | ok new_rows ↦ ok (new_row ∷ new_rows)
    ]
  ]

  -- `table.columns = new_columns`
  unfoldable pub set_columns : (new_columns : List String) → Call V Unit
  unfolding rename_rows
  set_columns new_columns t =
      if length new_columns == length t.schema
      then elim (rename_rows (zip new_columns t.schema) t.rows) [
        | err e ↦ (err e, t)
        | ok new_data ↦ (ok tt, record { schema = new_columns; rows = new_data })
      ]
      else (err value_error, t)

  -- `val == pattern`, and `re.sub(pattern, value or '', str(val))`, for the value given to replace;
  -- each may raise.
  module _ (eq : V → V → Result Error Bool) (sub : (pattern val : V) → Result Error V) (value : V)
      (regex : Bool) where
    abbrev pub replaced : (pattern val : V) → Result Error V
    replaced pattern val =
        if regex
        then sub pattern val
        else elim (eq val pattern) [ err e ↦ err e | ok same ↦ ok (if same then value else val) ]

    abbrev pub new_value : ToReplace V → (col : String) (val : V) → Result Error V
    new_value nothing col val = ok val
    new_value (one pattern) col val = replaced pattern val
    new_value (by_column patterns) col val = elim (lookup col patterns) [
      | none ↦ ok val
      | some pattern ↦ replaced pattern val
    ]

    unfoldable pub new_values : ToReplace V → Dict V → Result Error (List (String × V))
    new_values to_replace [] = ok []
    new_values to_replace ((col, val) ∷ row) = elim (new_value to_replace col val) [
      | err e ↦ err e
      | ok new_val ↦ elim (new_values to_replace row) [
        | err e ↦ err e
        | ok pairs ↦ ok ((col, new_val) ∷ pairs)
      ]
    ]

    unfoldable pub replace_row : ToReplace V → Dict V → Result Error (Dict V)
    unfolding new_values
    replace_row to_replace row = elim (new_values to_replace row) [
      | err e ↦ err e
      | ok pairs ↦ ok (update pairs [])
    ]

    -- The rows are replaced one by one, up to the first that raises.
    unfoldable pub replace_rows : ToReplace V → List (Dict V) → Result Error Unit × List (Dict V)
    unfolding replace_row
    replace_rows to_replace [] = (ok tt, [])
    replace_rows to_replace (row ∷ rows) =
        let (r, rest) = replace_rows to_replace rows in
        elim (replace_row to_replace row) [
          | err e ↦ (err e, row ∷ rows)
          | ok new_row ↦ (r, new_row ∷ rest)
        ]

    -- `replace(..., inplace=True)` and without it
    unfoldable pub replace_in_place : ToReplace V → Call V Unit
    unfolding replace_rows
    replace_in_place to_replace t =
        let (r, rows) = replace_rows to_replace t.rows in
        (r, record { schema = t.schema; rows = rows })

    unfoldable pub replace : ToReplace V → TableData V → Result Error (TableData V)
    unfolding init replace_in_place
    replace to_replace t = elim (table_of t.rows) [
      | err e ↦ err e
      | ok target ↦
          let (r, target') = replace_in_place to_replace target in
          elim r [ err e ↦ err e | ok _ ↦ ok target' ]
    ]
