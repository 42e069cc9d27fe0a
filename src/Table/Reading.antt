-- ===== src/Table/Reading.antt =====
-- The methods that read a table: __getitem__, query, concat, and the classes ColumnData, ColumnValues
-- and ColumnStrOperations.
use tobiko.Prelude.{
  ℕ, suc, String, Bool, false, ◌||◌, Option, none, some, List, [], ◌∷◌, ◌++◌, Result, ok, err,
  if◌then◌else◌, length, ltb, ◌==◌,
}
use Prim.Native.String.{count as count_chars}
use tobiko.Prelude.Dict.{Dict, lookup}
use tobiko.Table.{Error, key_error, value_error, TableData, empty_table, init, table_of}

-- What the code uses of the values in the cells: `str(v)`, `a == b` and `v is None`.
pub record Cells (V : Type 0) : Type 0 where
  pub str : V → String
  pub eq : V → V → Bool
  pub is_none : V → Bool

-- The outcome of `eval`: its truth, or an error that the loop of `query` catches.
pub data Evaluated : Type 0 where
  truth : Bool → Evaluated
  not_evaluated : Evaluated

abbrev pub is_true : Evaluated → Bool
is_true (truth b) = b
is_true not_evaluated = false

-- `sorted(names, key=len, reverse=True)`, which keeps the order of names of one length.
unfoldable pub insert_name : String → List String → List String
insert_name name [] = name ∷ []
insert_name name (n ∷ names) =
    if ltb (count_chars name) (count_chars n) then n ∷ insert_name name names else name ∷ n ∷ names

unfoldable pub longest_first : List String → List String
unfolding insert_name
longest_first [] = []
longest_first (name ∷ names) = insert_name name (longest_first names)

module _ {V : Type 0} where
  -- `[row[key] for row in self.data]`
  unfoldable pub column : String → List (Dict V) → Result Error (List V)
  column key [] = ok []
  column key (row ∷ rows) = elim (lookup key row) [
    | none ↦ err key_error
    | some v ↦ elim (column key rows) [ err e ↦ err e | ok vs ↦ ok (v ∷ vs) ]
  ]

  unfoldable pub selected : List (Dict V) → List Bool → List (Dict V)
  selected [] mask = []
  selected (row ∷ rows) [] = []
  selected (row ∷ rows) (include ∷ mask) =
      let rest = selected rows mask in if include then row ∷ rest else rest

  -- `table[mask]`
  unfoldable pub get_mask : List Bool → TableData V → Result Error (TableData V)
  unfolding selected init
  get_mask mask t =
      if length mask == length t.rows then table_of (selected t.rows mask) else err value_error

  -- The method, and the function over a list of tables.
  abbrev pub all_rows : List (TableData V) → List (Dict V)
  all_rows [] = []
  all_rows (t ∷ tables) = t.rows ++ all_rows tables

  unfoldable pub concat : TableData V → List (TableData V) → Result Error (TableData V)
  unfolding init
  concat t others = table_of (t.rows ++ all_rows others)

  unfoldable pub concat_tables : List (TableData V) → Result Error (TableData V)
  unfolding init
  concat_tables [] = ok empty_table
  concat_tables (t ∷ tables) = table_of (all_rows (t ∷ tables))

  -- `ColumnValues.item`
  unfoldable pub single_value : List V → Result Error V
  single_value (v ∷ []) = ok v
  single_value [] = err value_error
  single_value (v ∷ w ∷ vs) = err value_error

  -- `literal` is the value as it is written into the expression, `word_in` and `put` the search and
  -- the replacement of a whole word in it.
  module _ (literal : V → String) (word_in : (word text : String) → Bool)
      (put : (word by text : String) → String) where
    unfoldable pub replace_names : List String → Dict V → String → Result Error String
    replace_names [] row expr = ok expr
    replace_names (name ∷ names) row expr =
        if word_in name expr
        then elim (lookup name row) [
          | none ↦ err key_error
          | some v ↦ replace_names names row (put name (literal v) expr)
        ]
        else replace_names names row expr

    abbrev pub build_eval_expr : (schema : List String) → Dict V → String → Result Error String
    unfolding longest_first replace_names
    build_eval_expr schema = replace_names (longest_first schema)

  module _ (cells : Cells V) where
    abbrev pub has_value : List V → V → Bool
    has_value [] v = false
    has_value (w ∷ ws) v = cells.eq w v || has_value ws v

    -- `unique`, where `seen` holds the values of unique_vals
    unfoldable pub unique_from : (vals unique_vals : List V) → List V
    unique_from [] unique_vals = unique_vals
    unique_from (v ∷ vals) unique_vals =
        unique_from vals (if has_value unique_vals v then unique_vals else unique_vals ++ v ∷ [])

    abbrev pub unique : List V → List V
    unfolding unique_from
    unique vals = unique_from vals []

    unfoldable pub count : List V → ℕ
    count [] = 0
    count (v ∷ vals) = let n = count vals in if cells.is_none v then n else suc n

    -- `pattern in text`
    module _ (part_of : (pattern text : String) → Bool) where
      unfoldable pub contains : (pattern : String) → List V → List Bool
      contains pattern [] = []
      contains pattern (v ∷ vals) = part_of pattern (cells.str v) ∷ contains pattern vals

      module _ (literal : V → String) (word_in : (word text : String) → Bool)
          (put : (word by text : String) → String) (evaluate : String → Evaluated)
          (contains_match : (expr : String) → Option (String × String)) where
        -- Whether a row is among the results.
        unfoldable pub row_matches :
            (schema : List String) (expr : String) → Dict V → Result Error Bool
        unfolding longest_first replace_names
        row_matches schema expr row = elim (contains_match expr) [
          | some (col_name, search_str) ↦ elim (lookup col_name row) [
            | none ↦ ok false
            | some v ↦ ok (part_of search_str (cells.str v))
          ]
          | none ↦ elim (build_eval_expr literal word_in put schema row expr) [
            | err e ↦ err e
            | ok eval_expr ↦ ok (is_true (evaluate eval_expr))
          ]
        ]

        unfoldable pub matching :
            List String → String → List (Dict V) → Result Error (List (Dict V))
        unfolding row_matches
        matching schema expr [] = ok []
        matching schema expr (row ∷ rows) = elim (row_matches schema expr row) [
          | err e ↦ err e
          | ok include ↦ elim (matching schema expr rows) [
            | err e ↦ err e
            | ok results ↦ ok (if include then row ∷ results else results)
          ]
        ]

        unfoldable pub query : String → TableData V → Result Error (TableData V)
        unfolding matching init
        query expr t = elim (matching t.schema expr t.rows) [
          | err e ↦ err e
          | ok results ↦ table_of results
        ]
