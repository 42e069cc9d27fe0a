-- ===== src/Table/Csv.antt =====
-- Tables from columns and from lines: from_dict, and read_csv from the lines that the csv module or the
-- split of a line gave.
use tobiko.Prelude.{
  ℕ, zero, suc, ◌+◌, String, Bool, true, ◌&&◌, Option, none, some, List, [], ◌∷◌, Result, ok, err,
  if◌then◌else◌, length, ltb, leb, ◌==◌, drop, zip,
}
use tobiko.Prelude.Dict.{Dict}
use tobiko.Table.{Error, index_error, value_error, TableData, empty_table, update, init, table_of}

-- `xs[i]` for i from 0
abbrev pub get_elem? {ℓ} : {A : Type ℓ} → List A → ℕ → Option A
get_elem? [] i = none
get_elem? (x ∷ xs) zero = some x
get_elem? (x ∷ xs) (suc i) = get_elem? xs i

module _ {V : Type 0} where
  -- `{col: data_dict[col][i] for col in columns}`
  unfoldable pub row_pairs : ℕ → Dict (List V) → Result Error (List (String × V))
  row_pairs i [] = ok []
  row_pairs i ((col, vals) ∷ data_dict) = elim (get_elem? vals i) [
    | none ↦ err index_error
    | some v ↦ elim (row_pairs i data_dict) [ err e ↦ err e | ok pairs ↦ ok ((col, v) ∷ pairs) ]
  ]

  -- The rounds that are left, from row i on.
  unfoldable pub rows_from : (rounds i : ℕ) → Dict (List V) → Result Error (List (Dict V))
  unfolding row_pairs
  rows_from zero i data_dict = ok []
  rows_from (suc n) i data_dict = elim (row_pairs i data_dict) [
    | err e ↦ err e
    | ok pairs ↦ elim (rows_from n (i + 1) data_dict) [
      | err e ↦ err e
      | ok rows ↦ ok (update pairs [] ∷ rows)
    ]
  ]

  abbrev pub all_length : ℕ → Dict (List V) → Bool
  all_length n [] = true
  all_length n ((col, vals) ∷ data_dict) = length vals == n && all_length n data_dict

  unfoldable pub from_dict : Dict (List V) → Result Error (TableData V)
  unfolding rows_from init
  from_dict [] = ok empty_table
  from_dict ((col, vals) ∷ data_dict) =
      if all_length (length vals) ((col, vals) ∷ data_dict)
      then elim (rows_from (length vals) 0 ((col, vals) ∷ data_dict)) [
        | err e ↦ err e
        | ok rows ↦ table_of rows
      ]
      else err value_error

-- `str(i) for i in range(num_cols)`, for the text of a number
abbrev default_names : (ℕ → String) → (rounds i : ℕ) → List String
default_names text zero i = []
default_names text (suc n) i = text i ∷ default_names text n (i + 1)

abbrev pub first_length {ℓ} : {A : Type ℓ} → List (List A) → ℕ
first_length [] = 0
first_length (line ∷ lines) = length line

-- `header` and `columns` are None or given; a header that is no line counts as none.
abbrev pub header_line : List (List String) → (header : Option ℕ) → Option (List String)
header_line lines none = none
header_line lines (some header) = get_elem? lines header

abbrev pub names_or : (given columns : List String) → List String
names_or default [] = default
names_or default (c ∷ cs) = c ∷ cs

unfoldable pub determine_column_names :
    (text : ℕ → String)
    → List (List String)
    → (header : Option ℕ) (columns : List String) → List String
determine_column_names text lines header columns = elim (header_line lines header) [
  | some names ↦ names
  | none ↦ names_or (default_names text (first_length lines) 0) columns
]

abbrev pub data_lines : List (List String) → (header : Option ℕ) → List (List String)
data_lines lines none = lines
data_lines lines (some header) =
    if ltb header (length lines) then drop (header + 1) lines else lines

unfoldable pub complete_rows :
    (column_names : List String) → List (List String) → List (Dict String)
complete_rows column_names [] = []
complete_rows column_names (line ∷ lines) =
    let rows = complete_rows column_names lines in
    if leb (length column_names) (length line)
    then update (zip column_names line) [] ∷ rows
    else rows

unfoldable pub convert_lines_to_rows :
    List (List String) → (column_names : List String) (header : Option ℕ) → List (Dict String)
unfolding complete_rows
convert_lines_to_rows lines column_names header =
    complete_rows column_names (data_lines lines header)

unfoldable pub read_csv :
    (text : ℕ → String)
    → List (List String)
    → (header : Option ℕ) (columns : List String) → Result Error (TableData String)
unfolding determine_column_names convert_lines_to_rows init
read_csv text [] header columns = ok empty_table
read_csv text (line ∷ lines) header columns =
    let column_names = determine_column_names text (line ∷ lines) header columns in
    table_of (convert_lines_to_rows (line ∷ lines) column_names header)
