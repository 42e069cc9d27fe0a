-- ===== src/Table/Printing.antt =====
-- The texts of a table: to_string and to_csv.
use Prim.Native.String
use tobiko.Prelude.{
  ℕ, zero, suc, ◌-◌, max, String, Bool, true, false, none, some, List, [], ◌∷◌, Result, ok, err,
  if◌then◌else◌,
}
use tobiko.Prelude.Dict.{Dict, lookup}
use tobiko.Table.{Error, key_error, TableData}

-- `' ' * n`
abbrev pub spaces : ℕ → String
spaces zero = ""
spaces (suc n) = String.◌++◌ " " (spaces n)

unfoldable pub ljust : String → ℕ → String
ljust text width = String.◌++◌ text (spaces (width - String.count text))

unfoldable pub join : (sep : String) → List String → String
join sep [] = ""
join sep (text ∷ []) = text
join sep (text ∷ next ∷ texts) = String.◌++◌ text (String.◌++◌ sep (join sep (next ∷ texts)))

unfoldable pub header_parts : List (String × ℕ) → List String
unfolding ljust
header_parts [] = []
header_parts ((col, width) ∷ widths) = ljust col width ∷ header_parts widths

abbrev pub is_empty {ℓ} : {A : Type ℓ} → List A → Bool
is_empty [] = true
is_empty (row ∷ rows) = false

module _ {V : Type 0} (str : V → String) where
  -- `str(row[col])`
  abbrev pub cell : Dict V → String → Result Error String
  cell row col = elim (lookup col row) [ none ↦ err key_error | some v ↦ ok (str v) ]

  -- The round of a column: from the width so far to that of the longest cell.
  unfoldable pub col_width : String → ℕ → List (Dict V) → Result Error ℕ
  col_width col width [] = ok width
  col_width col width (row ∷ rows) = elim (cell row col) [
    | err e ↦ err e
    | ok text ↦ col_width col (max width (String.count text)) rows
  ]

  -- The widths beside their columns; a column that occurs twice has the same width twice.
  unfoldable pub col_widths : List String → List (Dict V) → Result Error (List (String × ℕ))
  unfolding col_width
  col_widths [] rows = ok []
  col_widths (col ∷ cols) rows = elim (col_width col (String.count col) rows) [
    | err e ↦ err e
    | ok width ↦ elim (col_widths cols rows) [
      | err e ↦ err e
      | ok widths ↦ ok ((col, width) ∷ widths)
    ]
  ]

  unfoldable pub row_parts : List (String × ℕ) → Dict V → Result Error (List String)
  unfolding ljust
  row_parts [] row = ok []
  row_parts ((col, width) ∷ widths) row = elim (cell row col) [
    | err e ↦ err e
    | ok text ↦ elim (row_parts widths row) [
      | err e ↦ err e
      | ok parts ↦ ok (ljust text width ∷ parts)
    ]
  ]

  unfoldable pub row_lines : List (String × ℕ) → List (Dict V) → Result Error (List String)
  unfolding row_parts join
  row_lines widths [] = ok []
  row_lines widths (row ∷ rows) = elim (row_parts widths row) [
    | err e ↦ err e
    | ok parts ↦ elim (row_lines widths rows) [
      | err e ↦ err e
      | ok lines ↦ ok (join "  " parts ∷ lines)
    ]
  ]

  -- The lines of to_string, which are joined in the end.
  unfoldable pub lines_of : TableData V → Result Error (List String)
  unfolding col_widths header_parts row_lines join
  lines_of t = elim (col_widths t.schema t.rows) [
    | err e ↦ err e
    | ok widths ↦ elim (row_lines widths t.rows) [
      | err e ↦ err e
      | ok lines ↦ ok (join "  " (header_parts widths) ∷ lines)
    ]
  ]

  unfoldable pub to_string : TableData V → Result Error String
  unfolding lines_of join
  to_string t =
      if is_empty t.rows
      then ok "Empty TableData"
      else elim (lines_of t) [ err e ↦ err e | ok lines ↦ ok (join "\n" lines) ]
