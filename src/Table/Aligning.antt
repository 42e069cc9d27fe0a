-- ===== src/Table/Aligning.antt =====
-- The lines that to_string joins have one width.
use Prim.Native.String
use text.Mathlib.TextLemmas.{length-append as count-append}
use tobiko.Prelude.{
  ℕ, zero, suc, ◌+◌, ◌-◌, ◌≤◌, max, String, true, false, ◌≡◌, ap, refl, ◌≢◌, ◌⊎◌, inl, inr, ◌∙◌,
  List, [], ◌∷◌, ok, arith, All, All-map, length,
}
use tobiko.Prelude.Dict.{Dict, is_in}
use tobiko.Table.{TableData, keys}
use tobiko.Table.Keys.{All-is_in, lookup-is_in}
use tobiko.Table.Fitting.{IsTable}
use tobiko.Table.Printing.{
  is_empty, spaces, ljust, join, cell, col_width, col_widths, header_parts, row_parts, row_lines,
  lines_of, to_string,
}

count-spaces : (n : ℕ) → String.count (spaces n) ≡ n
count-spaces zero = refl
count-spaces (suc n) = omega (arith, count-append " " (spaces n), count-spaces n)

count-ljust :
    (text : String) (width : ℕ)
    → String.count text ≤ width
    → String.count (ljust text width) ≡ width
unfolding ljust
count-ljust text width h =
    let n = width - String.count text in omega (arith, count-append text (spaces n), count-spaces n)

abbrev line_width : List (String × ℕ) → ℕ
line_width [] = 0
line_width ((col, width) ∷ []) = width
line_width ((col, width) ∷ next ∷ widths) = width + (2 + line_width (next ∷ widths))

abbrev Padded : List (String × ℕ) → List String → Type 0
Padded [] [] = Unit
Padded ((col, width) ∷ widths) (part ∷ parts) = (String.count part ≡ width) × Padded widths parts
Padded _ _ = ⊥

count-join :
    (widths : List (String × ℕ)) (parts : List String)
    → Padded widths parts
    → String.count (join "  " parts) ≡ line_width widths
unfolding join
count-join [] [] h = refl
count-join [] (part ∷ parts) h = absurd h
count-join ((col, width) ∷ widths) [] h = absurd h
count-join ((col, width) ∷ []) (part ∷ []) h = h.0
count-join ((col, width) ∷ []) (part ∷ next ∷ parts) h = absurd h.1
count-join ((col, width) ∷ next ∷ widths) (part ∷ []) h = absurd h.1
count-join ((col, width) ∷ next ∷ widths) (part ∷ part' ∷ parts) h =
    let rest = join "  " (part' ∷ parts) in
    omega (
      arith,
      h.0,
      count-append part (String.◌++◌ "  " rest),
      count-append "  " rest,
      count-join (next ∷ widths) (part' ∷ parts) h.1,
    )

module _ {V : Type 0} (str : V → String) where
  -- A cell is there, and no longer than the width.
  abbrev Shorter : ℕ → Dict V → String → Type 0
  Shorter width row col =
      (text : String) × (cell str row col ≡ ok text) × (String.count text ≤ width)

  abbrev Wide : List (Dict V) → String × ℕ → Type 0
  Wide rows (col, width) = (String.count col ≤ width) × All (λ row. Shorter width row col) rows

  cell-total :
      (col : String) (row : Dict V)
      → is_in col (keys row) ≡ true
      → (text : String) × (cell str row col ≡ ok text)
  cell-total col row i = let (v, found) = lookup-is_in col row i in (str v, rw (found, cell) refl)

  col_width-total :
      (col : String) (width : ℕ) (rows : List (Dict V))
      → All (λ row. is_in col (keys row) ≡ true) rows
      → (w : ℕ) × (col_width str col width rows ≡ ok w)
        × (width ≤ w)
        × All (λ row. Shorter w row col) rows
  unfolding col_width
  col_width-total col width [] h = (width, refl, omega arith, tt)
  col_width-total col width (row ∷ rows) h =
      let (text, e) = cell-total col row h.0 in
      let (w, es, more, shorter) = col_width-total col (max width (String.count text)) rows h.1 in
      (w, rw (e, col_width) es, omega (arith, more), ((text, e, omega (arith, more)), shorter))

  Known : List String → List (Dict V) → Type 0
  Known names rows = All (λ col. All (λ row. is_in col (keys row) ≡ true) rows) names

  col_widths-total :
      (cols : List String) (rows : List (Dict V))
      → Known cols rows
      → (widths : List (String × ℕ)) × (col_widths str cols rows ≡ ok widths)
        × All (Wide rows) widths
  unfolding col_widths Known
  col_widths-total [] rows h = ([], refl, tt)
  col_widths-total (col ∷ cols) rows h =
      let (w, e, more, shorter) = col_width-total col (String.count col) rows h.0 in
      let (widths, es, wide) = col_widths-total cols rows h.1 in
      ((col, w) ∷ widths, rw (e, col_widths) (rw es refl), ((more, shorter), wide))

  header-Padded :
      (widths : List (String × ℕ)) → All (Wide []) widths → Padded widths (header_parts widths)
  unfolding header_parts
  header-Padded [] h = tt
  header-Padded ((col, width) ∷ widths) h = (count-ljust col width h.0.0, header-Padded widths h.1)

  row_parts-total :
      (widths : List (String × ℕ)) (row : Dict V)
      → All (λ (w : String × ℕ). Shorter w.1 row w.0) widths
      → (parts : List String) × (row_parts str widths row ≡ ok parts) × Padded widths parts
  unfolding row_parts
  row_parts-total [] row h = ([], refl, tt)
  row_parts-total ((col, width) ∷ widths) row h =
      let (text, e, short) = h.0 in
      let (parts, es, padded) = row_parts-total widths row h.1 in
      (
        ljust text width ∷ parts,
        rw (e, row_parts) (rw es refl),
        (count-ljust text width short, padded),
      )

  row_lines-total :
      (widths : List (String × ℕ)) (rows : List (Dict V))
      → All (Wide rows) widths
      → (lines : List String) × (row_lines str widths rows ≡ ok lines)
        × All (λ line. String.count line ≡ line_width widths) lines
        × (length lines ≡ length rows)
  unfolding row_lines
  row_lines-total widths [] h = ([], refl, tt, refl)
  row_lines-total widths (row ∷ rows) h =
      let heads =
        All-map (Wide (row ∷ rows)) (λ w. Shorter w.1 row w.0) (λ w wide. wide.1.0) widths h in
      let tails = All-map (Wide (row ∷ rows)) (Wide rows) (λ w wide. (wide.0, wide.1.1)) widths h in
      let (parts, e, padded) = row_parts-total widths row heads in
      let (lines, es, same, n) = row_lines-total widths rows tails in
      (
        join "  " parts ∷ lines,
        rw (e, row_lines) (rw es refl),
        (count-join widths parts padded, same),
        omega (arith, n),
      )

  All-swap :
      (names : List String) (rows : List (Dict V))
      → All (λ row. All (λ col. is_in col (keys row) ≡ true) names) rows
      → Known names rows
  unfolding Known
  All-swap [] rows h = tt
  All-swap (name ∷ names) rows h =
      (All-map _ _ (λ r k. k.0) rows h, All-swap names rows (All-map _ _ (λ r k. k.1) rows h))

  lines_of-bounds :
      (t : TableData V)
      → IsTable t
      → (lines : List String) × (width : ℕ) × (lines_of str t ≡ ok lines)
        × All (λ line. String.count line ≡ width) lines
        × (length lines ≡ suc (length t.rows))
  unfolding lines_of
  lines_of-bounds t h =
      let known =
        All-swap t.schema t.rows
          (All-map _ _ (λ r same. All-is_in t.schema (keys r) (λ k i. same k ∙ i)) t.rows h.0) in
      let (widths, e, wide) = col_widths-total t.schema t.rows known in
      let (lines, es, same, n) = row_lines-total widths t.rows wide in
      let heads = All-map (Wide t.rows) (Wide []) (λ w wide. (wide.0, tt)) widths wide in
      (
        join "  " (header_parts widths) ∷ lines,
        line_width widths,
        rw (e, lines_of) (rw es refl),
        (count-join widths (header_parts widths) (header-Padded widths heads), same),
        omega (arith, n),
      )

  to_string_full :
      (t : TableData V) (lines : List String)
      → is_empty t.rows ≡ false
      → lines_of str t ≡ ok lines
      → to_string str t ≡ ok (join "\n" lines)
  unfolding to_string
  to_string_full t lines e made = ground arith

  -- The text of a table without rows, or with them.
  abbrev pub IsShown : TableData V → Type 0
  IsShown t =
      ((t.rows ≡ []) × (to_string str t ≡ ok "Empty TableData"))
      ⊎ ((t.rows ≢ [])
          × ((lines : List String) × (width : ℕ) × (to_string str t ≡ ok (join "\n" lines))
              × All (λ line. String.count line ≡ width) lines
              × (length lines ≡ suc (length t.rows))))

  -- The text of a table whose rows fit its schema is made without an exception. Without rows it is
  -- "Empty TableData". With rows it is one text for the header and one for each row, joined by
  -- newlines, and these texts all have the same number of characters.
  pub to_string-bounds : (t : TableData V) → IsTable t → IsShown t
  unfolding to_string
  to_string-bounds t h = go t.rows refl
    where
      go : (rows : List (Dict V)) → t.rows ≡ rows → IsShown t
      go [] e = inl (e, rw e refl)
      go (row ∷ rows) e =
          let (lines, width, made, same, n) = lines_of-bounds t h in
          inr (
            (λ nil. absurd cc),
            (lines, width, to_string_full t lines (ap is_empty e) made, same, n),
          )
