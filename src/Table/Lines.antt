-- ===== src/Table/Lines.antt =====
-- Tables from lines of text: read_csv with a header.
use tobiko.Prelude.{
  ℕ, zero, suc, ◌+◌, String, true, ◌≡◌, ◌≢◌, refl, sym, subst, ap, Option, some, List, [], ◌∷◌,
  ◌++◌, ok, arith, All, Bool-cases, inl, inr, eq_iff, length, leb, ltb, drop, zip, if◌then◌else◌,
}
use tobiko.Prelude.Dict.{Dict, lookup, is_in}
use tobiko.Table.{TableData, keys, update}
use tobiko.Table.Keys.{SameNames}
use tobiko.Table.Fitting.{IsTable}
use tobiko.Table.Constructing.{table_of-Fits}
use tobiko.Table.Columns.{Distinct, lookup-update-some, update-SameNames}
use tobiko.Table.Csv.{
  get_elem?, complete_rows, convert_lines_to_rows, data_lines, determine_column_names, read_csv,
}

-- A row has these names as keys, and under the name of each column the field in that place.
abbrev pub IsRow : List String → List String → Dict String → Type 0
IsRow names line row =
    SameNames (keys row) names
    × ((i : ℕ) (name field : String)
        → get_elem? names i ≡ some name
        → get_elem? line i ≡ some field
        → lookup name row ≡ some field)

-- The rows are those of the lines that have a field for every name, in order.
abbrev pub IsRead : List String → List (List String) → List (Dict String) → Type 0
IsRead names [] rows = rows ≡ []
IsRead names (line ∷ lines) rows =
    if leb (length names) (length line)
    then ((row : Dict String) × (rest : List (Dict String)) × (rows ≡ row ∷ rest)
        × IsRow names line row
        × IsRead names lines rest)
    else IsRead names lines rows

keys-zip_le :
    (names line : List String)
    → leb (length names) (length line) ≡ true
    → keys (zip names line) ≡ names
keys-zip_le [] line h = refl
keys-zip_le (n ∷ names) [] h = absurd (ground arith)
keys-zip_le (n ∷ names) (w ∷ line) h = ap (λ ks. n ∷ ks) (keys-zip_le names line (ground arith))

get_elem-is_in :
    (names : List String) (i : ℕ) (name : String)
    → get_elem? names i ≡ some name
    → is_in name names ≡ true
unfolding is_in
get_elem-is_in [] i name h = absurd cc
get_elem-is_in (n ∷ names) zero name h = ground (arith, eq_iff n name)
get_elem-is_in (n ∷ names) (suc i) name h = ground (arith, get_elem-is_in names i name)

lookup-zip :
    (names line : List String) (i : ℕ) (name field : String)
    → Distinct names
    → get_elem? names i ≡ some name
    → get_elem? line i ≡ some field
    → lookup name (zip names line) ≡ some field
unfolding lookup is_in
lookup-zip [] line i name field d h k = absurd cc
lookup-zip (n ∷ names) [] i name field d h k = absurd cc
lookup-zip (n ∷ names) (w ∷ line) zero name field d h k = ground (arith, eq_iff n name)
lookup-zip (n ∷ names) (w ∷ line) (suc i) name field d h k =
    ground (
      arith,
      eq_iff n name,
      d.0,
      get_elem-is_in names i name,
      lookup-zip names line i name field d.1,
    )

update-IsRow :
    (names line : List String)
    → Distinct names
    → leb (length names) (length line) ≡ true
    → IsRow names line (update (zip names line) [])
update-IsRow names line d long =
    let ks = keys-zip_le names line long in
    (
      subst (λ ks. SameNames (keys (update (zip names line) [])) ks) ks
          (update-SameNames (zip names line)),
      λ i name field h k.
          lookup-update-some name (zip names line) field (subst Distinct (sym ks) d)
            (lookup-zip names line i name field d h k),
    )

complete_rows-IsRead :
    (names : List String) (lines : List (List String))
    → Distinct names
    → IsRead names lines (complete_rows names lines)
      × All (λ row. SameNames (keys row) names) (complete_rows names lines)
unfolding complete_rows
complete_rows-IsRead names [] d = (refl, tt)
complete_rows-IsRead names (line ∷ lines) d =
    let (rest, fit) = complete_rows-IsRead names lines d in
    elim (Bool-cases (leb (length names) (length line))) [
      | inr short ↦ rw short (rest, fit)
      | inl long ↦
          let row = update-IsRow names line d long in
          rw long ((_, _, refl, row, rest), (row.0, fit))
    ]

get_elem-append :
    {A : Type 0} (before : List A) (x : A) (after : List A)
    → get_elem? (before ++ x ∷ after) (length before) ≡ some x
get_elem-append [] x after = refl
get_elem-append (y ∷ before) x after = get_elem-append before x after

drop-append :
    {A : Type 0} (before : List A) (x : A) (after : List A)
    → drop (length before + 1) (before ++ x ∷ after) ≡ after
drop-append [] x [] = refl
drop-append [] x (y ∷ after) = refl
drop-append (y ∷ before) x after =
    let n : suc (length before + 1) ≡ suc (length before) + 1 = omega arith in
    subst (λ n. drop n (y ∷ before ++ x ∷ after) ≡ after) n (drop-append before x after)

length-append_lt :
    {A : Type 0} (before : List A) (x : A) (after : List A)
    → ltb (length before) (length (before ++ x ∷ after)) ≡ true
length-append_lt [] x after = ground arith
length-append_lt (y ∷ before) x after = let rest = length-append_lt before x after in ground arith

lines_complete :
    (text : ℕ → String) (lines : List (List String)) (header : Option ℕ) (columns : List String)
    (names : List String) (below : List (List String))
    → lines ≢ []
    → determine_column_names text lines header columns ≡ names
    → data_lines lines header ≡ below
    → names ≢ []
    → Distinct names
    → (t : TableData String) × (read_csv text lines header columns ≡ ok t)
      × IsRead names below t.rows
      × IsTable t
unfolding read_csv convert_lines_to_rows
lines_complete text [] header columns names below some_line named_by read_from named d =
    absurd (some_line refl)
lines_complete text (line ∷ lines) header columns names below some_line named_by read_from named d =
    let (read, fit) = complete_rows-IsRead names below d in
    let (t, made, kept, table) =
      table_of-Fits names (complete_rows names below) (fit, λ nil. absurd (named nil)) in
    (
      t,
      rw (named_by, read_csv) (rw read_from made),
      subst (IsRead names below) (sym kept) read,
      table,
    )

-- With a header, whose names are some and all different, read_csv does not raise. It returns a table
-- with one row for each line below the header that has a field for every name, in their order: the
-- row has exactly these names as keys, and under each name the field in its place. Lines above the
-- header, too short lines and further fields are left out.
pub read_csv_complete :
    (text : ℕ → String) (before : List (List String)) (names : List String)
    (below : List (List String)) (columns : List String)
    → names ≢ []
    → Distinct names
    → (t : TableData String) × (read_csv text
          (before ++ names ∷ below)
          (some (length before))
          columns
        ≡ ok t)
      × IsRead names below t.rows
      × IsTable t
unfolding determine_column_names
read_csv_complete text before names below columns named d =
    let header = some (length before) in
    lines_complete text (before ++ names ∷ below) header columns names below (some_line before)
      (rw (get_elem-append before names below, determine_column_names) refl)
      (rw (length-append_lt before names below) (drop-append before names below)) named d
  where
    some_line : (before : List (List String)) → before ++ names ∷ below ≢ []
    some_line [] e = absurd cc
    some_line (line ∷ before) e = absurd cc
