-- ===== src/Table/Columns.antt =====
-- The round trip of from_dict: the columns of the table are the lists that it was made from.
use tobiko.Prelude.{
  ℕ, zero, suc, ◌+◌, ◌<◌, String, true, false, ◌≡◌, ◌⊎◌, refl, sym, ap, ◌∙◌, none, some, List, [],
  ◌∷◌, ok, err, arith, All, length, drop, if◌then◌else◌, eq_iff, Bool-cases, inl, inr,
}
use tobiko.Prelude.Dict.{Dict, lookup, insert, is_in, lookup-insert}
use tobiko.Table.{value_error, TableData, keys, update}
use tobiko.Table.Keys.{SameNames, keys-update}
use tobiko.Table.Fitting.{IsTable}
use tobiko.Table.Constructing.{table_of-Fits}
use tobiko.Table.Reading.{column}
use tobiko.Table.Csv.{get_elem?, row_pairs, rows_from, all_length, from_dict}

-- No name occurs twice, as among the keys of a Python dictionary.
abbrev pub Distinct : List String → Type 0
Distinct [] = Unit
Distinct (k ∷ names) = (is_in k names ≡ false) × Distinct names

module _ {W : Type 0} where
  lookup-update :
      (j : String) (pairs row : Dict W)
      → Distinct (keys pairs)
      → lookup j (update pairs row)
        ≡ (if is_in j (keys pairs) then lookup j pairs else lookup j row)
  unfolding is_in lookup
  lookup-update j [] row d = refl
  lookup-update j ((k, w) ∷ pairs) row d =
      ground (
        arith,
        eq_iff k j,
        d.0,
        lookup-update j pairs (insert k w row) d.1,
        lookup-insert k j w row,
      )

  lookup-none : (j : String) (d : Dict W) → is_in j (keys d) ≡ false → lookup j d ≡ none
  unfolding is_in lookup
  lookup-none j [] h = refl
  lookup-none j ((k, w) ∷ d) h = ground (arith, lookup-none j d)

  pub lookup-update-some :
      (j : String) (pairs : Dict W) (w : W)
      → Distinct (keys pairs)
      → lookup j pairs ≡ some w
      → lookup j (update pairs []) ≡ some w
  lookup-update-some j pairs w d e = ground (arith, lookup-update j pairs [] d, lookup-none j pairs)

  pub update-SameNames : (pairs : Dict W) → SameNames (keys (update pairs [])) (keys pairs)
  unfolding is_in
  update-SameNames pairs k = ground (arith, keys-update k pairs [])

  drop_zero : (ws : List W) → drop 0 ws ≡ ws
  drop_zero [] = refl
  drop_zero (w ∷ ws) = refl

  drop_all : (i : ℕ) (ws : List W) → length ws ≡ i → drop i ws ≡ []
  drop_all i [] e = refl
  drop_all zero (w ∷ ws) e = absurd (omega arith)
  drop_all (suc i) (w ∷ ws) e = drop_all i ws (omega arith)

module _ {V : Type 0} where
  abbrev pub Rectangular : ℕ → Dict (List V) → Type 0
  Rectangular n d = All (λ (e : String × List V). length e.1 ≡ n) d

  get-drop :
      (vals : List V) (i : ℕ)
      → i < length vals
      → (v : V) × (get_elem? vals i ≡ some v) × (drop i vals ≡ v ∷ drop (suc i) vals)
  get-drop [] i h = absurd (omega arith)
  get-drop (v ∷ []) zero h = (v, refl, refl)
  get-drop (v ∷ w ∷ vals) zero h = (v, refl, refl)
  get-drop (v ∷ vals) (suc i) h = get-drop vals i (omega arith)

  -- What row i says of each column.
  row_pairs-total :
      (n i : ℕ) (d : Dict (List V))
      → Rectangular n d
      → i < n
      → (pairs : List (String × V)) × (row_pairs i d ≡ ok pairs)
        × (keys pairs ≡ keys d)
        × ((j : String) (vals : List V)
            → lookup j d ≡ some vals
            → lookup j pairs ≡ get_elem? vals i)
  unfolding row_pairs lookup
  row_pairs-total n i [] h l = ([], refl, refl, λ j vals e. absurd cc)
  row_pairs-total n i ((k, ws) ∷ d) h l =
      let (v, found, _) = get-drop ws i (omega (arith, h.0)) in
      let (pairs, e, names, at) = row_pairs-total n i d h.1 l in
      (
        (k, v) ∷ pairs,
        rw (found, row_pairs) (rw e refl),
        rw names refl,
        λ j vals e. ground (arith, at j vals, found),
      )

  lookup-length :
      (n : ℕ) (j : String) (d : Dict (List V)) (vals : List V)
      → Rectangular n d
      → lookup j d ≡ some vals
      → length vals ≡ n
  unfolding lookup
  lookup-length n j [] vals h e = absurd cc
  lookup-length n j ((k, ws) ∷ d) vals h e = ground (arith, h.0, lookup-length n j d vals h.1)

  column-cons :
      (j : String) (row : Dict V) (rows : List (Dict V)) (v : V) (vals : List V)
      → lookup j row ≡ some v
      → column j rows ≡ ok vals
      → column j (row ∷ rows) ≡ ok (v ∷ vals)
  unfolding column
  column-cons j row rows v vals found e = rw (found, column) (rw e refl)

  -- The rows from row i on have these columns from place i on.
  rows_from-total :
      (rounds i n : ℕ) (d : Dict (List V))
      → Distinct (keys d)
      → Rectangular n d
      → rounds + i ≡ n
      → (rows : List (Dict V)) × (rows_from rounds i d ≡ ok rows)
        × All (λ row. SameNames (keys row) (keys d)) rows
        × (length rows ≡ rounds)
        × ((j : String) (vals : List V) → lookup j d ≡ some vals → column j rows ≡ ok (drop i vals))
  unfolding rows_from column
  rows_from-total zero i n d u h e = (
    [],
    refl,
    tt,
    refl,
    λ j vals there.
        ap ok (sym (drop_all i vals (omega (arith, e, lookup-length n j d vals h there)))),
  )
  rows_from-total (suc rounds) i n d u h e =
      let (pairs, made, names, at) = row_pairs-total n i d h (omega (arith, e)) in
      let (rows, es, same, count, cols) =
        rows_from-total rounds (i + 1) n d u h (omega (arith, e)) in
      (
        update pairs [] ∷ rows,
        rw (made, rows_from) (rw es refl),
        (rw (← names) (update-SameNames pairs), same),
        omega (arith, count),
        λ j vals there.
            let (v, found, rest) =
              get-drop vals i (omega (arith, e, lookup-length n j d vals h there)) in
            let next : i + 1 ≡ suc i = omega arith in
            let in_row = lookup-update-some j pairs v (rw names u) (at j vals there ∙ found) in
            rw rest
              (column-cons j (update pairs []) rows v _ in_row (rw (← next) (cols j vals there))),
      )

  all_length-Rectangular : (n : ℕ) (d : Dict (List V)) → all_length n d ≡ true → Rectangular n d
  all_length-Rectangular n [] h = tt
  all_length-Rectangular n ((k, ws) ∷ d) h =
      (ground arith, all_length-Rectangular n d (ground arith))

  -- A dictionary of lists with one length becomes a table whose rows fit its schema, as many rows as
  -- the lists have values, and each list is the column of its name in the table. Lists of different
  -- lengths raise a ValueError.
  pub from_dict-column :
      (col : String) (vals : List V) (rest : Dict (List V))
      → let d = (col, vals) ∷ rest in
        Distinct (keys d)
        → ((all_length (length vals) d ≡ true)
            × (t : TableData V) × (from_dict d ≡ ok t)
            × IsTable t
            × (length t.rows ≡ length vals)
            × ((j : String) (ws : List V) → lookup j d ≡ some ws → column j t.rows ≡ ok ws))
          ⊎ ((all_length (length vals) d ≡ false) × (from_dict d ≡ err value_error))
  unfolding from_dict
  from_dict-column col vals rest u =
      let d = (col, vals) ∷ rest in
      elim (Bool-cases (all_length (length vals) d)) [
        | inr ragged ↦ inr (ragged, rw (ragged, from_dict) refl)
        | inl even ↦
            let (rows, e, same, count, cols) =
              rows_from-total (length vals) 0 (length vals) d u (all_length-Rectangular _ d even)
                (omega arith) in
            let (t, made, kept, fit) = table_of-Fits (keys d) rows (same, λ nil. absurd cc) in
            inl (
              even,
              t,
              rw (even, from_dict) (rw e made),
              fit,
              ap length kept ∙ count,
              λ j ws there. rw kept (cols j ws there ∙ ap ok (drop_zero ws)),
            )
      ]
