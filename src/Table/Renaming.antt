-- ===== src/Table/Renaming.antt =====
-- The setter of columns and `replace` on rows that fit: the new rows fit.
use tobiko.Prelude.{
  ℕ, String, Bool, true, ◌||◌, ◌≡◌, refl, sym, ap, ◌∙◌, List, [], ◌∷◌, Result, ok, Result-cases,
  inl, inr, subst, arith, All, zip, length, length_zero, eq_iff,
}
use tobiko.Prelude.Dict.{Dict, insert, is_in}
use tobiko.Table.{keys, Error, update}
use tobiko.Table.Keys.{SameNames, keys-insert, keys-update, lookup-is_in}
use tobiko.Table.Fitting.{Fits}
use tobiko.Table.Editing.{
  rename_row, rename_rows, ToReplace, new_value, new_values, replace_row, replace_rows,
}

keys-zip : (new old : List String) → length new ≡ length old → keys (zip new old) ≡ new
keys-zip [] old e = refl
keys-zip (n ∷ new) [] e = absurd (omega arith)
keys-zip (n ∷ new) (o ∷ old) e = rw (keys-zip new old (omega arith)) refl

module _ {V : Type 0} where
  -- The old names of the pairs are keys of the row.
  abbrev Known : List (String × String) → Dict V → Type 0
  Known pairs row = All (λ (pair : String × String). is_in pair.1 (keys row) ≡ true) pairs

  rename_row_lem :
      (pairs : List (String × String)) (row acc : Dict V)
      → Known pairs row
      → (new_row : Dict V) × (rename_row pairs row acc ≡ ok new_row)
        × ((j : String) → is_in j (keys new_row) ≡ (is_in j (keys pairs) || is_in j (keys acc)))
  unfolding rename_row is_in
  rename_row_lem [] row acc h = (acc, refl, λ j. refl)
  rename_row_lem ((new_col, old_col) ∷ pairs) row acc h =
      let (v, found) = lookup-is_in old_col row h.0 in
      let (new_row, e, names) = rename_row_lem pairs row (insert new_col v acc) h.1 in
      (new_row, rw (found, rename_row) e, λ j. ground (arith, names j, keys-insert j new_col v acc))

  zip-Known :
      (new old : List String) (row : Dict V)
      → ((k : String) → is_in k old ≡ true → is_in k (keys row) ≡ true)
      → Known (zip new old) row
  unfolding is_in
  zip-Known [] old row h = tt
  zip-Known (n ∷ new) [] row h = tt
  zip-Known (n ∷ new) (o ∷ old) row h =
      (h o (ground (arith, eq_iff o o)), zip-Known new old row (λ k e. h k (ground arith)))

  rename_rows_lem :
      (new old : List String) (rows : List (Dict V))
      → length new ≡ length old
      → All (λ row. SameNames (keys row) old) rows
      → (new_rows : List (Dict V)) × (rename_rows (zip new old) rows ≡ ok new_rows)
        × All (λ row. SameNames (keys row) new) new_rows
        × (length new_rows ≡ length rows)
  unfolding rename_rows is_in
  rename_rows_lem new old [] e h = ([], refl, tt, refl)
  rename_rows_lem new old (row ∷ rows) e h =
      let (new_row, er, names) =
        rename_row_lem (zip new old) row [] (zip-Known new old row (λ k i. h.0 k ∙ i)) in
      let (new_rows, es, fit, same) = rename_rows_lem new old rows e h.1 in
      (
        new_row ∷ new_rows,
        rw (er, rename_rows) (rw es refl),
        (λ j. ground (arith, names j, keys-zip new old e), fit),
        omega (arith, same),
      )

  no_rows :
      {n : ℕ} (new old : List String) (rows : List (Dict V))
      → new ≡ []
      → length new ≡ length old
      → n ≡ length rows
      → (old ≡ [] → rows ≡ [])
      → n ≡ 0
  no_rows new old rows nil e same h =
      let no_old : old ≡ [] = length_zero old (sym e ∙ ap length nil) in same ∙ ap length (h no_old)

  pub rename_rows-Fits :
      (new old : List String) (rows : List (Dict V))
      → length new ≡ length old
      → Fits old rows
      → (new_rows : List (Dict V)) × (rename_rows (zip new old) rows ≡ ok new_rows)
        × Fits new new_rows
        × (length new_rows ≡ length rows)
  rename_rows-Fits new old rows e h =
      let (new_rows, es, fit, same) = rename_rows_lem new old rows e h.0 in
      (
        new_rows,
        es,
        (fit, λ none. length_zero new_rows (no_rows new old rows none e same h.1)),
        same,
      )

  module _ (eq : V → V → Result Error Bool) (sub : (pattern val : V) → Result Error V) (value : V)
      (regex : Bool) where
    keys-new_values :
        (to_replace : ToReplace V) (row : Dict V) (pairs : List (String × V))
        → new_values eq sub value regex to_replace row ≡ ok pairs
        → keys pairs ≡ keys row
    unfolding new_values
    keys-new_values to_replace [] [] e = refl
    keys-new_values to_replace [] (pair ∷ pairs) e = absurd cc
    keys-new_values to_replace ((k, v) ∷ row) pairs e =
        elim (Result-cases (new_value eq sub value regex to_replace k v)) [
          | inr (x, f) ↦ absurd (ground arith)
          | inl (w, f) ↦ elim (Result-cases (new_values eq sub value regex to_replace row)) [
            | inr (x, g) ↦ absurd (ground arith)
            | inl (rest, g) ↦
                let made : (k, w) ∷ rest ≡ pairs = ground arith in
                subst (λ ps. keys ps ≡ k ∷ keys row) made
                  (ap (λ ks. k ∷ ks) (keys-new_values to_replace row rest g))
          ]
        ]

    keys-replace_row :
        (to_replace : ToReplace V) (row new_row : Dict V)
        → replace_row eq sub value regex to_replace row ≡ ok new_row
        → SameNames (keys new_row) (keys row)
    unfolding replace_row is_in
    keys-replace_row to_replace row new_row e j =
        elim (Result-cases (new_values eq sub value regex to_replace row)) [
          | inr (x, f) ↦ absurd (ground arith)
          | inl (pairs, f) ↦
              let made : update pairs [] ≡ new_row = ground arith in
              let names = keys-new_values to_replace row pairs f in
              subst (λ r. is_in j (keys r) ≡ is_in j (keys row)) made
                (ground (arith, keys-update j pairs [], names))
        ]

    pub replace-Fits :
        (schema : List String) (to_replace : ToReplace V) (rows : List (Dict V))
        → Fits schema rows
        → Fits schema (replace_rows eq sub value regex to_replace rows).1
    unfolding replace_rows
    replace-Fits schema to_replace rows h = (go rows h.0, λ none. rw (h.1 none) refl)
      where
        go :
            (rows : List (Dict V))
            → All (λ row. SameNames (keys row) schema) rows
            → All
                (λ row. SameNames (keys row) schema)
                (replace_rows eq sub value regex to_replace rows).1
        go [] h = tt
        go (row ∷ rows) h = elim (Result-cases (replace_row eq sub value regex to_replace row)) [
          | inr (x, e) ↦ rw (e, replace_rows) h
          | inl (new_row, e) ↦
              rw (e, replace_rows)
                ((λ j. keys-replace_row to_replace row new_row e j ∙ h.0 j), go rows h.1)
        ]
