-- ===== src/Table/Failing.antt =====
-- A change that raises: what it leaves of the rows.
use tobiko.Prelude.{
  ℕ, String, Bool, ◌≡◌, refl, sym, ap, ◌∙◌, List, [], ◌∷◌, ◌++◌, ok, err, inl, inr, ◌⊎◌, map,
  Result, arith, length, ◌==◌, Bool-cases, Option, none, some, Result-cases, zip,
}
use mathlib.Core.List.{append_assoc, append-nil}
use tobiko.Prelude.Dict.{Dict}
use tobiko.Table.{
  Error, TableData, Item, dict, tuple, Call, ◌>>◌, set_rows, dicts, validate_item, append,
}
use tobiko.Table.Calls.{then-ok, then-err}
use tobiko.Table.Fitting.{Validates, validated, validated_all}
use tobiko.Table.Consistent.{
  Change, appends, inserts, sets_index, sets_slice, extends, sets_columns, replaces, perform,
}
use tobiko.Table.Editing.{
  Index, insert_place, insert_item, Assigned, an_item, a_list, set_index, set_at, item_place,
  set_slice, validate_all, splice, iadd, set_columns, rename_rows, ToReplace, replace_row,
  replace_rows, replace_in_place,
}

module _ {V : Type 0} where
  -- The items before the first that cannot be appended were appended: the dictionaries `good`.
  abbrev pub KeepsAppended : List (Item V) → TableData V → Error → List (Dict V) → Type 0
  KeepsAppended other t x rows =
      (good : List (Dict V)) × (bad : Item V) × (rest : List (Item V)) × (other
        ≡ map dict good ++ bad ∷ rest)
      × ((append bad (iadd (map dict good) t).1).0 ≡ err x)
      × (rows ≡ t.rows ++ good)

  set_rows-raises :
      (m : Call V Unit) (f : List (Dict V) → List (Dict V)) (new : List (Dict V)) (t : TableData V)
      (x : Error)
      → Validates t new (m t)
      → ((m >> set_rows f) t).0 ≡ err x
      → ((m >> set_rows f) t).1.rows ≡ t.rows
  set_rows-raises m f new t x h raised = elim (Result-cases (m t).0) [
    | inl (a, e) ↦
        let done : ((m >> set_rows f) t).0 ≡ ok tt = ap (λ o. o.0) (then-ok m (set_rows f) t a e) in
        absurd cc
    | inr (y, e) ↦ rw (then-err m (set_rows f) t y e) (h.0.0)
  ]

  set_index-raises :
      (i : Index) (value : Assigned V) (t : TableData V) (x : Error)
      → (set_index i value t).0 ≡ err x
      → (set_index i value t).1.rows ≡ t.rows
  unfolding set_index
  set_index-raises i (a_list _) t x raised = refl
  set_index-raises i (an_item (tuple _)) t x raised = refl
  set_index-raises i (an_item (dict row)) t x raised =
      let place = λ (u : TableData V). set_at (item_place i (length u.rows)) (dict row) u in
      let valid = validated (dict row) t in
      let u = (validate_item (dict row) t).1 in
      elim (Result-cases (validate_item (dict row) t).0) [
        | inr (y, e) ↦ rw (then-err (validate_item (dict row)) place t y e) valid.0.0
        | inl (a, e) ↦
            let step = then-ok (validate_item (dict row)) place t a e in
            rw step (
              set_at-raises (item_place i (length u.rows)) u (ap (λ o. o.0) (sym step) ∙ raised)
              ∙ valid.0.0)
      ]
    where
      set_at-raises :
          (place : Option ℕ) (u : TableData V)
          → (set_at place (dict row) u).0 ≡ err x
          → (set_at place (dict row) u).1.rows ≡ u.rows
      set_at-raises none u raised = refl
      set_at-raises (some n) u raised = absurd cc

  append-rows :
      (row : Dict V) (t : TableData V) (a : Unit)
      → (append (dict row) t).0 ≡ ok a
      → (append (dict row) t).1.rows ≡ t.rows ++ row ∷ []
  unfolding append
  append-rows row t a done =
      let push = λ (rows : List (Dict V)). rows ++ dicts (dict row ∷ []) in
      let m = validate_item (dict row) in
      elim (Result-cases (m t).0) [
        | inl (b, e) ↦
            rw (then-ok m (set_rows push) t b e)
              (ap (λ rows. rows ++ row ∷ []) (validated (dict row) t).0.0)
        | inr (y, e) ↦
            let failed : (append (dict row) t).0 ≡ err y =
              ap (λ o. o.0) (then-err m (set_rows push) t y e) in
            absurd cc
      ]

  append-raises :
      (item : Item V) (t : TableData V) (x : Error)
      → (append item t).0 ≡ err x
      → (append item t).1.rows ≡ t.rows
  unfolding append
  append-raises item t x raised =
      set_rows-raises (validate_item item) (λ rows. rows ++ dicts (item ∷ [])) (dicts (item ∷ [])) t
        x (validated item t) raised

  stops_at :
      (bad : Item V) (rest : List (Item V)) (t : TableData V) (x : Error)
      → (append bad t).0 ≡ err x
      → KeepsAppended (bad ∷ rest) t x (append bad t).1.rows
  unfolding iadd
  stops_at bad rest t x raised =
      ([], bad, rest, refl, raised, append-raises bad t x raised ∙ sym (append-nil t.rows))

  no_tuple : (values : List V) (t : TableData V) (a : Unit) → (append (tuple values) t).0 ≡ ok a → ⊥
  unfolding append
  no_tuple values t a e = absurd cc

  goes_on :
      (item : Item V) (other : List (Item V)) (t : TableData V) (x : Error) (a : Unit)
      → (append item t).0 ≡ ok a
      → KeepsAppended other (append item t).1 x (iadd other (append item t).1).1.rows
      → KeepsAppended (item ∷ other) t x (iadd (item ∷ other) t).1.rows
  unfolding iadd
  goes_on (tuple values) other t x a e more = absurd (no_tuple values t a e)
  goes_on (dict row) other t x a e (good, bad, rest, split, fails, more) =
      let m = append (dict row) in
      (
        row ∷ good,
        bad,
        rest,
        ap (λ items. dict row ∷ items) split,
        ap (λ o. (append bad o.1).0) (then-ok m (iadd (map dict good)) t a e) ∙ fails,
        ap (λ o. o.1.rows) (then-ok m (iadd other) t a e)
            ∙ more
            ∙ ap (λ rows. rows ++ good) (append-rows row t a e)
            ∙ append_assoc t.rows (row ∷ []) good,
      )

  iadd-raises :
      (other : List (Item V)) (t : TableData V) (x : Error)
      → (iadd other t).0 ≡ err x
      → KeepsAppended other t x (iadd other t).1.rows
  unfolding iadd
  iadd-raises [] t x raised = absurd cc
  iadd-raises (item ∷ other) t x raised =
      let m = append item in
      elim (Result-cases (m t).0) [
        | inr (y, e) ↦
            let step = then-err m (iadd other) t y e in
            let same : err y ≡ err x = ap (λ o. o.0) (sym step) ∙ raised in
            rw step (stops_at item other t x (e ∙ same))
        | inl (a, e) ↦
            let step = then-ok m (iadd other) t a e in
            goes_on item other t x a e
              (iadd-raises other (m t).1 x (ap (λ o. o.0) (sym step) ∙ raised))
      ]

  set_columns-raises :
      (new : List String) (t : TableData V) (x : Error)
      → (set_columns new t).0 ≡ err x
      → (set_columns new t).1.rows ≡ t.rows
  unfolding set_columns
  set_columns-raises new t x raised = elim (Bool-cases (length new == length t.schema)) [
    | inr other ↦ rw other refl
    | inl same ↦ elim (Result-cases (rename_rows (zip new t.schema) t.rows)) [
      | inr (y, e) ↦ rw same (rw e refl)
      | inl (rows, e) ↦
          let done : (set_columns new t).0 ≡ ok tt = rw (same, set_columns) (rw e refl) in absurd cc
    ]
  ]

  module _ (eq : V → V → Result Error Bool) (sub : (pattern val : V) → Result Error V) where
    -- The rows before the first that cannot be replaced are replaced by `new`, and it and those after
    -- it are as they were.
    abbrev pub KeepsReplaced :
        (value : V) (regex : Bool) → ToReplace V → List (Dict V) → Error → List (Dict V) → Type 0
    KeepsReplaced value regex to_replace [] x rows = ⊥
    KeepsReplaced value regex to_replace (row ∷ old) x rows =
        ((replace_row eq sub value regex to_replace row ≡ err x) × (rows ≡ row ∷ old))
        ⊎ ((new : Dict V) × (rest : List (Dict V)) × (replace_row eq sub value regex to_replace row
              ≡ ok new)
            × (rows ≡ new ∷ rest)
            × KeepsReplaced value regex to_replace old x rest)

    -- What a change that raises leaves of the rows.
    abbrev pub Leaves : Change V → TableData V → Error → List (Dict V) → Type 0
    Leaves (extends other) t x rows = KeepsAppended other t x rows
    Leaves (replaces value regex to_replace) t x rows =
        KeepsReplaced value regex to_replace t.rows x rows
    Leaves _ t x rows = rows ≡ t.rows

    replace_rows-raises :
        (value : V) (regex : Bool) (to_replace : ToReplace V) (old : List (Dict V)) (x : Error)
        → (replace_rows eq sub value regex to_replace old).0 ≡ err x
        → KeepsReplaced value regex to_replace old x
            (replace_rows eq sub value regex to_replace old).1
    unfolding replace_rows
    replace_rows-raises value regex to_replace [] x raised = absurd cc
    replace_rows-raises value regex to_replace (row ∷ old) x raised =
        elim (Result-cases (replace_row eq sub value regex to_replace row)) [
          | inr (y, e) ↦
              let same : y ≡ x = ground arith in inl (e ∙ ap err same, rw (e, replace_rows) refl)
          | inl (new, e) ↦
              let later : (replace_rows eq sub value regex to_replace old).0 ≡ err x =
                ground arith in
              inr (
                new,
                _,
                e,
                rw (e, replace_rows) refl,
                replace_rows-raises value regex to_replace old x later,
              )
        ]

    -- A change that raises leaves the rows as they were, but for two. The in-place addition of several
    -- items keeps the rows and, after them, the dictionaries before the first item that cannot be
    -- appended. The replacement in place keeps the new rows in place of those before the first that
    -- raises.
    pub perform-raises :
        (change : Change V) (t : TableData V) (x : Error)
        → (perform eq sub change t).0 ≡ err x
        → Leaves change t x (perform eq sub change t).1.rows
    unfolding perform insert_item set_slice replace_in_place
    perform-raises (extends other) t x raised = iadd-raises other t x raised
    perform-raises (appends item) t x raised = append-raises item t x raised
    perform-raises (inserts i item) t x raised =
        set_rows-raises (validate_item item)
          (λ rows. let n = insert_place i (length rows) in splice n n (dicts (item ∷ [])) rows)
          (dicts (item ∷ [])) t x (validated item t) raised
    perform-raises (sets_index i value) t x raised = set_index-raises i value t x raised
    perform-raises (sets_slice start stop (an_item _)) t x raised = refl
    perform-raises (sets_slice start stop (a_list items)) t x raised =
        set_rows-raises (validate_all items) (splice start stop (dicts items)) (dicts items) t x
          (validated_all items t) raised
    perform-raises (sets_columns new) t x raised = set_columns-raises new t x raised
    perform-raises (replaces value regex to_replace) t x raised =
        replace_rows-raises value regex to_replace t.rows x raised
