-- ===== src/Table/Querying.antt =====
-- What reads a table: query, boolean indexing and concat return tables of the rows that they take.
use Prim.Native.String.{count as count_chars}
use tobiko.Prelude.{
  String, Bool, true, false, ◌≡◌, refl, ◌∙◌, Option, some, List, [], ◌∷◌, Result, ok, arith, All,
  Bool-cases, Option-cases, ltb, inl, inr, length, ==_iff,
}
use tobiko.Prelude.Dict.{Dict, lookup, is_in}
use tobiko.Table.{Error, TableData, keys}
use tobiko.Table.Keys.{SameNames, All-is_in, lookup-is_in}
use tobiko.Table.Fitting.{Fits, IsTable}
use tobiko.Table.Constructing.{table_of-Fits}
use tobiko.Table.Reading.{
  column, selected, get_mask, Cells, contains, Evaluated, longest_first, insert_name, replace_names,
  row_matches, matching, is_true, query,
}

insert_name-All :
    (P : String → Type 0) (name : String) (names : List String)
    → P name
    → All P names
    → All P (insert_name name names)
unfolding insert_name
insert_name-All P name [] p h = (p, tt)
insert_name-All P name (n ∷ names) p h =
    elim (Bool-cases (ltb (count_chars name) (count_chars n))) [
      | inl shorter ↦ rw shorter (h.0, insert_name-All P name names p h.1)
      | inr longer ↦ rw longer (p, h)
    ]

longest_first-All :
    (P : String → Type 0) (names : List String) → All P names → All P (longest_first names)
unfolding longest_first
longest_first-All P [] h = tt
longest_first-All P (name ∷ names) h =
    insert_name-All P name (longest_first names) h.0 (longest_first-All P names h.1)

module _ {V : Type 0} where
  replace_names-total :
      (literal : V → String) (word_in : (word text : String) → Bool)
      (put : (word by text : String) → String) (names : List String) (row : Dict V) (text : String)
      → All (λ name. is_in name (keys row) ≡ true) names
      → (out : String) × (replace_names literal word_in put names row text ≡ ok out)
  unfolding replace_names
  replace_names-total literal word_in put [] row text h = (text, refl)
  replace_names-total literal word_in put (name ∷ names) row text h =
      elim (Bool-cases (word_in name text)) [
        | inr absent ↦
            let (out, e) = replace_names-total literal word_in put names row text h.1 in
            (out, rw absent e)
        | inl present ↦
            let (v, found) = lookup-is_in name row h.0 in
            let (out, e) =
              replace_names-total literal word_in put names row (put name (literal v) text) h.1 in
            (out, rw present (rw (found, replace_names) e))
      ]

  selected-All :
      (schema : List String) (rows : List (Dict V)) (mask : List Bool)
      → All (λ row. SameNames (keys row) schema) rows
      → All (λ row. SameNames (keys row) schema) (selected rows mask)
  unfolding selected
  selected-All schema [] mask h = tt
  selected-All schema (row ∷ rows) [] h = tt
  selected-All schema (row ∷ rows) (true ∷ mask) h = (h.0, selected-All schema rows mask h.1)
  selected-All schema (row ∷ rows) (false ∷ mask) h = selected-All schema rows mask h.1

  pub selected-Fits :
      (schema : List String) (rows : List (Dict V)) (mask : List Bool)
      → Fits schema rows
      → Fits schema (selected rows mask)
  unfolding selected
  selected-Fits schema rows mask h = (selected-All schema rows mask h.0, λ nil. rw (h.1 nil) refl)

  pub column-total :
      (schema : List String) (key : String) (rows : List (Dict V))
      → is_in key schema ≡ true
      → All (λ row. SameNames (keys row) schema) rows
      → (vals : List V) × (column key rows ≡ ok vals) × (length vals ≡ length rows)
  unfolding column
  column-total schema key [] i h = ([], refl, refl)
  column-total schema key (row ∷ rows) i h =
      let (v, found) = lookup-is_in key row (h.0 key ∙ i) in
      let (vals, e, n) = column-total schema key rows i h.1 in
      (v ∷ vals, rw (found, column) (rw e refl), omega (arith, n))

  module _ (cells : Cells V) (part_of : (pattern text : String) → Bool) (literal : V → String)
      (word_in : (word text : String) → Bool) (put : (word by text : String) → String)
      (evaluate : String → Evaluated)
      (contains_match : (expr : String) → Option (String × String)) where
    abbrev pub query_of : String → TableData V → Result Error (TableData V)
    query_of = query cells part_of literal word_in put evaluate contains_match

    module _ (schema : List String) (expr : String) where
      abbrev matches : Dict V → Result Error Bool
      matches = row_matches cells part_of literal word_in put evaluate contains_match schema expr

      abbrev results : List (Dict V) → Result Error (List (Dict V))
      results = matching cells part_of literal word_in put evaluate contains_match schema expr

      -- The answers of the rows, in their order.
      pub Answers : List (Dict V) → List Bool → Type 0
      Answers [] [] = Unit
      Answers (row ∷ rows) (b ∷ mask) = (matches row ≡ ok b) × Answers rows mask
      Answers _ _ = ⊥

      results-Answers :
          (rows : List (Dict V)) (mask : List Bool)
          → Answers rows mask
          → results rows ≡ ok (selected rows mask)
      unfolding matching selected Answers
      results-Answers [] [] h = refl
      results-Answers [] (b ∷ mask) h = absurd h
      results-Answers (row ∷ rows) [] h = absurd h
      results-Answers (row ∷ rows) (b ∷ mask) h =
          rw (h.0, matching) (rw (results-Answers rows mask h.1) refl)

      matches-total :
          (row : Dict V) → SameNames (keys row) schema → (b : Bool) × (matches row ≡ ok b)
      unfolding row_matches
      matches-total row same = elim (Option-cases (contains_match expr)) [
        | inl plain ↦
            let known =
              longest_first-All _ schema (All-is_in schema (keys row) (λ k i. same k ∙ i)) in
            let (out, e) =
              replace_names-total literal word_in put (longest_first schema) row expr known in
            (is_true (evaluate out), rw (plain, row_matches) (rw e refl))
        | inr (found, e) ↦ elim (Option-cases (lookup found.0 row)) [
          | inl missing ↦ (false, rw (e, row_matches) (rw missing refl))
          | inr (v, there) ↦ (part_of found.1 (cells.str v), rw (e, row_matches) (rw there refl))
        ]
      ]

      Answers-total :
          (rows : List (Dict V))
          → All (λ row. SameNames (keys row) schema) rows
          → (mask : List Bool) × Answers rows mask
      unfolding Answers
      Answers-total [] h = ([], tt)
      Answers-total (row ∷ rows) h =
          let (b, e) = matches-total row h.0 in
          let (mask, answers) = Answers-total rows h.1 in (b ∷ mask, (e, answers))

      matches-contains :
          (col text : String) (row : Dict V) (v : V)
          → contains_match expr ≡ some (col, text)
          → lookup col row ≡ some v
          → matches row ≡ ok (part_of text (cells.str v))
      unfolding row_matches
      matches-contains col text row v e found = rw (e, row_matches) (rw found refl)

      contains-Answers :
          (col text : String) (rows : List (Dict V))
          → contains_match expr ≡ some (col, text)
          → is_in col schema ≡ true
          → All (λ row. SameNames (keys row) schema) rows
          → (vals : List V) × (column col rows ≡ ok vals)
            × Answers rows (contains cells part_of text vals)
            × (length (contains cells part_of text vals) ≡ length rows)
      unfolding Answers contains column
      contains-Answers col text [] e i h = ([], refl, tt, refl)
      contains-Answers col text (row ∷ rows) e i h =
          let (v, found) = lookup-is_in col row (h.0 col ∙ i) in
          let (vals, there, answers, n) = contains-Answers col text rows e i h.1 in
          (
            v ∷ vals,
            rw (found, column) (rw there refl),
            (matches-contains col text row v e found, answers),
            omega (arith, n),
          )

    -- A query of a table whose rows fit its schema does not raise. It returns a table, whose rows fit
    -- too, of the rows of which the expression was found true, in their order.
    pub query-Answers :
        (expr : String) (t : TableData V)
        → IsTable t
        → (mask : List Bool) × (u : TableData V) × Answers t.schema expr t.rows mask
          × (query_of expr t ≡ ok u)
          × (u.rows ≡ selected t.rows mask)
          × IsTable u
    unfolding query
    query-Answers expr t h =
        let (mask, answers) = Answers-total t.schema expr t.rows h.0 in
        let (u, made, rows, fit) =
          table_of-Fits t.schema (selected t.rows mask) (selected-Fits t.schema t.rows mask h) in
        (
          mask,
          u,
          answers,
          rw (results-Answers t.schema expr t.rows mask answers, query) made,
          rows,
          fit,
        )

    -- For a name of the schema, the query that asks whether a column contains a text gives the same as
    -- the boolean indexing with what the column says of that text.
    pub query-contains :
        (expr col text : String) (t : TableData V)
        → contains_match expr ≡ some (col, text)
        → is_in col t.schema ≡ true
        → IsTable t
        → (vals : List V) × (column col t.rows ≡ ok vals)
          × (query_of expr t ≡ get_mask (contains cells part_of text vals) t)
    unfolding query get_mask
    query-contains expr col text t e i h =
        let (vals, there, answers, n) = contains-Answers t.schema expr col text t.rows e i h.0 in
        let mask = contains cells part_of text vals in
        (
          vals,
          there,
          rw (results-Answers t.schema expr t.rows mask answers, query)
              (rw ((==_iff _ _).1 n, get_mask) refl),
        )
