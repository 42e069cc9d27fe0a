-- ===== src/Table/Constructing.antt =====
-- The constructor on dictionaries: it returns exactly when the items match the first one.
use tobiko.Prelude.{
  String, Bool, true, false, ◌&&◌, ◌≡◌, ◌≢◌, refl, sym, ap, ◌∙◌, List, [], ◌∷◌, ◌++◌, map, ok, err,
  arith, All, All-map, Bool-cases, inl, inr, if◌then◌else◌, eq_iff,
}
use mathlib.Core.List.{append_assoc, append-nil}
use tobiko.Prelude.Dict.{Dict, is_in}
use tobiko.Table.{
  value_error, TableData, Item, dict, tuple, keys, dicts, same_set, validate_keys, append,
  append_dicts, created, set_rows, init, table_of, ◌>>◌,
}
use tobiko.Table.Calls.{then-ok, then-err}
use tobiko.Table.Keys.{SameNames, same_set-SameNames}
use tobiko.Table.Fitting.{Fits, IsTable}

module _ {V : Type 0} where
  -- Each item is a dictionary with the names of the schema.
  pub all_match : List String → List (Item V) → Bool
  all_match schema [] = true
  all_match schema (tuple _ ∷ items) = false
  all_match schema (dict row ∷ items) = same_set (keys row) schema && all_match schema items

  abbrev with_rows : String → List String → List (Dict V) → TableData V
  with_rows s ss rows = record { schema = s ∷ ss; rows = rows }

  append_lem :
      (s : String) (ss : List String) (row : Dict V) (rows : List (Dict V))
      → append (dict row) (with_rows s ss rows) ≡ (
          if same_set (keys row) (s ∷ ss)
          then (ok tt, with_rows s ss (rows ++ row ∷ []))
          else (err value_error, with_rows s ss rows))
  unfolding append validate_keys
  append_lem s ss row rows = go (same_set (keys row) (s ∷ ss))
    where
      go :
          (b : Bool)
          → ◌>>◌ {V = V} {A = Unit} {B = Unit}
              (λ t. (if b then ok tt else err value_error, t))
              (set_rows (λ rows. rows ++ row ∷ []))
              (with_rows s ss rows)
            ≡ (if b
                then (ok tt, with_rows s ss (rows ++ row ∷ []))
                else (err value_error, with_rows s ss rows))
      go true = refl
      go false = refl

  append_dicts_lem :
      (s : String) (ss : List String) (items : List (Item V)) (rows : List (Dict V))
      → created (append_dicts items (with_rows s ss rows)) ≡ (
          if all_match (s ∷ ss) items
          then ok (with_rows s ss (rows ++ dicts items))
          else err value_error)
  unfolding append_dicts all_match
  append_dicts_lem s ss [] rows = rw (append-nil rows) refl
  append_dicts_lem s ss (tuple _ ∷ items) rows = refl
  append_dicts_lem s ss (dict row ∷ items) rows =
      let t = with_rows s ss rows in
      let step = append_lem s ss row rows in
      elim (Bool-cases (same_set (keys row) (s ∷ ss))) [
        | inr other ↦
            let e : append (dict row) t ≡ (err value_error, t) = step ∙ (rw other refl) in
            rw other (
              rw (then-err (append (dict row)) (append_dicts items) t value_error (ap (λ o. o.0) e))
                refl)
        | inl same ↦
            let t' = with_rows s ss (rows ++ row ∷ []) in
            let e : append (dict row) t ≡ (ok tt, t') = step ∙ (rw same refl) in
            rw same (
              rw (then-ok (append (dict row)) (append_dicts items) t tt (ap (λ o. o.0) e)) (
                rw (ap (λ o. o.1) e) (
                  append_dicts_lem s ss items (rows ++ row ∷ [])
                  ∙ rw (append_assoc rows (row ∷ []) (dicts items)) refl)))
      ]

  -- Given a first dictionary that is not empty, the constructor returns the table of all the
  -- dictionaries, with the keys of the first one as its schema, if every other item is a dictionary
  -- with the same set of keys, and raises a ValueError otherwise.
  pub init-all_match :
      (row : Dict V) (items : List (Item V))
      → keys row ≢ []
      → init (dict row ∷ items) [] ≡ (
          if all_match (keys row) items
          then ok (record { schema = keys row; rows = row ∷ dicts items })
          else err value_error)
  unfolding init
  init-all_match [] items n = absurd (n refl)
  init-all_match ((k, v) ∷ row) items n = append_dicts_lem k (keys row) items (((k, v) ∷ row) ∷ [])

  all_match_intro :
      (s names : List String) (rows : List (Dict V))
      → SameNames names s
      → All (λ row. SameNames (keys row) s) rows
      → all_match names (map dict rows) ≡ true
  unfolding all_match
  all_match_intro s names [] e h = refl
  all_match_intro s names (row ∷ rows) e h =
      let same = (same_set-SameNames (keys row) names).1 (λ k. h.0 k ∙ sym (e k)) in
      rw same (all_match_intro s names rows e h.1)

  dicts-map : (rows : List (Dict V)) → dicts (map dict rows) ≡ rows
  dicts-map [] = refl
  dicts-map (row ∷ rows) = rw (dicts-map rows) refl

  no_keys : (s : List String) (row : Dict V) → SameNames (keys row) s → s ≢ [] → keys row ≢ []
  unfolding is_in
  no_keys [] row e n h = n refl
  no_keys (x ∷ xs) [] e n h = absurd (ground (arith, e x, eq_iff x x))
  no_keys (x ∷ xs) ((k, v) ∷ row) e n h = absurd cc

  -- Rows that fit a schema become a table of these rows.
  pub table_of-Fits :
      (schema : List String) (rows : List (Dict V))
      → Fits schema rows
      → (t : TableData V) × (table_of rows ≡ ok t) × (t.rows ≡ rows) × IsTable t
  unfolding init
  table_of-Fits schema [] h = (record { schema = []; rows = [] }, refl, refl, (tt, λ _. refl))
  table_of-Fits schema (row ∷ rows) h =
      let some_name : schema ≢ [] = λ nil. let e : row ∷ rows ≡ [] = h.1 nil in absurd cc in
      let some_key = no_keys schema row h.0.0 some_name in
      let matched = all_match_intro schema (keys row) rows h.0.0 h.0.1 in
      (
        record { schema = keys row; rows = row ∷ rows },
        init-all_match row (map dict rows) some_key ∙ (rw matched (rw (dicts-map rows) refl)),
        refl,
        (
          ((λ k. refl), All-map _ _ (λ r same k. same k ∙ sym (h.0.0 k)) rows h.0.1),
          λ nil. absurd (some_key nil),
        ),
      )
