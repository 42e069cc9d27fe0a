-- ===== src/Table.antt =====
-- tobiko/common/_tabledata.py: a list of dictionaries with the same keys, the schema. This file has the
-- class TableData, its validation and its constructor.
pub mod Calls
pub mod Keys
pub mod Fitting
pub mod Renaming
pub mod Editing
pub mod Reading
pub mod Csv
pub mod Printing
pub mod Consistent
pub mod Constructing
pub mod Querying
mod Examples
pub mod Failing
pub mod Columns
pub mod Aligning
pub mod Lines
use tobiko.Prelude.{
  String, Bool, true, false, ◌&&◌, List, [], ◌∷◌, ◌++◌, map, Result, ok, err, if◌then◌else◌, zip,
}
use tobiko.Prelude.Dict.{Dict, insert, is_in}

-- The exceptions, by their types.
pub data Error : Type 0 where
  key_error index_error value_error type_error : Error
  -- An exception of `re.sub`, `str` or `==`, by its message.
  other_error : String → Error

pub record TableData (V : Type 0) : Type 0 where
  pub schema : List String
  pub rows : List (Dict V)

-- An item that a caller gives: a dictionary or a tuple.
pub data Item (V : Type 0) : Type 0 where
  dict : Dict V → Item V
  tuple : List V → Item V

-- `set(xs) == set(ys)`
abbrev pub covers : (xs ys : List String) → Bool
covers [] ys = true
covers (x ∷ xs) ys = is_in x ys && covers xs ys

abbrev pub same_set : (xs ys : List String) → Bool
same_set xs ys = covers xs ys && covers ys xs

-- A call of a method: what was written to the object stays when it raises.
abbrev pub Call : (V A : Type 0) → Type 0
Call V A = TableData V → Result Error A × TableData V

infixl 5 ◌>>=◌ ◌>>◌
abbrev pub ◌>>=◌ : {V A B : Type 0} → Call V A → (A → Call V B) → Call V B
◌>>=◌ m f t = let (r, t') = m t in elim r [ ok a ↦ f a t' | err e ↦ (err e, t') ]

abbrev pub ◌>>◌ : {V A B : Type 0} → Call V A → Call V B → Call V B
m >> k = m >>= λ _. k

module _ {V : Type 0} where
  abbrev pub keys : Dict V → List String
  keys [] = []
  keys ((k, v) ∷ row) = k ∷ keys row

  -- `d.update(pairs)`, with the pairs in order
  abbrev pub update : List (String × V) → Dict V → Dict V
  update [] row = row
  update ((k, v) ∷ pairs) row = update pairs (insert k v row)

  abbrev pub set_rows : (List (Dict V) → List (Dict V)) → Call V Unit
  set_rows f t = (ok tt, record { schema = t.schema; rows = f t.rows })

  -- Without a schema the keys of the item become the schema.
  unfoldable pub validate_keys : (schema names : List String) → Call V Unit
  validate_keys [] [] t = (err value_error, t)
  validate_keys [] (k ∷ ks) t = (ok tt, record { schema = k ∷ ks; rows = t.rows })
  validate_keys (s ∷ ss) ks t = (if same_set ks (s ∷ ss) then ok tt else err value_error, t)

  abbrev pub validate_item : Item V → Call V Unit
  unfolding validate_keys
  validate_item (tuple _) t = (err type_error, t)
  validate_item (dict row) t = validate_keys t.schema (keys row) t

  -- The dictionaries among items; the items that `validate_item` passes are all dictionaries.
  abbrev pub dicts : List (Item V) → List (Dict V)
  dicts [] = []
  dicts (dict row ∷ items) = row ∷ dicts items
  dicts (tuple _ ∷ items) = dicts items

  unfoldable pub append : Item V → Call V Unit
  unfolding validate_keys
  append item = validate_item item >> set_rows (λ rows. rows ++ dicts (item ∷ []))

  -- The loops of `__init__`: with columns on tuples, without them on the dictionaries after the
  -- first.
  unfoldable pub append_tuples : (columns : List String) → List (Item V) → Call V Unit
  unfolding append
  append_tuples columns [] t = (ok tt, t)
  append_tuples columns (dict _ ∷ items) t = (err value_error, t)
  append_tuples columns (tuple item ∷ items) t =
      (append (dict (update (zip columns item) [])) >> append_tuples columns items) t

  unfoldable pub append_dicts : List (Item V) → Call V Unit
  unfolding append
  append_dicts [] t = (ok tt, t)
  append_dicts (tuple _ ∷ items) t = (err value_error, t)
  append_dicts (dict row ∷ items) t = (append (dict row) >> append_dicts items) t

  abbrev pub empty_table : TableData V
  empty_table = record { schema = []; rows = [] }

  -- The new object, when the constructor did not raise.
  abbrev pub created : Result Error Unit × TableData V → Result Error (TableData V)
  created (ok _, t) = ok t
  created (err e, t) = err e

  -- `TableData(initial_data, columns)`; None and the empty list, which the code treats alike, are [].
  unfoldable pub init :
      (initial_data : List (Item V)) (columns : List String) → Result Error (TableData V)
  unfolding append_tuples append_dicts
  init [] columns = ok empty_table
  init (item ∷ items) (c ∷ cs) =
      created (append_tuples (c ∷ cs) (item ∷ items) (record { schema = c ∷ cs; rows = [] }))
  init (tuple _ ∷ items) [] = err value_error
  init (dict row ∷ items) [] =
      created (append_dicts items (record { schema = keys row; rows = row ∷ [] }))

  abbrev pub table_of : List (Dict V) → Result Error (TableData V)
  unfolding init
  table_of rows = init (map dict rows) []
