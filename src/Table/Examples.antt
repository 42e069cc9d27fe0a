-- ===== src/Table/Examples.antt =====
-- A small table of hosts, changed, read and printed.
use tobiko.Prelude.{
  ℕ, String, true, false, ◌≡◌, ◌⊎◌, refl, Option, none, some, List, [], ◌∷◌, Bool, Result, ok, err,
  length, str_eq, if◌then◌else◌,
}
use tobiko.Prelude.Dict.{Dict, lookup, insert, is_in}
use tobiko.Table.{Error, value_error, TableData, dict, tuple, init, append}
use tobiko.Table.Fitting.{IsTable}
use tobiko.Table.Editing.{
  back, a_list, one, insert_item, iadd, set_slice, set_columns, replace_in_place,
}
use tobiko.Table.Reading.{Cells, Evaluated, not_evaluated, column, contains, get_mask}
use tobiko.Table.Csv.{all_length, from_dict, read_csv}
use tobiko.Table.Lines.{IsRead, read_csv_complete}
use tobiko.Table.Printing.{to_string}
use tobiko.Table.Consistent.{
  Change, appends, inserts, sets_slice, extends, sets_columns, replaces, perform, perform_all,
  perform_all-IsTable,
}
use tobiko.Table.Constructing.{all_match, init-all_match}
use tobiko.Table.Failing.{Leaves, perform-raises}
use tobiko.Table.Querying.{query_of, query-contains}
use tobiko.Table.Columns.{from_dict-column}
use tobiko.Table.Aligning.{IsShown, to_string-bounds}

abbrev host : (name state : String) → Dict String
host name state = ("name", name) ∷ ("state", state) ∷ []

abbrev hosts : TableData String
hosts = record {
  schema = "name" ∷ "state" ∷ [];
  rows = host "compute-0" "up" ∷ host "controller-0" "down" ∷ [];
}

hosts-IsTable : IsTable hosts
unfolding is_in
hosts-IsTable = (((λ k. refl), ((λ k. refl), tt)), λ nil. absurd cc)

abbrev same_text : String → String → Result Error Bool
same_text val pattern = ok (str_eq val pattern)

-- A replacement that raises at "b".
abbrev upper : String → String → Result Error String
upper pattern val = if str_eq val "b" then err (Error.other_error "bad escape") else ok "X"

abbrev changes : List (Change String)
changes =
    appends (dict (host "compute-1" "up"))
    ∷ appends (dict (("name", "lost") ∷ []))
    ∷ inserts (back 0) (dict (host "compute-2" "up"))
    ∷ extends (dict (host "compute-3" "up") ∷ tuple [] ∷ [])
    ∷ sets_slice 0 1 (a_list [])
    ∷ sets_columns ("host" ∷ "status" ∷ [])
    ∷ replaces "idle" false (one "up")
    ∷ []

changes_run : perform_all same_text upper changes hosts ≡ record {
  schema = "host" ∷ "status" ∷ [];
  rows =
      (("host", "controller-0") ∷ ("status", "down") ∷ [])
      ∷ (("host", "compute-2") ∷ ("status", "idle") ∷ [])
      ∷ (("host", "compute-1") ∷ ("status", "idle") ∷ [])
      ∷ (("host", "compute-3") ∷ ("status", "idle") ∷ [])
      ∷ [];
}
unfolding perform_all perform append insert_item iadd set_slice set_columns replace_in_place is_in
    insert lookup
changes_run = refl

perform_all-IsTable_example : IsTable (perform_all same_text upper changes hosts)
perform_all-IsTable_example = perform_all-IsTable same_text upper changes hosts hosts-IsTable

init-all_match_example :
    init (dict (host "a" "up") ∷ dict (("state", "up") ∷ ("name", "b") ∷ []) ∷ []) [] ≡ (
      if all_match {V = String}
        ("name" ∷ "state" ∷ [])
        (dict (("state", "up") ∷ ("name", "b") ∷ []) ∷ [])
      then ok (record {
        schema = "name" ∷ "state" ∷ [];
        rows = host "a" "up" ∷ (("state", "up") ∷ ("name", "b") ∷ []) ∷ [];
      })
      else err value_error)
init-all_match_example =
    init-all_match (host "a" "up") (dict (("state", "up") ∷ ("name", "b") ∷ []) ∷ [])
      (λ e. absurd cc)

abbrev additions : Change String
additions = extends (dict (host "compute-3" "up") ∷ tuple [] ∷ [])

additions-raise : (perform same_text upper additions hosts).0 ≡ err Error.type_error
unfolding perform iadd is_in
additions-raise = refl

perform-raises_example :
    Leaves same_text upper additions hosts Error.type_error
      (perform same_text upper additions hosts).1.rows
perform-raises_example =
    perform-raises same_text upper additions hosts Error.type_error additions-raise

-- The first row is replaced and the second raises.
replaced_half :
    (replace_in_place same_text upper "" true
      (one ".*")
      (record { schema = "k" ∷ []; rows = (("k", "a") ∷ []) ∷ (("k", "b") ∷ []) ∷ [] })).1.rows
    ≡ (("k", "X") ∷ []) ∷ (("k", "b") ∷ []) ∷ []
unfolding replace_in_place insert
replaced_half = refl

abbrev texts : Cells String
texts = record { str = λ v. v; eq = str_eq; is_none = λ v. false }

abbrev contains_match : String → Option (String × String)
contains_match expr =
    if str_eq expr "name.str.contains(\"compute\")" then some ("name", "compute-0") else none

abbrev not_read : String → Evaluated
not_read text = not_evaluated

abbrev keep_text : String → String → String → String
keep_text word by text = text

abbrev expression : String
expression = "name.str.contains(\"compute\")"

query-contains_example :
    (vals : List String) × (column "name" hosts.rows ≡ ok vals)
    × (query_of texts str_eq (λ v. v) str_eq keep_text not_read contains_match expression hosts
        ≡ get_mask (contains texts str_eq "compute-0" vals) hosts)
unfolding is_in
query-contains_example =
    query-contains texts str_eq (λ v. v) str_eq keep_text not_read contains_match expression "name"
      "compute-0" hosts refl refl hosts-IsTable

from_dict-column_example :
    let d : Dict (List String) = ("name", "a" ∷ "b" ∷ []) ∷ ("state", "up" ∷ "down" ∷ []) ∷ [] in
    ((all_length 2 d ≡ true)
      × (t : TableData String) × (from_dict d ≡ ok t)
      × IsTable t
      × (length t.rows ≡ 2)
      × ((j : String) (ws : List String) → lookup j d ≡ some ws → column j t.rows ≡ ok ws))
    ⊎ ((all_length 2 d ≡ false) × (from_dict d ≡ err value_error))
unfolding is_in
from_dict-column_example =
    from_dict-column {V = String} "name" ("a" ∷ "b" ∷ []) (("state", "up" ∷ "down" ∷ []) ∷ [])
      (refl, (refl, tt))

hosts_text :
    to_string (λ v. v) hosts ≡ ok "name          state\ncompute-0     up   \ncontroller-0  down "
unfolding to_string lookup
hosts_text = refl

to_string-bounds_example : IsShown (λ v. v) hosts
to_string-bounds_example = to_string-bounds (λ v. v) hosts hosts-IsTable

-- An empty dictionary first: the rows of the result have different keys.
uneven :
    init {V = String} (dict [] ∷ dict (host "a" "up") ∷ []) []
    ≡ ok (record { schema = "name" ∷ "state" ∷ []; rows = [] ∷ host "a" "up" ∷ [] })
unfolding init is_in
uneven = refl

abbrev fields : List (List String)
fields = ("name" ∷ "state" ∷ []) ∷ ("a" ∷ "up" ∷ []) ∷ ("b" ∷ []) ∷ ("c" ∷ "down" ∷ "!" ∷ []) ∷ []

abbrev digit : ℕ → String
digit n = "0"

csv_rows :
    read_csv digit fields (some 0) []
    ≡ ok (record { schema = "name" ∷ "state" ∷ []; rows = host "a" "up" ∷ host "c" "down" ∷ [] })
unfolding read_csv is_in insert
csv_rows = refl

read_csv_complete_example :
    (t : TableData String) × (read_csv digit fields (some 0) [] ≡ ok t)
    × IsRead
        ("name" ∷ "state" ∷ [])
        (("a" ∷ "up" ∷ []) ∷ ("b" ∷ []) ∷ ("c" ∷ "down" ∷ "!" ∷ []) ∷ [])
        t.rows
    × IsTable t
read_csv_complete_example =
    read_csv_complete digit [] ("name" ∷ "state" ∷ [])
      (("a" ∷ "up" ∷ []) ∷ ("b" ∷ []) ∷ ("c" ∷ "down" ∷ "!" ∷ []) ∷ []) [] (λ nil. absurd cc)
      (unfold is_in in (refl, (refl, tt)))

-- A blank first line: no column names, and a ValueError at the second empty row.
blank_line : read_csv digit ([] ∷ ("a" ∷ []) ∷ []) none [] ≡ err value_error
unfolding read_csv is_in insert
blank_line = refl
