-- ===== src/Logs/Examples.antt =====
-- A log that grows by a line at each reading.
use tobiko.Prelude.{
  ℕ, zero, suc, ◌≡◌, refl, String, true, false, none, some, List, [], ◌∷◌, Result, ok, err,
}
use tobiko.Prelude.Dict.{is_in}
use tobiko.Logs.{GrepError, no_matching_lines_found, Digger, find_new_lines}
use tobiko.Logs.Fresh.{IsFresh, lines_of, find_all, find_new_lines-IsFresh, find_new_lines_once}

abbrev log : ℕ → Result (GrepError String) (List String)
log zero = err no_matching_lines_found
log (suc zero) = ok ("ERROR 1" ∷ [])
log (suc (suc n)) = ok ("ERROR 1" ∷ "ERROR 2" ∷ [])

abbrev grep_lines : String → ℕ → Result (GrepError String) (List String) × ℕ
grep_lines pattern n = (log n, suc n)

abbrev digger : Digger
digger = record { pattern = some "ERROR"; found = [] }

second_call :
    (find_new_lines grep_lines none (find_new_lines grep_lines none (digger, 1)).1).0
    ≡ ok ("ERROR 2" ∷ [])
unfolding find_new_lines is_in
second_call = refl

find_new_lines-IsFresh_example :
    let (new, s) = find_new_lines grep_lines none (digger, 1) in
    IsFresh digger.found s.0.found (lines_of new)
find_new_lines-IsFresh_example = find_new_lines-IsFresh grep_lines none digger 1

returned : is_in "ERROR 1" (lines_of (find_new_lines grep_lines none (digger, 1)).0) ≡ true
unfolding find_new_lines is_in
returned = refl

find_new_lines_once_example :
    is_in "ERROR 1" (
      lines_of
        (find_new_lines grep_lines none (
          find_all grep_lines
            ((none, false) ∷ [])
            (find_new_lines grep_lines none (digger, 1)).1)).0)
    ≡ false
find_new_lines_once_example =
    find_new_lines_once grep_lines none none ((none, false) ∷ []) (digger, 1) "ERROR 1" returned
