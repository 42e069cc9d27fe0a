-- ===== src/Version/Examples.antt =====
-- Versions that are numbers, the text "1" being the first one.
use tobiko.Prelude.{
  ℕ, ◌≡◌, refl, String, Bool, true, false, not, ◌&&◌, ◌||◌, Option, none, some, ok, err, arith, ltb,
  leb, str_eq, if◌then◌else◌,
}
use tobiko.Version.{
  version, text, match_version, get_version, check_version, check_min, version_mismatch,
}
use tobiko.Version.Range.{match_version-split}

abbrev search : String → Option String
search s = some s

abbrev parse : String → Option ℕ
parse s = if str_eq s "1" then some 1 else none

abbrev at_least : ℕ → ℕ → Bool
at_least v w = leb w v

at_least_lem : (v w : ℕ) → at_least v w ≡ not (ltb v w)
at_least_lem v w = ground arith

less_trans : (u v w : ℕ) → ltb u v ≡ true → ltb v w ≡ true → ltb u w ≡ true
less_trans u v w h k = ground arith

less_between : (u v w : ℕ) → ltb u w ≡ true → (ltb u v || ltb v w) ≡ true
less_between u v w h = ground arith

match_version-split_example :
    (b : Bool) × (c : Bool) × (match_version search parse ltb at_least
        (version 3)
        (some (text "1"))
        (some (version 4))
      ≡ ok b)
    × (match_version search parse ltb at_least (version 3) (some (version 4)) none ≡ ok c)
    × (match_version search parse ltb at_least (version 3) (some (text "1")) none ≡ ok (b || c))
    × ((b && c) ≡ false)
unfolding get_version
match_version-split_example =
    match_version-split search parse ltb at_least at_least_lem less_trans less_between (version 3)
      (some (text "1")) none (version 4) 3 (some 1) none 4 refl refl tt refl refl refl

-- A version below the minimum is reported with the maximum.
below_example :
    check_version search parse ltb at_least (version 0) (some (text "1")) (some (version 4))
    ≡ err (version_mismatch 0 (some (version 4)))
unfolding check_version get_version check_min
below_example = refl
