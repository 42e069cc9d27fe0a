-- ===== src/Version.antt =====
-- tobiko/common/_version.py: the check that a version is in a range. Versions, their order and their
-- parser are the package `packaging`'s.
pub mod Range
mod Examples
use tobiko.Prelude.{String, Bool, true, false, not, Option, none, some, Result, ok, err}
use tobiko.Prelude.{◌>>=◌, ◌>>◌, if◌then◌else◌}

-- A version, or a text to be read as one.
pub data VersionType (V : Type 0) : Type 0 where
  version : V → VersionType V
  text : String → VersionType V

-- The errors raised: a mismatch shows the actual version and the bound of the text `>= {bound}`.
pub data VersionError (V : Type 0) : Type 0 where
  invalid_version : String → VersionError V
  version_mismatch : V → Option (VersionType V) → VersionError V

abbrev pub or_text : Option String → String → String
or_text (some m) s = m
or_text none s = s

module _ {V : Type 0} (search : String → Option String) (parse : String → Option V) where
  -- `search` gives the first match of VERSION_PATTERN in the stripped text.
  unfoldable pub parse_version : String → Result (VersionError V) V
  parse_version s =
      let found = or_text (search s) s in
      elim (parse found) [ some v ↦ ok v | none ↦ err (invalid_version found) ]

  unfoldable pub get_version : VersionType V → Result (VersionError V) V
  unfolding parse_version
  get_version (version v) = ok v
  get_version (text s) = parse_version s

  module _ (less at_least : V → V → Bool) where
    -- The text of a version below the minimum shows `max_version` as it was given.
    unfoldable pub check_min :
        V → Option (VersionType V) → Option (VersionType V) → Result (VersionError V) (Unit {0})
    check_min actual none max_version = ok tt
    check_min actual (some min_version) max_version = do
      lowest ← get_version min_version
      if less actual lowest then err (version_mismatch actual max_version) else ok tt

    unfoldable pub check_max : V → Option (VersionType V) → Result (VersionError V) (Unit {0})
    check_max actual none = ok tt
    check_max actual (some max_version) = do
      limit ← get_version max_version
      if at_least actual limit then err (version_mismatch actual (some (version limit))) else ok tt

    unfoldable pub check_version :
        VersionType V
        → Option (VersionType V)
        → Option (VersionType V)
        → Result (VersionError V) Bool
    check_version actual min_version max_version = do
      v ← get_version actual
      check_min v min_version max_version
      check_max v max_version
      ok true

    unfoldable pub match_version :
        VersionType V
        → Option (VersionType V)
        → Option (VersionType V)
        → Result (VersionError V) Bool
    match_version actual min_version max_version =
        elim (check_version actual min_version max_version) [
          | ok _ ↦ ok true
          | err (version_mismatch _ _) ↦ ok false
          | err (invalid_version s) ↦ err (invalid_version s)
        ]
