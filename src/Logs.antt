-- ===== src/Logs.antt =====
-- tobiko/shell/files/_logs.py: the lines of log files that match a pattern, and which of them are new.
-- The files are read by a parameter, `grep_lines`, on a state of the world `W`.
pub mod Multihost
pub mod Fresh
pub mod Hosts
mod Examples
use tobiko.Prelude.{
  String, Bool, true, false, not, Option, none, some, List, [], ◌∷◌, ◌++◌, Result, ok, err,
  if◌then◌else◌,
}
use tobiko.Prelude.Dict.{is_in}

-- What `grep_lines` raises.
pub data GrepError (E : Type 0) : Type 0 where
  no_matching_lines_found : GrepError E
  other : E → GrepError E

pub data DiggerError (E : Type 0) : Type 0 where
  value_error : DiggerError E
  not_implemented_error : DiggerError E
  raised_by_grep : E → DiggerError E

-- A LogFileDigger: `found` is an ordered dictionary whose values are None.
pub record Digger : Type 0 where
  pub pattern : Option String
  pub found : List String

abbrev pub choose_pattern :
    {E : Type 0} → (given own : Option String) → Result (DiggerError E) String
choose_pattern none none = err value_error
choose_pattern none (some p) = ok p
choose_pattern (some p) (some q) = err not_implemented_error
choose_pattern (some p) none = ok p

-- `[line for line in lines if line not in self.found]`
unfoldable pub fresh : List String → List String → List String
fresh found [] = []
fresh found (l ∷ ls) = let rest = fresh found ls in if is_in l found then rest else l ∷ rest

-- `self.found.update((line, None) for line in lines)`
unfoldable pub update : List String → List String → List String
update found [] = found
update found (l ∷ ls) = update (if is_in l found then found else found ++ (l ∷ [])) ls

unfoldable pub dig :
    {E : Type 0}
    → Bool
    → Result (GrepError E) (List String)
    → Digger
    → Result (DiggerError E) (List String) × Digger
unfolding fresh update
dig new_lines (err (other e)) d = (err (raised_by_grep e), d)
dig new_lines (err no_matching_lines_found) d = (ok (if new_lines then [] else d.found), d)
dig new_lines (ok lines) d =
    let new = fresh d.found lines in
    let found = update d.found new in
    (ok (if new_lines then new else found), record d { found = found })

abbrev with_world : {A B W : Type 0} → A × B → W → A × (B × W)
with_world (a, b) w = (a, (b, w))

module _ {W E : Type 0} (grep_lines : String → W → Result (GrepError E) (List String) × W) where
  abbrev pub dig_pattern :
      Bool
      → Result (DiggerError E) String
      → Digger × W
      → Result (DiggerError E) (List String) × (Digger × W)
  dig_pattern new_lines (err e) s = (err e, s)
  dig_pattern new_lines (ok pattern) (d, w) =
      let (lines, w') = grep_lines pattern w in with_world (dig new_lines lines d) w'

  unfoldable pub find_lines :
      Option String → Bool → Digger × W → Result (DiggerError E) (List String) × (Digger × W)
  unfolding dig
  find_lines pattern new_lines (d, w) =
      dig_pattern new_lines (choose_pattern pattern d.pattern) (d, w)

  unfoldable pub find_new_lines :
      Option String → Digger × W → Result (DiggerError E) (List String) × (Digger × W)
  unfolding find_lines
  find_new_lines pattern s = find_lines pattern true s

-- `cleanup_fixture`
unfoldable pub clear : Digger → Digger
clear d = record d { found = [] }
