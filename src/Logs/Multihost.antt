-- ===== src/Logs/Multihost.antt =====
-- A MultihostLogFileDigger: a digger for each host, in the order in which they were added, and
-- JournalLogDigger, which reads a journal instead of files.
use tobiko.Prelude.{
  ℕ, ◌*◌, String, Bool, true, Option, none, some, List, [], ◌∷◌, ◌++◌, Result, ok, err,
  if◌then◌else◌,
}
use tobiko.Prelude.Dict.{Dict, lookup, insert}
use tobiko.Time.{ℤ}
use tobiko.Retry.{RetryError, raised, Options, retry}
use tobiko.Retry.Loop.{Clock, Verdict, finish, again, throw, Body, for_attempts}
use tobiko.Logs.{GrepError, no_matching_lines_found, DiggerError, Digger, find_lines}

-- `self.diggers.get(hostname)`, and a new digger where there is none.
unfoldable pub add_host : (pattern : Option String) (hostname : String) → Dict Digger → Dict Digger
add_host pattern hostname diggers = elim (lookup hostname diggers) [
  | some digger ↦ diggers
  | none ↦ insert hostname (record { pattern = pattern; found = [] }) diggers
]

abbrev pub HostLines : Type 0
HostLines = List (String × String)

unfoldable pub with_host : String → List String → HostLines
with_host hostname [] = []
with_host hostname (l ∷ ls) = (hostname, l) ∷ with_host hostname ls

-- What a host adds to the hosts after it, `rest`; an exception leaves their diggers alone.
unfoldable pub join_host :
    {W E : Type 0}
    → String
    → Dict Digger
    → Result (DiggerError E) (List String) × (Digger × W)
    → Result (DiggerError E) HostLines × (Dict Digger × W)
    → Result (DiggerError E) HostLines × (Dict Digger × W)
unfolding with_host
join_host hostname diggers (err e, (d, w)) rest = (err e, ((hostname, d) ∷ diggers, w))
join_host hostname diggers (ok ls, (d, w)) (err e, (ds, w')) = (err e, ((hostname, d) ∷ ds, w'))
join_host hostname diggers (ok ls, (d, w)) (ok more, (ds, w')) =
    (ok (with_host hostname ls ++ more), ((hostname, d) ∷ ds, w'))

-- `grep_lines` reads the files of a host.
module _ {W E : Type 0}
    (grep_lines : String → String → W → Result (GrepError E) (List String) × W) where
  unfoldable pub find_host_lines :
      Option String → Bool → Dict Digger → W → Result (DiggerError E) HostLines × (Dict Digger × W)
  unfolding join_host
  find_host_lines pattern new_lines [] w = (ok [], ([], w))
  find_host_lines pattern new_lines ((hostname, digger) ∷ diggers) w =
      let first = find_lines (grep_lines hostname) pattern new_lines (digger, w) in
      join_host hostname diggers first (find_host_lines pattern new_lines diggers first.1.1)

  unfoldable pub until_lines : Result (DiggerError E) HostLines → Verdict (DiggerError E) HostLines
  until_lines (err e) = throw (raised e)
  until_lines (ok []) = again
  until_lines (ok (l ∷ ls)) = finish (l ∷ ls)

  unfoldable pub new_lines_body : Option String → Body (Dict Digger × W) (DiggerError E) HostLines
  unfolding find_host_lines until_lines
  new_lines_body pattern a (diggers, w) =
      let (lines, s) = find_host_lines pattern true diggers w in (until_lines lines, s)

  -- `second` is the number of ticks of one; the fixture is set up.
  unfoldable pub find_new_host_lines :
      Clock W
      → (second fuel : ℕ) → (pattern : Option String) → Options
      → Dict Digger × W
      → Option (Result (RetryError (DiggerError E)) HostLines × (Dict Digger × W))
  unfolding new_lines_body
  find_new_host_lines clock second fuel pattern given s =
      let defaults : Options = record {
        count = none;
        timeout = some (ℤ.pos (60 * second));
        sleep_time = none;
        interval = some (ℤ.pos second);
      } in
      let digging : Clock (Dict Digger × W) = record {
        time = λ s. let (now, w) = clock.time s.1 in (now, (s.0, w));
        sleep = λ d s. (s.0, clock.sleep d s.1);
      } in
      for_attempts digging (retry none given defaults) (new_lines_body pattern) fuel s

-- `journalctl` as it ends: with its output, or as ShellCommandFailed with its output.
pub data Journal : Type 0 where
  output : String → Journal
  shell_command_failed : String → Journal

-- The operations on texts are Python's.
module _ (splitlines : String → List String) (starts_with ends_with : String → String → Bool) where
  unfoldable pub without_marks : List String → List String
  without_marks [] = []
  without_marks (l ∷ ls) =
      let rest = without_marks ls in if starts_with "-- " l then rest else l ∷ rest

  unfoldable pub journal_lines : {E : Type 0} → Journal → Result (GrepError E) (List String)
  unfolding without_marks
  journal_lines (output stdout) = ok (without_marks (splitlines stdout))
  journal_lines (shell_command_failed stdout) =
      if ends_with "-- No entries --\n" stdout then err no_matching_lines_found else ok []
