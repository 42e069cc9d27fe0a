-- ===== src/Ping/Errors.antt =====
-- `execute_ping` and the reading of the errors of the ping command in tobiko/shell/ping/_ping.py.
-- The operations on texts are Python's, and `execute` is `sh.execute`: both are parameters.
use tobiko.Prelude.{
  ◌≡◌, refl, String, Bool, true, false, not, ◌&&◌, Option, none, some, List, [], ◌∷◌, ◌++◌, Result,
  ok, err, ℕ, ltb, str_eq, arith, if◌then◌else◌,
}

pub record Texts : Type 0 where
  pub splitlines : String → List String
  pub strip : String → String
  pub starts_with : String → String → Bool
  pub ends_with : String → String → Bool
  -- the text after a prefix, and the text before a suffix
  pub after : String → String → String
  pub before : String → String → String
  pub without_quotes : String → String
  -- `text.split()[-1]`
  pub last_word : String → Option String

pub data PingCommandError : Type 0 where
  bad_address_ping_error : String → PingCommandError
  local_ping_error : String → PingCommandError
  connect_ping_error : String → PingCommandError
  send_to_ping_error : String → PingCommandError
  unknow_host_error : String → PingCommandError
  ping_error : String → PingCommandError
  index_error : PingCommandError

-- The first handler that raises.
infixr 4 ◌orelse◌
abbrev ◌orelse◌ : {A : Type 0} → Option A → Option A → Option A
some e orelse next = some e
none orelse next = next

module _ (t : Texts) where
  unfoldable pub handle_ping_bad_address_error : String → Option PingCommandError
  handle_ping_bad_address_error text =
      if t.starts_with text "bad address "
      then some (bad_address_ping_error (t.strip (t.without_quotes (t.after "bad address " text))))
      else none

  details_after : (String → PingCommandError) → (prefix text : String) → Option PingCommandError
  details_after error prefix text =
      if t.starts_with text prefix then some (error (t.strip (t.after prefix text))) else none

  details_before : (suffix text : String) → Option PingCommandError
  details_before suffix text =
      if t.ends_with text suffix
      then some (unknow_host_error (t.strip (t.before suffix text)))
      else none

  unfoldable pub handle_ping_local_error : String → Option PingCommandError
  unfolding details_after
  handle_ping_local_error = details_after local_ping_error "local error: "

  unfoldable pub handle_ping_connect_error : String → Option PingCommandError
  unfolding details_after
  handle_ping_connect_error = details_after connect_ping_error "connect: "

  unfoldable pub handle_ping_send_to_error : String → Option PingCommandError
  unfolding details_after
  handle_ping_send_to_error = details_after send_to_ping_error "sendto: "

  last_of : Option String → PingCommandError
  last_of none = index_error
  last_of (some word) = unknow_host_error word

  unfoldable pub handle_ping_unknow_host_error : String → Option PingCommandError
  unfolding details_after details_before last_of
  handle_ping_unknow_host_error text =
      details_after unknow_host_error "unknown host" text
      orelse details_after unknow_host_error "unreachable-host: " text
      orelse details_before ": Name or service not known" text
      orelse details_before ": No route to host" text
      orelse (if t.ends_with text ": Unknown host"
          then some (last_of (t.last_word (t.strip (t.before ": Unknown host" text))))
          else none)

  -- What is raised for a line that is not blank.
  unfoldable pub error_of : String → PingCommandError
  error_of line =
      let text = if t.starts_with line "ping: " then t.after "ping: " line else line in
      let raised =
        handle_ping_bad_address_error text
        orelse handle_ping_local_error text
        orelse handle_ping_connect_error text
        orelse handle_ping_send_to_error text
        orelse handle_ping_unknow_host_error text in
      elim raised [ some e ↦ e | none ↦ ping_error text ]

  unfoldable pub handle_lines : List String → Option PingCommandError
  handle_lines [] = none
  handle_lines (line ∷ lines) =
      let error = t.strip line in
      let rest = handle_lines lines in if str_eq error "" then rest else some (error_of error)

  unfoldable pub handle_ping_command_error : String → Option PingCommandError
  unfolding handle_lines
  handle_ping_command_error error = handle_lines (t.splitlines error)

  abbrev pub all_blank : List String → Bool
  all_blank [] = true
  all_blank (line ∷ lines) = str_eq (t.strip line) "" && all_blank lines

  -- Blank lines are passed over: alone they raise nothing, and before a line the error is that line's,
  -- or that of the lines after it where it is blank too.
  pub handle_lines_lem :
      (blank : List String) (line : String) (lines : List String)
      → all_blank blank ≡ true
      → (handle_lines blank ≡ none)
        × (handle_lines (blank ++ line ∷ lines) ≡ (
            if str_eq (t.strip line) ""
            then handle_lines lines
            else some (error_of (t.strip line))))
  unfolding handle_lines
  handle_lines_lem [] line lines h = (refl, refl)
  handle_lines_lem (b ∷ blank) line lines h = ground (arith, handle_lines_lem blank line lines)

-- What `sh.execute` gives: a result, or an exception with what it has of the output.
pub data Execution : Type 0 where
  executed : (stdout stderr : Option String) (exit_status : ℕ) → Execution
  raised : (stdout stderr : Option String) → Execution

pub data ExecuteError : Type 0 where
  command_error : PingCommandError → ExecuteError
  -- `result` has no value where `sh.execute` raised
  unbound_local_error : ExecuteError

abbrev pub is_text : Option String → Bool
is_text none = false
is_text (some s) = not (str_eq s "")

abbrev pub output_of : Option String → Option String
output_of none = none
output_of (some s) = if str_eq s "" then none else some s

module _ (t : Texts) where
  command_failed : Option String → Option String → Result ExecuteError (Option String)
  command_failed stdout none = ok (output_of stdout)
  command_failed stdout (some stderr) = elim (handle_ping_command_error t stderr) [
    | none ↦ ok (output_of stdout)
    | some e ↦ err (command_error e)
  ]

  unfoldable pub execute_ping : (check : Bool) → Execution → Result ExecuteError (Option String)
  unfolding command_failed
  execute_ping check (executed stdout stderr exit_status) =
      if is_text stderr && (check && ltb 0 exit_status)
      then command_failed stdout stderr
      else ok (output_of stdout)
  execute_ping check (raised stdout stderr) =
      if is_text stderr && check then err unbound_local_error else ok (output_of stdout)

  abbrev pub is_unbound : Result ExecuteError (Option String) → Bool
  is_unbound (err unbound_local_error) = true
  is_unbound _ = false
