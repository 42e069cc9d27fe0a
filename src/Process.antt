-- ===== src/Process.antt =====
-- tobiko/shell/sh/_process.py: the life of a process, and the restart of an external one. The process,
-- its streams and the functions of the caller are parameters; the exchange of data is one of them.
pub mod Ending
pub mod External
mod Examples
use tobiko.Prelude.{
  ℕ, zero, suc, ◌*◌, String, Bool, true, false, Option, none, some, List, [], ◌∷◌, ◌++◌, Result, ok,
  err, str_eq, ◌==◌, if◌then◌else◌,
}
use tobiko.Time.{ℤ, pos, negsuc, Seconds}

-- The parameters `shell` and `sudo`: None, a Boolean or a text.
pub data Wrapper : Type 0 where
  unset : Wrapper
  flag : Bool → Wrapper
  text : String → Wrapper

module _ (split : String → List String) (join : List String → String)
    (default_shell_command default_sudo_command : List String) where
  abbrev pub shell_words : Wrapper → List String → List String
  shell_words unset command = command
  shell_words (flag true) command = default_shell_command ++ join command ∷ []
  shell_words (flag false) command = command
  shell_words (text shell) command = split shell ++ join command ∷ []

  abbrev pub or_default : Wrapper → Wrapper → Wrapper
  or_default unset default_shell = default_shell
  or_default (flag b) default_shell = flag b
  or_default (text s) default_shell = text s

  abbrev pub sudo_words : Wrapper → List String → List String
  sudo_words unset command = command
  sudo_words (flag true) command = default_sudo_command ++ command
  sudo_words (flag false) command = command
  sudo_words (text sudo) command = if str_eq sudo "" then command else split sudo ++ command

  abbrev pub namespace_words : String → List String → List String
  namespace_words network_namespace command =
      "/sbin/ip" ∷ "netns" ∷ "exec" ∷ network_namespace ∷ command

  -- `network_namespace` is the empty text where it is None, which the code treats alike.
  unfoldable pub setup_command :
      (shell default_shell sudo : Wrapper) (network_namespace : String) → List String → List String
  setup_command shell default_shell sudo network_namespace command =
      let command' = shell_words (or_default shell default_shell) command in
      if str_eq network_namespace ""
      then sudo_words sudo command'
      else sudo_words (or_default sudo (flag true)) (namespace_words network_namespace command')

pub data ProcessError (E : Type 0) : Type 0 where
  shell_timeout_expired : Seconds → ProcessError E
  shell_process_terminated : ℤ → ProcessError E
  shell_command_failed : ℤ → ProcessError E
  -- check_timeout is no method and no parameter
  attribute_error : ProcessError E
  raised : E → ProcessError E

-- The methods of the classes below ShellProcessFixture, and the exchange of data.
pub record Shell (W E : Type 0) : Type 0 where
  pub create_process : W → Result E Unit × W
  pub poll_exit_status : W → Result E (Option ℤ) × W
  pub get_exit_status : (timeout : Seconds) → W → Result E (Option ℤ) × W
  pub kill : W → Result E Unit × W
  -- the stream is there and not closed, and `close` of it
  pub close_stdin : W → Result E Unit × W
  pub close_stdout : W → Result E Unit × W
  pub close_stderr : W → Result E Unit × W
  pub wait : (timeout : Seconds) → W → Result E Unit × W

pub record Process (W : Type 0) : Type 0 where
  pub exit_status : Option ℤ
  pub world : W

-- What check_or_start_external_process is given; a failure is raised by `tobiko.fail`.
pub record Service (W E : Type 0) : Type 0 where
  pub liveness_function : W → Result E Bool × W
  pub stop_function : Option (W → Result E Unit × W)
  pub check_function : W → Result E Unit × W
  pub start_function : W → Result E Unit × W
  pub sleep : ℕ → W → W
  pub failure : E

module _ {W E : Type 0} (service : Service W E) (second : ℕ) where
  abbrev pub checked_after : Result E Unit × W → Result E Unit × W
  checked_after (err e, w) = (err e, w)
  checked_after (ok _, w) = service.check_function (service.sleep (3 * second) w)

  abbrev pub stopped : Option (W → Result E Unit × W) → W → Result E Unit × W
  stopped none w = service.check_function w
  stopped (some stop) w = checked_after (stop w)

  abbrev pub if_alive : Result E Bool × W → Result E Unit × W
  if_alive (err e, w) = (err e, w)
  if_alive (ok false, w) = (ok tt, w)
  if_alive (ok true, w) = stopped service.stop_function w

  abbrev pub if_started_alive : Result E Unit → Result E Bool × W → Result E Unit × W
  if_started_alive r (err e, w) = (err e, w)
  if_started_alive r (ok false, w) = (err service.failure, w)
  if_started_alive r (ok true, w) = (r, w)

  abbrev pub if_started : Result E Unit → Result E Unit × W → Result E Unit × W
  if_started r (err e, w) = (err e, w)
  if_started r (ok _, w) =
      if_started_alive r (service.liveness_function (service.sleep (3 * second) w))

  -- The `finally`, with what the `try` left.
  abbrev pub restarted : Result E Unit × W → Result E Unit × W
  restarted (r, w) = if_started r (service.start_function w)

  unfoldable pub check_or_start_external_process : W → Result E Unit × W
  check_or_start_external_process w = restarted (if_alive (service.liveness_function w))

module _ {W E : Type 0} (sh : Shell W E) where
  abbrev pub with_world : Process W → W → Process W
  with_world p w = record { exit_status = p.exit_status; world = w }

  -- `if self._exit_status: del self._exit_status`
  abbrev pub forget : Option ℤ → Option ℤ
  forget none = none
  forget (some (pos zero)) = some (pos zero)
  forget (some (pos (suc n))) = none
  forget (some (negsuc n)) = none

  abbrev pub lift :
      {A : Type 0} → Process W → Result E A × W → Result (ProcessError E) A × Process W
  lift p (ok a, w) = (ok a, with_world p w)
  lift p (err e, w) = (err (raised e), with_world p w)

  unfoldable pub setup_process : Process W → Result (ProcessError E) Unit × Process W
  setup_process p =
      lift (record { exit_status = forget p.exit_status; world = p.world })
        (sh.create_process p.world)

  abbrev pub polled :
      Process W → Result E (Option ℤ) × W → Result (ProcessError E) (Option ℤ) × Process W
  polled p (err e, w) = (err (raised e), with_world p w)
  polled p (ok none, w) = (ok none, with_world p w)
  polled p (ok (some s), w) = (ok (some s), record { exit_status = some s; world = w })

  abbrev pub read_status : Option ℤ → Process W → Result (ProcessError E) (Option ℤ) × Process W
  read_status (some s) p = (ok (some s), p)
  read_status none p = polled p (sh.poll_exit_status p.world)

  -- The property `exit_status`.
  unfoldable pub read_exit_status : Process W → Result (ProcessError E) (Option ℤ) × Process W
  read_exit_status p = read_status p.exit_status p

  abbrev pub not_running :
      Result (ProcessError E) (Option ℤ) × Process W → Result (ProcessError E) Unit × Process W
  not_running (err e, p) = (err e, p)
  not_running (ok none, p) = (ok tt, p)
  not_running (ok (some s), p) = (err (shell_process_terminated s), p)

  unfoldable pub check_is_running : Process W → Result (ProcessError E) Unit × Process W
  unfolding read_exit_status
  check_is_running p = not_running (read_exit_status p)

  abbrev pub or_parameter : (timeout parameter : Seconds) → Seconds
  or_parameter none parameter = parameter
  or_parameter (some t) parameter = some t

  abbrev pub or_expired : Seconds → Result E (Option ℤ) × W → Result (ProcessError E) ℤ × W
  or_expired timeout (err e, w) = (err (raised e), w)
  or_expired timeout (ok none, w) = (err (shell_timeout_expired timeout), w)
  or_expired timeout (ok (some s), w) = (ok s, w)

  unfoldable pub get_exit_status : (timeout parameter : Seconds) → W → Result (ProcessError E) ℤ × W
  get_exit_status timeout parameter w =
      let t = or_parameter timeout parameter in or_expired t (sh.get_exit_status t w)

  abbrev same_status : ℤ → ℤ → Bool
  same_status (pos m) (pos n) = m == n
  same_status (negsuc m) (negsuc n) = m == n
  same_status _ _ = false

  abbrev pub judged :
      (expected_status : ℤ) → Result E (Option ℤ) × W → Result (ProcessError E) Unit × W
  judged expected (err e, w) = (err (raised e), w)
  judged expected (ok none, w) = (err attribute_error, w)
  judged expected (ok (some s), w) =
      (if same_status expected s then ok tt else err (shell_command_failed s), w)

  unfoldable pub check_exit_status : (expected_status : ℤ) → W → Result (ProcessError E) Unit × W
  check_exit_status expected w = judged expected (sh.poll_exit_status w)

  -- What is raised is logged.
  abbrev pub logged : {A : Type 0} → Result E A × W → W
  logged (r, w) = w

  abbrev pub kill_unless : Result (ProcessError E) ℤ × W → Result (ProcessError E) Unit × W
  kill_unless (ok s, w) = (ok tt, w)
  kill_unless (err e, w) = (err e, logged (sh.kill w))

  unfoldable pub terminate : (parameter : Seconds) → W → Result (ProcessError E) Unit × W
  unfolding get_exit_status
  terminate parameter w =
      kill_unless
        (get_exit_status none parameter (logged (sh.close_stderr (logged (sh.close_stdout w)))))

  -- The `finally` of `close`: what `_terminate` raises goes before what `wait` raised.
  abbrev pub finally_raise :
      Result E Unit → Result (ProcessError E) Unit × W → Result (ProcessError E) Unit × W
  finally_raise r (err e, w) = (err e, w)
  finally_raise (ok _) (ok _, w) = (ok tt, w)
  finally_raise (err e) (ok _, w) = (err (raised e), w)

  abbrev pub drained : (parameter : Seconds) → Result E Unit × W → Result (ProcessError E) Unit × W
  drained parameter (r, w) = finally_raise r (terminate parameter w)

  unfoldable pub close : (timeout parameter : Seconds) → W → Result (ProcessError E) Unit × W
  unfolding terminate
  close timeout parameter w =
      drained parameter (sh.wait (or_parameter timeout parameter) (logged (sh.close_stdin w)))
