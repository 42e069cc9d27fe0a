-- ===== src/Reboot.antt =====
-- tobiko/shell/sh/_reboot.py: a host is rebooted and waited for. The SSH client, the reading of the
-- uptime, the pings and the clock are parameters. Differences of times stop at 0.
pub mod Booted
pub mod Ordered
pub mod Started
mod Examples
use tobiko.Prelude.{
  ℕ, ◌-◌, ◌*◌, String, Bool, true, false, Option, none, some, List, [], ◌∷◌, Result, ok, err, ltb,
  if◌then◌else◌,
}
use tobiko.Time.{ℤ, pos, Seconds, ToSecondsValue, null, number, min_seconds}
use tobiko.Retry.{
  RetryAttempt, RetryError, raised, count_limit, time_limit, time_left as attempt_time_left,
  check_limits, Retry, retry, times,
}
use tobiko.Retry.Loop.{Clock, Verdict, finish, again, throw, Body, for_attempts}

pub data RebootHostMethod : Type 0 where
  soft hard crash : RebootHostMethod

abbrev pub command_of : RebootHostMethod → String
command_of soft = "/sbin/reboot"
command_of hard = "echo 1 > /proc/sys/kernel/sysrq && echo b > /proc/sysrq-trigger"
command_of crash = "echo 1 > /proc/sys/kernel/sysrq && echo c > /proc/sysrq-trigger"

abbrev pub reboot_command : RebootHostMethod → List String
reboot_command method = "sudo" ∷ "/bin/sh" ∷ "-c" ∷ command_of method ∷ []

pub data RebootError (E : Type 0) : Type 0 where
  -- RebootHostTimeoutError, with the timeout of the attempt
  host_timeout : Seconds → RebootError E
  -- a comparison with None
  type_error : RebootError E
  assertion : RebootError E
  -- the limits of the retry loop
  count_limit_error : RetryAttempt → RebootError E
  time_limit_error : RetryAttempt → RebootError E
  -- what the client, its channel and the reading of the uptime raise
  host : E → RebootError E
  -- a loop that did not end within the fuel
  out_of_fuel : RebootError E

-- The attributes that change, and the world.
pub record State (W : Type 0) : Type 0 where
  pub is_rebooted : Bool
  pub start_time : Option ℕ
  pub world : W

pub record Host (W E : Type 0) : Type 0 where
  pub clock : Clock W
  pub connect : (connection_timeout : Seconds) → W → Result E Unit × W
  pub exec_command : List String → W → Result E Unit × W
  -- `ssh_client.close()`, which catches what it raises
  pub close : W → W
  -- `tobiko.cleanup_fixture(ssh_client)`
  pub cleanup : W → Result E Unit × W
  -- `ssh_client.client is not None`
  pub has_client : W → Bool
  pub get_uptime : W → Result E ℕ × W

module _ {W E : Type 0} (h : Host W E) where
  abbrev pub with_world : State W → W → State W
  with_world s w = record { is_rebooted = s.is_rebooted; start_time = s.start_time; world = w }

  abbrev pub loop_clock : Clock (State W)
  loop_clock = record {
    time = λ s. let (now, w) = h.clock.time s.world in (now, with_world s w);
    sleep = λ d s. with_world s (h.clock.sleep d s.world);
  }

  abbrev pub closed : State W → State W
  closed s = with_world s (h.close s.world)

  -- `timeout`, with the defaults of the class; `second` is the number of ticks of one.
  abbrev pub wait_options : (second : ℕ) → Seconds → Retry
  wait_options second timeout = retry none (times timeout none) (record {
    count = some (pos 60);
    timeout = some (pos (300 * second));
    sleep_time = none;
    interval = some (pos (5 * second));
  })

  abbrev pub Outcome : Type 0
  Outcome = Result (RebootError E) Unit × State W

  abbrev pub ended : State W → Option (Result (RetryError (RebootError E)) Unit × State W) → Outcome
  ended s none = (err out_of_fuel, s)
  ended s (some (ok _, s')) = (ok tt, s')
  ended s (some (err (raised e), s')) = (err e, s')
  ended s (some (err (count_limit a), s')) = (err (count_limit_error a), s')
  ended s (some (err (time_limit a), s')) = (err (time_limit_error a), s')

  -- The `except` of run_operation, before the connection is closed.
  abbrev pub unable : RetryAttempt → Seconds → Verdict (RebootError E) Unit
  unable a none = throw (raised type_error)
  unable a (some left) = if ltb 0 left then again else throw (raised (host_timeout a.timeout))

  abbrev pub started : State W → ℕ → W → State W
  started s now w = record { is_rebooted = s.is_rebooted; start_time = some now; world = w }

  abbrev pub ordered :
      RetryAttempt → State W → ℕ → Result E Unit × W → Verdict (RebootError E) Unit × State W
  ordered a s now (err e, w) = (unable a (attempt_time_left a), started s now w)
  ordered a s now (ok _, w) = (finish tt, started s now w)

  unfoldable pub executed :
      (method : RebootHostMethod)
      → RetryAttempt
      → State W
      → Result E Unit × W
      → Verdict (RebootError E) Unit × State W
  executed method a s (err e, w) = (unable a (attempt_time_left a), with_world s w)
  executed method a s (ok _, w) =
      let (now, w') = h.clock.time w in ordered a s now (h.exec_command (reboot_command method) w')

  unfoldable pub run_body : RebootHostMethod → Body (State W) (RebootError E) Unit
  unfolding executed
  run_body method a s =
      let (verdict, s') = executed method a s (h.connect (attempt_time_left a) s.world) in
      (verdict, closed s')

  unfoldable pub run_operation :
      (second fuel : ℕ) → RebootHostMethod → (timeout : Seconds) → State W → Outcome
  unfolding run_body
  run_operation second fuel method timeout s = ended s (
      for_attempts loop_clock (wait_options second timeout) (run_body method) fuel
        (record { is_rebooted = false; start_time = none; world = s.world }))

  -- The property reads the clock, where there is a start time.
  abbrev pub elapsed_since : Option ℕ → State W → Seconds × State W
  elapsed_since none s = (none, s)
  elapsed_since (some start) s =
      let (now, w) = h.clock.time s.world in (some (now - start), with_world s w)

  abbrev pub elapsed_time : State W → Seconds × State W
  elapsed_time s = elapsed_since s.start_time s

  abbrev pub less : Seconds → Seconds → ToSecondsValue
  less none elapsed = null
  less (some timeout) none = null
  less (some timeout) (some elapsed) = number (pos (timeout - elapsed))

  abbrev pub left_since : (timeout : ℕ) → Option ℕ → State W → ToSecondsValue × State W
  left_since timeout none s = (null, s)
  left_since timeout (some start) s =
      let (_, s') = elapsed_since (some start) s in
      let (elapsed, s'') = elapsed_since (some start) s' in (less (some timeout) elapsed, s'')

  -- `timeout` of the operation less the elapsed time; the code reads the clock once more for its test.
  abbrev pub time_left : Seconds → State W → ToSecondsValue × State W
  time_left none s = (null, s)
  time_left (some timeout) s = left_since timeout s.start_time s

  abbrev pub verdict_of : Result (RetryError (RebootError E)) Unit → Verdict (RebootError E) Unit
  verdict_of (ok _) = again
  verdict_of (err x) = throw x

  -- `attempt.check_limits()`, while an exception is handled or not.
  abbrev pub or_limits : Option (RebootError E) → RetryAttempt → Verdict (RebootError E) Unit
  or_limits handled a = verdict_of (check_limits handled a)

  abbrev pub rebooted : State W → State W
  rebooted s = record { is_rebooted = true; start_time = s.start_time; world = s.world }

  -- `if up_time < elapsed_time`
  unfoldable pub compared :
      RetryAttempt → (up_time : ℕ) → Seconds × State W → Verdict (RebootError E) Unit × State W
  compared a up_time (none, s) = (throw (raised type_error), s)
  compared a up_time (some elapsed, s) =
      if ltb up_time elapsed
      then if h.has_client s.world then (finish tt, rebooted s) else (throw (raised assertion), s)
      else (or_limits none a, s)

  unfoldable pub after_uptime :
      RetryAttempt → State W → Result E ℕ × W → Verdict (RebootError E) Unit × State W
  unfolding compared
  after_uptime a s (err e, w) = (or_limits (some (host e)) a, with_world s w)
  after_uptime a s (ok up_time, w) = compared a up_time (elapsed_time (with_world s w))

  unfoldable pub after_cleanup :
      RetryAttempt → State W → Result E Unit × W → Verdict (RebootError E) Unit × State W
  unfolding after_uptime
  after_cleanup a s (err e, w) = (throw (raised (host e)), with_world s w)
  after_cleanup a s (ok _, w) =
      if h.has_client w
      then (throw (raised assertion), with_world s w)
      else after_uptime a (with_world s w) (h.get_uptime w)

  unfoldable pub wait_body : Body (State W) (RebootError E) Unit
  unfolding after_cleanup
  wait_body a s = after_cleanup a s (h.cleanup s.world)

  -- `finally: if not self.is_rebooted: self.ssh_client.close()`
  abbrev pub close_unless_rebooted : Outcome → Outcome
  close_unless_rebooted (r, s) = (r, if s.is_rebooted then s else closed s)

  abbrev pub seconds_or_none : {X : Type 0} → Result X Seconds → Seconds
  seconds_or_none (ok s) = s
  seconds_or_none (err _) = none

  abbrev pub given : Seconds → ToSecondsValue
  given none = null
  given (some n) = number (pos n)

  -- The minimum of two numbers does not raise.
  unfoldable pub wait_limited :
      (second fuel : ℕ) (timeout : Seconds) → ToSecondsValue × State W → Outcome
  unfolding wait_body
  wait_limited second fuel timeout (left, s) =
      let limit = seconds_or_none (min_seconds (λ _. none) (given timeout ∷ left ∷ [])) in
      close_unless_rebooted
        (ended s (for_attempts loop_clock (wait_options second limit) wait_body fuel s))

  -- `timeout` is the argument and `operation_timeout` the attribute.
  unfoldable pub wait_for_operation :
      (second fuel : ℕ) (operation_timeout timeout : Seconds) → State W → Outcome
  unfolding wait_limited
  wait_for_operation second fuel operation_timeout timeout s =
      if s.is_rebooted
      then (ok tt, s)
      else wait_limited second fuel timeout (time_left operation_timeout s)

  -- `ping.wait_for_ping_hosts` until the host is not reachable: ReachableHostsException, where it
  -- stays so, is caught, and other exceptions are not.
  abbrev pub after_pings : (State W → Outcome) → State W → Result (Option E) Unit × W → Outcome
  after_pings k s (ok _, w) = k (with_world s w)
  after_pings k s (err none, w) = k (with_world s w)
  after_pings k s (err (some e), w) = (err (host e), with_world s w)

  module _ (wait_for_ping_hosts : W → Result (Option E) Unit × W) (second fuel : ℕ) where
    abbrev pub waited : (wait : Bool) (timeout : Seconds) → Outcome → Outcome
    waited wait timeout (err e, s) = (err e, s)
    waited false timeout (ok _, s) = (ok tt, s)
    waited true timeout (ok _, s) =
        after_pings (wait_for_operation second fuel timeout none) s (wait_for_ping_hosts s.world)

    unfoldable pub reboot_host : (wait : Bool) → Seconds → RebootHostMethod → W → Outcome
    unfolding run_operation wait_for_operation
    reboot_host wait timeout method w = waited wait timeout (
        run_operation second fuel method timeout
          (record { is_rebooted = false; start_time = none; world = w }))
