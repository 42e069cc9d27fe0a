-- ===== src/Reboot/Examples.antt =====
-- A host that takes 30 ticks to restart.
use tobiko.Prelude.{
  ℕ, ◌+◌, ◌-◌, String, Bool, true, false, ◌≡◌, refl, arith, Option, none, some, Result, ok, err,
  ltb, if◌then◌else◌,
}
use tobiko.Time.{min_seconds}
use tobiko.Retry.{retry, or_else, check_limits}
use tobiko.Retry.Loop.{Clock, for_attempts, pause}
use tobiko.Reboot.{soft, State, Host, wait_options, reboot_host, wait_for_operation, run_operation}
use tobiko.Reboot.Booted.{IsWaited, wait_for_operation-IsWaited}
use tobiko.Reboot.Ordered.{IsOrdered, run_operation-IsOrdered, IsReboot, reboot_host-IsReboot}

pub record World : Type 0 where
  pub now : ℕ
  pub booted_at : ℕ
  pub connected : Bool

abbrev later : ℕ → World → World
later d w = record w { now = w.now + d }

abbrev clock : Clock World
clock = record { time = λ w. (w.now, later 1 w); sleep = later }

abbrev node : Host World String
node = record {
  clock = clock;
  connect = λ limit w. (ok tt, record w { connected = true });
  exec_command = λ command w. (ok tt, record w { booted_at = w.now + 30 });
  close = λ w. record w { connected = false };
  cleanup = λ w. (ok tt, record w { connected = false });
  has_client = λ w. w.connected;
  get_uptime = λ w.
      if ltb w.now w.booted_at
      then (err "no route", w)
      else (ok (w.now - w.booted_at), record w { connected = true });
}

abbrev pings : World → Result (Option String) Unit × World
pings w = (ok tt, w)

abbrev up : World
up = record { now = 1000; booted_at = 0; connected = false }

reboots : reboot_host node pings 1 61 true none soft up ≡ (
  ok tt,
  record {
    is_rebooted = true;
    start_time = some 1001;
    world = record { now = 1035; booted_at = 1032; connected = true };
  },
)
unfolding reboot_host for_attempts retry or_else pause check_limits min_seconds
reboots = refl

reboot_host-IsReboot_example : IsReboot node soft (reboot_host node pings 1 61 true none soft up)
reboot_host-IsReboot_example = reboot_host-IsReboot node soft 1 61 (omega arith) pings none up

abbrev fresh_operation : State World
fresh_operation = record { is_rebooted = false; start_time = none; world = up }

run_operation-IsOrdered_example :
    IsOrdered node soft (run_operation node 1 61 soft (some 20) fresh_operation)
run_operation-IsOrdered_example =
    run_operation-IsOrdered node soft 1 61 (omega arith) (some 20) fresh_operation

abbrev rebooting : State World
rebooting = record {
  is_rebooted = false;
  start_time = some 1000;
  world = record { now = 1001; booted_at = 1030; connected = false };
}

wait_for_operation-IsWaited_example :
    IsWaited node (wait_for_operation node 1 61 (some 100) none rebooting)
wait_for_operation-IsWaited_example =
    wait_for_operation-IsWaited node 1 61 (some 100) none rebooting refl (omega arith)

-- No time left is a timeout of 0, which gives way to the default.
no_time_left : (wait_options node 1 (some 0)).timeout ≡ some 300
unfolding retry or_else
no_time_left = refl
