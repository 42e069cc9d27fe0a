-- ===== src/Retry/Examples.antt =====
-- A small world with a clock, runs of the retry loop in it, and the theorems at such runs.
use Prim.Native.Nat.{max}
use tobiko.Prelude.{
  ℕ, suc, ◌+◌, ◌≤◌, ◌<◌, ◌≡◌, refl, true, none, some, List, [], ◌∷◌, Result, ok, err, inr, arith,
  ltb, if◌then◌else◌,
}
use tobiko.Time.{pos}
use tobiko.Retry.{RetryAttempt, Options, Retry, retry, check_limits}
use tobiko.Retry.Loop.{Clock, pause, again, Body, for_attempts, wrapper_body}
use tobiko.Retry.Unset.{drop_zeros, retry-drop_zeros}
use tobiko.Retry.Attempts.{Counts, for_attempts-le-count, Ends}
use tobiko.Retry.Exceptions.{
  IsOwn, IsFailure, Follows, raise, for_attempts-IsOwn, for_attempts_follow,
}
use tobiko.Retry.Timing.{
  IsMonotone, IsTimeLimit, all_on_schedule, for_attempts-IsTimeLimit, for_attempts-on_schedule,
}

record World : Type 0 where
  now : ℕ
  calls : ℕ
  log : List RetryAttempt

abbrev start : World
start = record { now = 100; calls = 0; log = [] }

abbrev clock : Clock World
clock = record { time = λ w. (w.now, w); sleep = λ d w. record w { now = w.now + d } }

-- A round takes one tick.
abbrev tick : RetryAttempt → World → World
tick a w = record { now = w.now + 1; calls = suc w.calls; log = a ∷ w.log }

abbrev body : Body World ℕ ℕ
body a w = (again, tick a w)

abbrev three : Retry
three = record { count = some (pos 3); timeout = none; sleep_time = none; interval = some 5 }

abbrev limited : Retry
limited = record { count = none; timeout = some 12; sleep_time = some 4; interval = none }

abbrev options : Options
options = record {
  count = some (pos 0);
  timeout = some (pos 0);
  sleep_time = none;
  interval = some (pos 2);
}

counts : Counts clock body (λ w. w.calls)
counts = record { by_body = λ a s. refl; by_time = λ s. refl; by_sleep = λ d s. refl }

monotone : IsMonotone clock (λ w. w.now)
monotone = record {
  read_after = λ s. omega arith;
  read_before = λ s. omega arith;
  sleeps = λ d s. omega arith;
}

-- The first two calls fail.
script : ℕ → Result ℕ ℕ
script i = if ltb i 2 then err 7 else ok i

func : World → Result ℕ ℕ × World
unfolding script
func w = (script w.calls, record w { calls = suc w.calls; now = w.now + 1 })

follows : Follows clock func script (λ w. w.calls)
unfolding func
follows = record {
  answer = λ s. refl;
  by_func = λ s. refl;
  by_time = λ s. refl;
  by_sleep = λ d s. refl;
}

run_limited : for_attempts clock limited body 20 start ≡ for_attempts clock limited body 7 start
unfolding for_attempts check_limits pause
run_limited = refl

retry-drop_zeros_example :
    retry (some three) (drop_zeros options) options ≡ retry (some three) options options
retry-drop_zeros_example = retry-drop_zeros (some three) options options

for_attempts-le-count_example :
    Ends (λ x (w : World). w.calls ≤ 0 + max 1 3) (for_attempts clock three body 4 start)
for_attempts-le-count_example =
    for_attempts-le-count clock three body (λ w. w.calls) counts 3 refl 4 start (omega arith)

for_attempts-IsOwn_example :
    Ends
      (λ x (w : World). IsOwn x)
      (for_attempts clock three (wrapper_body (λ e. true) none func) 4 start)
for_attempts-IsOwn_example =
    for_attempts-IsOwn clock three (λ e. true) none func 3 refl 4 start (omega arith)

fails : (i : ℕ) → i < 2 → IsFailure (λ e. true) (script i)
unfolding script
fails i h = ground arith

stops : ¬ IsFailure (λ e. true) (script 2)
unfolding script
stops h = h

for_attempts_follow_example :
    Ends
      (λ x (w : World). (x ≡ raise (script 2)) × (w.calls ≡ 3))
      (for_attempts clock three (wrapper_body (λ e. true) none func) 4 start)
for_attempts_follow_example =
    for_attempts_follow clock three (λ e. true) func script (λ w. w.calls) follows 3 refl refl 2
      (omega arith) fails (inr stops) 4 start (omega arith) refl

for_attempts-IsTimeLimit_example :
    Ends (λ x (w : World). IsTimeLimit 12 x) (for_attempts clock limited body 13 start)
for_attempts-IsTimeLimit_example =
    for_attempts-IsTimeLimit clock (λ w. w.now) monotone limited body (λ a s. omega arith)
      (λ a s. refl) refl 12 refl 13 start (omega arith)

for_attempts-on_schedule_example :
    Ends (λ x (w : World). all_on_schedule 5 w.log ≡ true) (for_attempts clock three body 4 start)
for_attempts-on_schedule_example =
    for_attempts-on_schedule clock (λ w. w.now) monotone three body (λ w. w.log) (λ a s. refl)
      (λ s. refl) (λ d s. refl) (λ a s. omega arith) 3 5 refl refl refl refl 4 start (omega arith)
      refl
