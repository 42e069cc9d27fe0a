-- ===== src/Ping/Examples.antt =====
-- A host that loses its first message, pinged until a count of messages.
use tobiko.Prelude.{
  ℕ, suc, ◌+◌, ◌≤◌, ◌≡◌, ◌≢◌, refl, Option, none, some, [], ◌∷◌, Result, ok, arith, ltb,
  if◌then◌else◌,
}
use tobiko.Time.{pos}
use tobiko.Retry.Loop.{Clock}
use tobiko.Retry.Timing.{IsMonotone}
use tobiko.Ping.Statistics.{PingStatistics, empty, add}
use tobiko.Ping.Rounds.{Parameters, received', Execution, Reply, Counters, iter_statistics, sum}
use tobiko.Ping.Counting.{Missed, Outcome, iter_statistics-Outcome}
use tobiko.Ping.Ending.{iter_statistics_ends}
use tobiko.Prelude.{List}
use tobiko.Retry.{Retry}

-- The time, in tenths of a second, and the executions so far.
record World : Type 0 where
  now : ℕ
  calls : ℕ

abbrev clock : Clock World
clock = record { time = λ w. (w.now, w); sleep = λ d w. record w { now = w.now + d } }

monotone : IsMonotone clock (λ w. w.now)
monotone = record {
  read_after = λ s. omega arith;
  read_before = λ s. omega arith;
  sleeps = λ d s. omega arith;
}

-- The first execution has no output, and each later one transmits two messages and receives one.
ping : Execution → World → Result ℕ (Option Reply) × World
ping e w = (
  if ltb w.calls 1
      then ok none
      else ok (
          some (record {
            source = none;
            destination = some "10.0.0.1";
            transmitted = 2;
            received = 1;
            undelivered = 0;
          })),
  record { now = w.now + 3; calls = suc w.calls },
)

ping_no_return : (e : Execution) (s : World) → s.now ≤ (ping e s).1.now
unfolding ping
ping_no_return e s = omega arith

abbrev parameters : Parameters
parameters = record { count = 2; deadline = 1; timeout = 9; interval = 10 }

abbrev start : World
start = record { now = 100; calls = 0 }

abbrev reply : (begin end' : ℕ) → PingStatistics
reply begin end' = record {
  source = none;
  destination = some "10.0.0.1";
  transmitted = 2;
  received = 1;
  undelivered = 0;
  begin_interval = some begin;
  end_interval = some end';
}

abbrev final : Counters
final = record {
  transmitted = 5;
  received = 2;
  undelivered = 1;
  count = pos 2;
  deadline = 1;
  elapsed = some 3;
  now = 123;
}

run :
    iter_statistics clock 10 ping parameters received' 11 start
    ≡ some (reply 103 113 ∷ reply 113 123 ∷ [], ok tt, final, record { now = 123; calls = 3 })
unfolding iter_statistics ping
run = refl

run_sum :
    sum empty (reply 103 113 ∷ reply 113 123 ∷ [])
    ≡ ok (record (reply 103 123) { transmitted = 4; received = 2 })
unfolding sum add
run_sum = refl

iter_statistics-Outcome_example :
    let t = record (reply 103 123) { transmitted = 4; received = 2 } in
    (m : ℕ) × Missed final t m × Outcome {E = ℕ} received' 2 t m (ok tt)
iter_statistics-Outcome_example =
    iter_statistics-Outcome clock 10 ping parameters received' 11 start
      (reply 103 113 ∷ reply 113 123 ∷ []) (ok tt) final (record { now = 123; calls = 3 })
      (record (reply 103 123) { transmitted = 4; received = 2 }) run run_sum

iter_statistics_ends_example : iter_statistics clock 10 ping parameters received' 11 start ≢ none
iter_statistics_ends_example =
    iter_statistics_ends clock (λ w. w.now) monotone 10 (omega arith) ping ping_no_return parameters
      received' 11 start (omega arith)

-- Pings of hosts that are numbers: the host 1 answers from the second call on, and calls take time.
abbrev host_clock : Clock (List ℕ × World)
host_clock = record {
  time = λ o. (o.1.now, o);
  sleep = λ d o. (o.0, record o.1 { now = o.1.now + d });
}

abbrev retry_three : Retry
retry_three = record { count = some (pos 3); timeout = none; sleep_time = none; interval = none }
