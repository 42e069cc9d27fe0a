-- ===== src/Retry/Loop.antt =====
-- `Retry.__iter__` of tobiko/common/_retry.py with the `for` loop that consumes it, and
-- `retry_on_exception`. The loop takes fuel: `none` means that it ran out.
use Prim.Native.Nat.{◌*◌}
use tobiko.Prelude.{
  ℕ, zero, suc, ◌-◌, Bool, true, false, Option, none, some, Result, ok, err, ltb, if◌then◌else◌,
}
use tobiko.Time.{Seconds}
use tobiko.Retry.{RetryAttempt, RetryError, raised, Retry, time_left, check_limits}

-- The time of the machine: a reading, and a wait.
pub record Clock (S : Type 0) : Type 0 where
  pub time : S → ℕ × S
  pub sleep : ℕ → S → S

-- How the body of the `for` loop ends: `break` or `return`, the next round, an exception.
pub data Verdict (E R : Type 0) : Type 0 where
  finish : R → Verdict E R
  again : Verdict E R
  throw : RetryError E → Verdict E R

abbrev pub Body : Type 0 → Type 0 → Type 0 → Type 0
Body S E R = RetryAttempt → S → Verdict E R × S

module _ {S : Type 0} (clock : Clock S) (r : Retry) where
  -- The attempt that the generator yields in the round `number`.
  abbrev pub retry_attempt : (number start_time elapsed_time : ℕ) → RetryAttempt
  retry_attempt number start_time elapsed_time = record {
    number = number;
    start_time = start_time;
    elapsed_time = elapsed_time;
    count = r.count;
    timeout = r.timeout;
    sleep_time = r.sleep_time;
    interval = r.interval;
  }

  -- The time to wait after an attempt, from the fixed time or from the schedule of the interval.
  unfoldable pub wait_time : RetryAttempt → ℕ → Seconds
  wait_time a elapsed = elim r.sleep_time [
    | some t ↦ some t
    | none ↦ elim r.interval [ none ↦ none | some i ↦ some (a.number * i - elapsed) ]
  ]

  -- `sleep_time > 0. and (time_left is None or time_left > sleep_time)`
  unfoldable pub may_wait : RetryAttempt → ℕ → Bool
  may_wait a zero = false
  may_wait a (suc d) = elim (time_left a) [ none ↦ true | some left ↦ ltb (suc d) left ]

  elapsed_after : RetryAttempt → S → ℕ × S
  elapsed_after a s = let (now, s') = clock.time s in (now - a.start_time, s')

  -- What `__iter__` does between two yields, the check of the limits aside.
  unfoldable pub pause : RetryAttempt → S → ℕ × S
  unfolding wait_time may_wait elapsed_after
  pause a s =
      let (elapsed, s') = elapsed_after a s in
      elim (wait_time a elapsed) [
        | none ↦ (elapsed, s')
        | some d ↦ if may_wait a d then elapsed_after a (clock.sleep d s') else (elapsed, s')
      ]

  module _ {E R : Type 0} (body : Body S E R) where
    unfoldable pub rounds : ℕ → RetryAttempt → S → Option (Result (RetryError E) R × S)
    rounds zero a s = none
    rounds (suc fuel) a s =
        let (verdict, s') = body a s in
        elim verdict [
          | finish x ↦ some (ok x, s')
          | throw e ↦ some (err e, s')
          | again ↦ elim (check_limits none a) [
            | err e ↦ some (err e, s')
            | ok _ ↦
                let (elapsed, s'') = pause a s' in
                rounds fuel (retry_attempt (suc a.number) a.start_time elapsed) s''
          ]
        ]

    -- `for attempt in retry_object: body`
    unfoldable pub for_attempts : ℕ → S → Option (Result (RetryError E) R × S)
    unfolding rounds
    for_attempts fuel s =
        let (start_time, s') = clock.time s in rounds fuel (retry_attempt 1 start_time 0) s'

-- `wrapper` of `retry_on_exception`. `caught` tells the listed exceptions from the others.
module _ {S E R : Type 0} (caught : E → Bool)
    (on_exception : Option (RetryAttempt → S → Result E (Unit {0}) × S))
    (func : S → Result E R × S) where
  notify : RetryAttempt → S → Verdict E R × S
  notify a s = elim on_exception [
    | none ↦ (again, s)
    | some f ↦ let (r, s') = f a s in elim r [ ok _ ↦ (again, s') | err e ↦ (throw (raised e), s') ]
  ]

  -- The limits are checked while the exception is being handled.
  except : RetryAttempt → E → S → Verdict E R × S
  unfolding notify
  except a e s =
      if caught e
      then elim (check_limits (some e) a) [ err x ↦ (throw x, s) | ok _ ↦ notify a s ]
      else (throw (raised e), s)

  unfoldable pub wrapper_body : Body S E R
  unfolding except
  wrapper_body a s =
      let (r, s') = func s in elim r [ ok x ↦ (finish x, s') | err e ↦ except a e s' ]
