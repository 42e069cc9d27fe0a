-- ===== src/Retry/Timing.antt =====
-- Timeouts and intervals of a retry loop, over a clock that never goes back.
use Prim.Native.Nat.{◌*◌}
use tobiko.Prelude.{
  ℕ, zero, suc, ◌+◌, ◌-◌, ◌≤◌, ◌<◌, ◌≡◌, Bool, true, ◌&&◌, leb, none, some, List, [], ◌∷◌, Result,
  err, arith, ltb, refl,
}
use tobiko.Time.{pos}
use tobiko.Retry.{RetryAttempt, RetryError, time_limit, Retry, time_left, check_limits}
use tobiko.Retry.Loop.{Clock, again, Body, retry_attempt, pause, may_wait, rounds, for_attempts}
use tobiko.Retry.Attempts.{Ends}

-- `now` is the true time of a state: a reading lies between the times around it, and a wait takes
-- at least the time that it is asked for.
pub record IsMonotone {S : Type 0} (clock : Clock S) (now : S → ℕ) : Type 0 where
  pub read_after : (s : S) → now s ≤ (clock.time s).0
  pub read_before : (s : S) → (clock.time s).0 ≤ now (clock.time s).1
  pub sleeps : (d : ℕ) (s : S) → now s + d ≤ now (clock.sleep d s)

-- The error of a timeout `t`, at an attempt that began no earlier.
abbrev pub IsTimeLimit : {E R : Type 0} → ℕ → Result (RetryError E) R → Type 0
IsTimeLimit t (err (time_limit a)) = t ≤ a.elapsed_time
IsTimeLimit t _ = ⊥

module _ {S : Type 0} (clock : Clock S) (now : S → ℕ) (monotone : IsMonotone clock now)
    (r : Retry) where
  -- The elapsed time after a pause counts from the start, and is read within the pause.
  pub pause_elapsed :
      (a : RetryAttempt) (s : S)
      → a.start_time ≤ now s
      → (now s ≤ a.start_time + (pause clock r a s).0)
        × (a.start_time + (pause clock r a s).0 ≤ now (pause clock r a s).1)
  unfolding pause
  pause_elapsed a s h = grind (arith, monotone.read_after, monotone.read_before, monotone.sleeps)

  pub pause_passes : (a : RetryAttempt) (s : S) → now s ≤ now (pause clock r a s).1
  unfolding pause
  pause_passes a s = grind (arith, monotone.read_after, monotone.read_before, monotone.sleeps)

  may_wait_timeless : (a : RetryAttempt) (d : ℕ) → a.timeout ≡ none → may_wait clock r a d ≡ ltb 0 d
  unfolding may_wait time_left
  may_wait_timeless a zero t = refl
  may_wait_timeless a (suc d) t = ground arith

  pause_interval :
      (a : RetryAttempt) (s : S) (i : ℕ)
      → a.start_time ≤ now s
      → r.sleep_time ≡ none
      → r.interval ≡ some i
      → a.timeout ≡ none
      → a.number * i ≤ (pause clock r a s).0
  unfolding pause
  pause_interval a s i h e f t =
      let s' = (clock.time s).1 in
      let d = a.number * i - ((clock.time s).0 - a.start_time) in
      ground (
        arith,
        monotone.read_after s,
        monotone.read_before s,
        monotone.sleeps d s',
        monotone.read_after (clock.sleep d s'),
        may_wait_timeless a d t,
      )

-- The attempt number n began after n - 1 intervals or later.
abbrev pub on_schedule : ℕ → RetryAttempt → Bool
on_schedule i a = leb (a.number * i) (a.elapsed_time + i)

abbrev pub all_on_schedule : ℕ → List RetryAttempt → Bool
all_on_schedule i [] = true
all_on_schedule i (a ∷ as') = on_schedule i a && all_on_schedule i as'

module _ {S E R : Type 0} (clock : Clock S) (now : S → ℕ) (monotone : IsMonotone clock now)
    (r : Retry) (body : Body S E R) where
  module _ (advances : (a : RetryAttempt) (s : S) → now s < now (body a s).1)
      (endless : (a : RetryAttempt) (s : S) → (body a s).0 ≡ again) (countless : r.count ≡ none)
      (t : ℕ) (timed : r.timeout ≡ some t) where
    rounds-IsTimeLimit :
        (fuel : ℕ) (a : RetryAttempt) (s : S)
        → a.count ≡ none
        → a.timeout ≡ some t
        → a.start_time + a.elapsed_time ≤ now s
        → t < fuel + a.elapsed_time
        → 0 < fuel
        → Ends (λ x s'. IsTimeLimit t x) (rounds clock r body fuel a s)
    unfolding rounds check_limits
    rounds-IsTimeLimit zero a s c e l h p = absurd (omega arith)
    rounds-IsTimeLimit (suc fuel) a s c e l h p =
        let s' = (body a s).1 in
        ground (
          arith,
          endless a s,
          advances a s,
          pause_elapsed clock now monotone r a s',
          rounds-IsTimeLimit fuel
              (retry_attempt clock r (suc a.number) a.start_time (pause clock r a s').0)
              (pause clock r a s').1,
        )

    -- Without a count, where the body always asks for another round, each run of it takes time and
    -- the clock does not go back, a loop with a timeout `t` ends within `t + 1` rounds, and raises
    -- RetryTimeLimitError at an attempt that began when the timeout was over.
    pub for_attempts-IsTimeLimit :
        (fuel : ℕ) (s : S)
        → t < fuel
        → Ends (λ x s'. IsTimeLimit t x) (for_attempts clock r body fuel s)
    unfolding for_attempts
    for_attempts-IsTimeLimit fuel s h = ground (
      arith,
      monotone.read_before s,
      rounds-IsTimeLimit fuel (retry_attempt clock r 1 (clock.time s).0 0) (clock.time s).1,
    )

  module _ (log : S → List RetryAttempt)
      (logs : (a : RetryAttempt) (s : S) → log (body a s).1 ≡ a ∷ log s)
      (log-time : (s : S) → log (clock.time s).1 ≡ log s)
      (log-sleep : (d : ℕ) (s : S) → log (clock.sleep d s) ≡ log s)
      (no_return : (a : RetryAttempt) (s : S) → now s ≤ now (body a s).1) (c i : ℕ)
      (counted : r.count ≡ some (pos c)) (timeless : r.timeout ≡ none)
      (unslept : r.sleep_time ≡ none) (spaced : r.interval ≡ some i) where
    log-pause : (a : RetryAttempt) (s : S) → log (pause clock r a s).1 ≡ log s
    unfolding pause
    log-pause a s = grind (arith, log-time, log-sleep)

    rounds-on_schedule :
        (fuel : ℕ) (a : RetryAttempt) (s : S)
        → a.count ≡ some (pos c)
        → a.timeout ≡ none
        → a.start_time ≤ now s
        → on_schedule i a ≡ true
        → all_on_schedule i (log s) ≡ true
        → c < fuel + a.number
        → 0 < fuel
        → Ends (λ x s'. all_on_schedule i (log s') ≡ true) (rounds clock r body fuel a s)
    unfolding rounds check_limits
    rounds-on_schedule zero a s e t b o k h p = absurd (omega arith)
    rounds-on_schedule (suc fuel) a s e t b o k h p =
        let s' = (body a s).1 in
        ground (
          arith,
          no_return a s,
          logs a s,
          log-pause a s',
          pause_elapsed clock now monotone r a s',
          pause_interval clock now monotone r a s' i,
          rounds-on_schedule fuel
              (retry_attempt clock r (suc a.number) a.start_time (pause clock r a s').0)
              (pause clock r a s').1,
        )

    -- With a count, an interval `i`, no sleep time and no timeout, the attempt number n of a loop
    -- never begins before (n - 1) * i ticks have passed since the start, and the loop ends.
    pub for_attempts-on_schedule :
        (fuel : ℕ) (s : S)
        → c < fuel
        → log s ≡ []
        → Ends (λ x s'. all_on_schedule i (log s') ≡ true) (for_attempts clock r body fuel s)
    unfolding for_attempts
    for_attempts-on_schedule fuel s h e = ground (
      arith,
      monotone.read_before s,
      log-time s,
      rounds-on_schedule fuel (retry_attempt clock r 1 (clock.time s).0 0) (clock.time s).1,
    )
