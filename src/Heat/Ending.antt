-- ===== src/Heat/Ending.antt =====
-- The waits for a stack end: the fuel that is enough, where a call of the service takes time.
use tobiko.Prelude.{
  ℕ, zero, suc, ◌+◌, ◌≤◌, ◌<◌, ◌≡◌, ◌≢◌, refl, inl, inr, String, ◌||◌, not, Bool, true, false,
  Option, none, some, List, Result, ok, err, arith, Bool-cases, Result-cases,
}
use tobiko.Time.{Seconds}
use tobiko.Retry.{
  times, RetryAttempt, RetryError, raised, count_limit, time_limit, Retry, retry, or_else, is_last,
}
use tobiko.Retry.Loop.{Body, pause, wait_time, may_wait, for_attempts}
use tobiko.Retry.Timing.{IsMonotone, pause_passes}
use tobiko.Retry.Rules.{limited, Partial, After, for_attempts_rule, for_attempts-timed}
use tobiko.Heat.{
  Status, in_progress, same_phase, expects, delete_complete, Stack, HeatError, out_of_fuel, Heat,
  Config, State, bind, call,
}
use tobiko.Heat.Waiting.{
  status_of, checked, check_stack_status, status_error, loop_clock, ended, get_stack, or_get,
  cached_or_get, judge, wait_body, wait_for_stack_status,
}

abbrev pub ran_out : {E : Type 0} → HeatError E → Bool
ran_out out_of_fuel = true
ran_out _ = false

-- The result is not that of a loop that was cut off.
abbrev pub IsEnded : {W E A : Type 0} → Result (HeatError E) A × State W → Type 0
IsEnded (ok a, st) = Unit
IsEnded (err e, st) = ran_out e ≡ false

abbrev pub Ran : {E A S : Type 0} → Result (RetryError (HeatError E)) A → S → Type 0
Ran (err (raised e)) l = ran_out e ≡ false
Ran _ l = Unit

-- `timeout or self.wait_timeout`
abbrev pub limit : Seconds → ℕ → ℕ
limit none wait = wait
limit (some zero) wait = wait
limit (some (suc t)) wait = suc t

-- The first round alone may need no call of the service.
abbrev pub spare : {W : Type 0} → Bool × State W → ℕ
spare (false, st) = 0
spare (true, st) = 1

module _ {W E : Type 0} (heat : Heat W E) (config : Config) (now : W → ℕ)
    (monotone : IsMonotone heat.clock now)
    (gets : (name : String) (w : W) → now w < now (heat.get name w).1) where
  abbrev pub time_of : Bool × State W → ℕ
  time_of l = now l.1.world

  pub loop_monotone : IsMonotone (loop_clock heat.clock) time_of
  loop_monotone = record {
    read_after = λ l. monotone.read_after l.1.world;
    read_before = λ l. monotone.read_before l.1.world;
    sleeps = λ d l. monotone.sleeps d l.1.world;
  }

  pub spare_kept :
      (r : Retry) (a : RetryAttempt) (l : Bool × State W)
      → spare (pause (loop_clock heat.clock) r a l).1 ≡ spare l
  unfolding pause wait_time may_wait
  spare_kept r a l = ground arith

  get_stack_takes : (st : State W) → now st.world < now (get_stack heat config st).1.world
  unfolding get_stack call
  get_stack_takes st = elim (Result-cases (heat.get config.stack_name st.world).0) [
    | inl (stack, e) ↦ rw e (gets config.stack_name st.world)
    | inr (x, e) ↦ rw e (gets config.stack_name st.world)
  ]

  -- A round of the wait with the loop variable, which it resets.
  wait_body_takes :
      (expected : List Status) (a : RetryAttempt) (l : Bool × State W)
      → time_of l < time_of (wait_body heat config expected a l).1 + spare l
  unfolding wait_body
  wait_body_takes expected a (false, st) = omega (arith, get_stack_takes st)
  wait_body_takes expected a (true, st) = go st.stack
    where
      go : (o : Option Stack) → now st.world < now (or_get heat config o st).1.world + 1
      go none = omega (arith, get_stack_takes st)
      go (some stack) = omega arith

  -- What the rounds keep of the time `t` at which they began.
  abbrev pub Since : ℕ → ℕ → Bool × State W → Type 0
  Since t c l = t + spare l ≤ time_of l + c

  abbrev pub RanSince :
      {A : Type 0} → ℕ → ℕ → Result (RetryError (HeatError E)) A → Bool × State W → Type 0
  RanSince t c x l = Ran x l × (t < time_of l + c)

  pub paused-Since :
      (t c : ℕ) (r : Retry) (a : RetryAttempt) (l : Bool × State W)
      → Since t c l
      → Since t c (pause (loop_clock heat.clock) r a l).1
  paused-Since t c r a l h =
      omega
        (arith, spare_kept r a l, pause_passes (loop_clock heat.clock) time_of loop_monotone r a l)

  get_stack-IsEnded : (st : State W) → IsEnded (get_stack heat config st)
  unfolding get_stack call
  get_stack-IsEnded st = elim (Result-cases (heat.get config.stack_name st.world).0) [
    | inl (stack, e) ↦ rw e tt
    | inr (x, e) ↦ rw e refl
  ]

  or_get-IsEnded : (o : Option Stack) (st : State W) → IsEnded (or_get heat config o st)
  or_get-IsEnded none st = get_stack-IsEnded st
  or_get-IsEnded (some stack) st = tt

  cached_or_get-IsEnded :
      (cached : Bool) (st : State W) → IsEnded (cached_or_get heat config cached st)
  cached_or_get-IsEnded false st = get_stack-IsEnded st
  cached_or_get-IsEnded true st = or_get-IsEnded st.stack st

  judge-After :
      (t c : ℕ) (expected : List Status) (a : RetryAttempt)
      → (r : Result (HeatError E) (Option Stack) × State W) → IsEnded r
      → t < now r.1.world + c
      → After (Since t c) (RanSince t c) a (judge heat config expected a r.0, (false, r.1))
  unfolding judge
  judge-After t c expected a (err e, st) h l = (h, l)
  judge-After t c expected a (ok stack, st) h l =
      let s = status_of stack in
      let test =
        expects expected s
        || not (same_phase s.phase in_progress)
        || is_last {E = HeatError E} none a in
      elim (Bool-cases test) [
        | inl e ↦ rw e (tt, l)
        | inr e ↦ rw e (omega arith, λ x lim. absurd (ground (arith, limited a x none lim)))
      ]

  wait_body-After :
      (t c : ℕ) (expected : List Status) (a : RetryAttempt) (l : Bool × State W)
      → Since t c l
      → After (Since t c) (RanSince t c) a (wait_body heat config expected a l)
  unfolding wait_body
  wait_body-After t c expected a (cached, st) h =
      judge-After t c expected a (cached_or_get heat config cached st)
        (cached_or_get-IsEnded cached st)
        (omega (arith, h, wait_body_takes expected a (cached, st)))

  -- It ended, and the world has gone on since the time `t`.
  abbrev pub EndsAfter : {A : Type 0} → ℕ → ℕ → Result (HeatError E) A × State W → Type 0
  EndsAfter t c r = IsEnded r × (t < now r.1.world + c)

  ended-EndsAfter :
      {A : Type 0} (t c : ℕ) (st : State W)
      → (o : Option (Result (RetryError (HeatError E)) A × (Bool × State W))) → o ≢ none
      → Partial (RanSince t c) o
      → EndsAfter t c (ended st o)
  ended-EndsAfter t c st none n h = absurd (n refl)
  ended-EndsAfter t c st (some (ok x, (_, st'))) n h = h
  ended-EndsAfter t c st (some (err (raised e), (_, st'))) n h = h
  ended-EndsAfter t c st (some (err (count_limit a), (_, st'))) n h = (refl, h.1)
  ended-EndsAfter t c st (some (err (time_limit a), (_, st'))) n h = (refl, h.1)

  checked-EndsAfter :
      (t c : ℕ) (expected : List Status) (check : Bool)
      → (r : Result (HeatError E) (Option Stack) × State W) → EndsAfter t c r
      → EndsAfter t c (bind (checked expected check) r)
  unfolding checked check_stack_status status_error
  checked-EndsAfter t c expected check (err e, st) h = h
  checked-EndsAfter t c expected false (ok stack, st) h = h
  checked-EndsAfter t c expected true (ok none, st) h =
      elim (Bool-cases (expects expected delete_complete)) [
        | inl e ↦ rw e (tt, h.1)
        | inr e ↦ rw e (refl, h.1)
      ]
  checked-EndsAfter t c expected true (ok (some stack), st) h =
      elim (Bool-cases (expects expected stack.stack_status)) [
        | inl e ↦ rw e (tt, h.1)
        | inr e ↦ rw e (ground arith, h.1)
      ]

  -- The timeout of the loop, from the argument or from the class.
  pub timeout_of :
      (timeout interval : Seconds) (wait pace : ℕ)
      → (retry none (times timeout interval) (times (some wait) (some pace))).timeout
        ≡ some (limit timeout wait)
  unfolding retry or_else
  timeout_of none interval wait pace = refl
  timeout_of (some zero) interval wait pace = refl
  timeout_of (some (suc t)) interval wait pace = refl

  -- A loop of rounds that end, reset the variable and take time.
  module _ {A : Type 0} (r : Retry) (t : ℕ) (timed : r.timeout ≡ some t)
      (body : Body (Bool × State W) (HeatError E) A)
      (reset : (a : RetryAttempt) (l : Bool × State W) → spare (body a l).1 ≡ 0)
      (takes : (a : RetryAttempt) (l : Bool × State W)
        → a.timeout ≡ r.timeout
        → time_of l < time_of (body a l).1 + spare l)
      (step : (start c : ℕ) (a : RetryAttempt) (l : Bool × State W)
        → a.timeout ≡ r.timeout
        → Since start c l
        → After (Since start c) (RanSince start c) a (body a l)) where
    spare_le : (l : Bool × State W) → spare l ≤ 1
    spare_le (false, st) = omega arith
    spare_le (true, st) = omega arith

    pub for_attempts-EndsAfter :
        (fuel : ℕ) (cached : Bool) (st : State W)
        → t + 1 < fuel
        → EndsAfter
            (now st.world)
            (spare (cached, st))
            (ended st (for_attempts (loop_clock heat.clock) r body fuel (cached, st)))
    for_attempts-EndsAfter fuel cached st enough =
        let clock = loop_clock heat.clock in
        let l : Bool × State W = (cached, st) in
        ended-EndsAfter (now st.world) (spare l) st (for_attempts clock r body fuel l)
          (for_attempts-timed clock r body time_of spare loop_monotone
            (λ a l i. omega (arith, takes a l i, reset a l, spare_le l))
            (λ a l i. omega (arith, takes a l i, reset a l)) (spare_kept r) t timed fuel l
            (omega (arith, spare_le (clock.time l).1)))
          (for_attempts_rule clock r body (Since (now st.world) (spare l))
            (RanSince (now st.world) (spare l)) (step (now st.world) (spare l))
            (paused-Since (now st.world) (spare l) r) fuel l (read cached))
      where
        read :
            (c : Bool)
            → Since (now st.world) (spare (c, st)) ((loop_clock heat.clock).time (c, st)).1
        read false = omega (arith, monotone.read_after st.world, monotone.read_before st.world)
        read true = omega (arith, monotone.read_after st.world, monotone.read_before st.world)

  module _ (fuel : ℕ) where
    pub wait_for_stack_status-EndsAfter :
        (expected : List Status) (check cached : Bool) (timeout interval : Seconds) (st : State W)
        → limit timeout config.wait_timeout + 1 < fuel
        → EndsAfter
            (now st.world)
            (spare (cached, st))
            (wait_for_stack_status heat config fuel expected check cached timeout interval st)
    unfolding wait_for_stack_status wait_body
    wait_for_stack_status-EndsAfter expected check cached timeout interval st enough =
        checked-EndsAfter (now st.world) (spare (cached, st)) expected check _ (
          for_attempts-EndsAfter _ _
            (timeout_of timeout interval config.wait_timeout config.wait_interval)
            (wait_body heat config expected) (λ a l. refl) (λ a l _. wait_body_takes expected a l)
            (λ start c a l _ h. wait_body-After start c expected a l h) fuel cached st enough)

    -- Where a call of the service takes time and no reading goes back, a wait for a status ends
    -- within as many rounds as its timeout has ticks, and two more: the model's fuel is not what
    -- ends it.
    pub wait_for_stack_status-IsEnded :
        (expected : List Status) (check cached : Bool) (timeout interval : Seconds) (st : State W)
        → limit timeout config.wait_timeout + 1 < fuel
        → IsEnded (wait_for_stack_status heat config fuel expected check cached timeout interval st)
    wait_for_stack_status-IsEnded expected check cached timeout interval st enough =
        (wait_for_stack_status-EndsAfter expected check cached timeout interval st enough).0
