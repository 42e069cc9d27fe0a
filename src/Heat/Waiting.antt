-- ===== src/Heat/Waiting.antt =====
-- The waits of a stack fixture. A loop has its variable `cached` beside the state of the fixture.
use tobiko.Prelude.{
  ℕ, Bool, true, false, not, ◌&&◌, ◌||◌, Option, none, some, List, [], ◌∷◌, Result, ok, err,
  if◌then◌else◌,
}
use tobiko.Time.{Seconds}
use tobiko.Retry.{
  times, RetryError, raised, count_limit, time_limit, is_last, time_left, retry, RetryAttempt,
}
use tobiko.Retry.Loop.{Clock, Verdict, finish, again, throw, Body, for_attempts}
use tobiko.Heat.{
  Status, in_progress, same_phase, create_in_progress, create_complete, create_failed,
  delete_in_progress, delete_complete, delete_failed, expects, same_status, Stack, HeatError,
  creation_failed, deletion_failed, invalid_status, stack_not_found, still_present, broken_loop,
  out_of_fuel, Heat, Config, State, M, return, raise, bind, ◌>>◌, call,
}

-- `getattr(stack, 'stack_status', DELETE_COMPLETE)`
abbrev pub status_of : Option Stack → Status
status_of none = delete_complete
status_of (some stack) = stack.stack_status

-- `check_stack_status`
unfoldable pub status_error : {E : Type 0} → Status → List Status → HeatError E
status_error s expected =
    if same_status s create_failed
      && (expects expected create_in_progress || expects expected create_complete)
    then creation_failed s
    else if same_status s delete_failed
        && (expects expected delete_in_progress || expects expected delete_complete)
    then deletion_failed s
    else invalid_status s

unfoldable pub check_stack_status : {W E : Type 0} → Stack → List Status → M W E (Unit {0})
unfolding status_error
check_stack_status stack expected =
    if expects expected stack.stack_status
    then return tt
    else raise (status_error stack.stack_status expected)

-- The end of `wait_for_stack_status`
unfoldable pub checked : {W E : Type 0} → List Status → Bool → Option Stack → M W E (Option Stack)
unfolding check_stack_status
checked expected false stack = return stack
checked expected true none =
    if expects expected delete_complete then return none else raise stack_not_found
checked expected true (some stack) = check_stack_status stack expected >> return (some stack)

-- The clock of a loop that has a variable.
abbrev pub loop_clock : {W : Type 0} → Clock W → Clock (Bool × State W)
loop_clock clock = record {
  time = λ l. let (now, w) = clock.time l.1.world in (now, (l.0, record l.1 { world = w }));
  sleep = λ d l. (l.0, record l.1 { world = clock.sleep d l.1.world });
}

-- What a loop leaves: its generator raises no error of its own where the body ends it before.
abbrev pub ended :
    {W E A : Type 0}
    → State W
    → Option (Result (RetryError (HeatError E)) A × (Bool × State W))
    → Result (HeatError E) A × State W
ended st none = (err out_of_fuel, st)
ended st (some (ok a, (_, st'))) = (ok a, st')
ended st (some (err (raised e), (_, st'))) = (err e, st')
ended st (some (err (count_limit a), (_, st'))) = (err broken_loop, st')
ended st (some (err (time_limit a), (_, st'))) = (err broken_loop, st')

module _ {W E : Type 0} (heat : Heat W E) (config : Config) where
  keep :
      Result (HeatError E) (Option Stack) × State W → Result (HeatError E) (Option Stack) × State W
  keep (ok stack, st) = (ok stack, record st { stack = stack })
  keep (err e, st) = (err e, st)

  -- The attribute follows what the service has by the name.
  unfoldable pub get_stack : M W E (Option Stack)
  unfolding call keep
  get_stack st = keep (call (heat.get config.stack_name) st)

  abbrev pub or_get : Option Stack → M W E (Option Stack)
  or_get (some stack) st = (ok (some stack), st)
  or_get none st = get_stack st

  abbrev pub cached_or_get : Bool → M W E (Option Stack)
  cached_or_get false st = get_stack st
  cached_or_get true st = or_get st.stack st

  unfoldable pub judge :
      List Status
      → RetryAttempt
      → Result (HeatError E) (Option Stack)
      → Verdict (HeatError E) (Option Stack)
  judge expected a (err e) = throw (raised e)
  judge expected a (ok stack) =
      let s = status_of stack in
      if expects expected s
        || not (same_phase s.phase in_progress)
        || is_last {E = HeatError E} none a
      then finish stack
      else again

  unfoldable pub wait_body : List Status → Body (Bool × State W) (HeatError E) (Option Stack)
  unfolding judge
  wait_body expected a (cached, st) =
      let (found, st') = cached_or_get cached st in (judge expected a found, (false, st'))

  module _ (fuel : ℕ) where
    unfoldable pub wait_for_stack_status :
        List Status → (check cached : Bool) → (timeout interval : Seconds) → M W E (Option Stack)
    unfolding wait_body checked
    wait_for_stack_status expected check cached timeout interval st =
        let r =
          retry none (times timeout interval)
            (times (some config.wait_timeout) (some config.wait_interval)) in
        bind (checked expected check)
          (ended st (for_attempts (loop_clock heat.clock) r (wait_body expected) fuel (cached, st)))

    -- `wait_for_delete_complete`, in a round of `wait_until_stack_deleted`
    unfoldable pub gone_or_again :
        RetryAttempt
        → Result (HeatError E) (Option Stack) × State W
        → Verdict (HeatError E) (Unit {0}) × (Bool × State W)
    gone_or_again a (err e, st) = (throw (raised e), (false, st))
    gone_or_again a (ok none, st) = (finish tt, (false, st))
    gone_or_again a (ok (some stack), st) =
        if not (same_status stack.stack_status delete_complete)
        then (throw (raised (deletion_failed stack.stack_status)), (false, st))
        else if is_last {E = HeatError E} none a
        then (throw (raised still_present), (false, st))
        else (again, (false, st))

    unfoldable pub deleted_body : Body (Bool × State W) (HeatError E) (Unit {0})
    unfolding wait_for_stack_status gone_or_again
    deleted_body a (cached, st) =
        gone_or_again a
          (wait_for_stack_status (delete_complete ∷ []) true cached (time_left a) a.interval st)

    unfoldable pub wait_until_stack_deleted : M W E (Unit {0})
    unfolding deleted_body
    wait_until_stack_deleted st =
        let r =
          retry none (times none none)
            (times (some config.wait_timeout) (some config.wait_interval)) in
        ended st (for_attempts (loop_clock heat.clock) r deleted_body fuel (true, st))
