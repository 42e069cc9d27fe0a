-- ===== src/Heat/Creating.antt =====
-- Creating and deleting a stack. `prevent_create` is the environment's TOBIKO_PREVENT_CREATE.
use tobiko.Prelude.{
  ℕ, String, Bool, true, false, Option, none, some, List, [], ◌∷◌, Result, ok, err, str_eq,
  if◌then◌else◌,
}
use tobiko.Time.{pos}
use tobiko.Retry.{
  RetryError, raised, count_limit, time_limit, is_last, Options, Retry, retry, RetryAttempt,
}
use tobiko.Retry.Loop.{Clock, Verdict, finish, again, throw, Body, for_attempts}
use tobiko.Heat.{
  Status, failed, same_phase, create_in_progress, create_complete, create_failed, delete_complete,
  delete_failed, expects, Stack, HeatError, is_invalid_fixture, quota_error, assertion_error,
  attribute_error, broken_loop, out_of_fuel, service, CreateError, conflict, not_created, Heat,
  Config, State, M, return, raise, ◌>>=◌, ◌>>◌, call,
}
use tobiko.Heat.Waiting.{wait_for_stack_status, wait_until_stack_deleted}

abbrev pub created_status : List Status
created_status = create_in_progress ∷ create_complete ∷ []

abbrev pub state_clock : {W : Type 0} → Clock W → Clock (State W)
state_clock clock = record {
  time = λ st. let (now, w) = clock.time st.world in (now, record st { world = w });
  sleep = λ d st. record st { world = clock.sleep d st.world };
}

module _ {W E : Type 0} (heat : Heat W E) (config : Config) (fuel : ℕ) where
  abbrev pub id_or_name : Option String → String
  id_or_name (some id) = id
  id_or_name none = config.stack_name

  -- The attribute is reset first, so that without an id the name is used.
  unfoldable pub delete_stack : Option String → M W E (Unit {0})
  unfolding call
  delete_stack stack_id st =
      (call (heat.delete_stack (id_or_name stack_id)) >> return tt) (record st { stack = none })

  unfoldable pub validate_created_stack : M W E (Option Stack)
  validate_created_stack = wait_for_stack_status heat config fuel created_status true true none none

  unfoldable pub delete_and_raise : String → HeatError E → M W E (Option Stack)
  delete_and_raise id e = delete_stack (some id) >> raise e

  -- A valid stack with another id makes this one a duplicate.
  unfoldable pub without_duplicate :
      String
      → Result (HeatError E) (Option Stack) × State W
      → Result (HeatError E) (Option Stack) × State W
  unfolding delete_and_raise
  without_duplicate id (err e, st) =
      if is_invalid_fixture e then delete_and_raise id e st else (err e, st)
  without_duplicate id (ok none, st) = (err attribute_error, st)
  without_duplicate id (ok (some stack), st) =
      if str_eq id stack.id
      then (ok (some stack), st)
      else (delete_stack (some id) >> return (some stack)) st

  unfoldable pub submitted :
      Result (CreateError E) String × W → State W → Result (HeatError E) (Option Stack) × State W
  submitted (err conflict, w) st = validate_created_stack (record st { world = w })
  submitted (err (not_created e), w) st = (err (service e), record st { world = w })
  submitted (ok id, w) st = without_duplicate id (validate_created_stack (record st { world = w }))

  unfoldable pub check_quotas : Bool → M W E (Unit {0})
  check_quotas b = if b then return tt else raise quota_error

  unfoldable pub assert_none : Option Stack → M W E (Unit {0})
  assert_none none = return tt
  assert_none (some stack) = raise assertion_error

  unfoldable pub create_new : M W E (Option Stack)
  unfolding call check_quotas assert_none submitted without_duplicate
  create_new = do
    λ st. assert_none st.stack st
    call heat.get_parameters
    quotas ← call heat.quotas_are_ok
    check_quotas quotas
    call heat.prepare_external_resources
    λ st. submitted (heat.create_stack config.stack_name st.world) st

  unfoldable pub delete_if_failed : Stack → M W E (Unit {0})
  delete_if_failed stack =
      if same_phase stack.stack_status.phase failed then delete_stack (some stack.id) else return tt

  unfoldable pub create_or_keep : Option Stack → M W E (Option Stack)
  unfolding create_new delete_if_failed
  create_or_keep none = create_new
  create_or_keep (some stack) =
      if expects created_status stack.stack_status
      then validate_created_stack
      else do delete_if_failed stack; wait_until_stack_deleted heat config fuel; create_new

  unfoldable pub try_create_stack : M W E (Option Stack)
  unfolding create_or_keep
  try_create_stack = do
    let expected =
        create_complete ∷ create_failed ∷ create_in_progress ∷ delete_complete ∷ delete_failed ∷ []
    stack ← wait_for_stack_status heat config fuel expected true true none none
    create_or_keep stack

  unfoldable pub pause_then_again :
      Result (HeatError E) (Unit {0}) × State W → Verdict (HeatError E) (Option Stack) × State W
  pause_then_again (err e, st) = (throw (raised e), st)
  pause_then_again (ok _, st) =
      (again, record st { world = heat.clock.sleep (heat.random_sleep_time st.world) st.world })

  unfoldable pub recover :
      RetryAttempt
      → Result (HeatError E) (Option Stack) × State W
      → Verdict (HeatError E) (Option Stack) × State W
  unfolding pause_then_again
  recover a (ok stack, st) = (finish stack, st)
  recover a (err e, st) =
      if is_invalid_fixture e
      then (if is_last (some e) a
          then (throw (raised e), st)
          else pause_then_again (delete_stack none st))
      else (throw (raised e), st)

  unfoldable pub create_body : Body (State W) (HeatError E) (Option Stack)
  unfolding try_create_stack recover
  create_body a st = recover a (try_create_stack st)

  unfoldable pub ended :
      State W
      → Option (Result (RetryError (HeatError E)) (Option Stack) × State W)
      → Result (HeatError E) (Option Stack) × State W
  ended st none = (err out_of_fuel, st)
  ended st (some (ok stack, st')) = (ok stack, st')
  ended st (some (err (raised e), st')) = (err e, st')
  ended st (some (err (count_limit a), st')) = (err broken_loop, st')
  ended st (some (err (time_limit a), st')) = (err broken_loop, st')

  -- `retry` is None where no other object is given.
  unfoldable pub create_stack : (prevent_create : Bool) → Option Retry → M W E (Option Stack)
  unfolding validate_created_stack create_body ended
  create_stack true other st = validate_created_stack st
  create_stack false other st =
      let given : Options = record {
        count = some (pos config.retry_count);
        timeout = some (pos config.retry_timeout);
        sleep_time = none;
        interval = some (pos 0);
      } in
      let defaults : Options = record {
        count = none;
        timeout = none;
        sleep_time = none;
        interval = none;
      } in
      ended st
        (for_attempts (state_clock heat.clock) (retry other given defaults) create_body fuel st)
