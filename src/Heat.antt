-- ===== src/Heat.antt =====
-- tobiko/openstack/heat/_stack.py: stacks of the Heat service, and the waits for their status.
-- The service is a parameter, on a state of the world `W`; so are the clock and the random pause.
pub mod Waiting
pub mod Creating
pub mod Safety
pub mod Submitting
pub mod Created
pub mod Ending
pub mod Disappearing
pub mod Completing
mod Examples
use Prim.Native.Nat.{◌*◌}
use tobiko.Prelude.{
  ℕ, String, Bool, true, false, not, ◌&&◌, ◌||◌, Option, none, some, List, [], ◌∷◌, Result, ok, err,
  str_eq, if◌then◌else◌,
}
use tobiko.Time.{ℤ, pos}
use tobiko.Retry.{RetryError, raised, is_last, Options, Retry, retry, RetryAttempt}
use tobiko.Retry.Loop.{Clock, Verdict, finish, again, throw, Body, for_attempts}

-- A status is the text of an action and a phase, as in CREATE_IN_PROGRESS.
pub data Action : Type 0 where
  init create delete : Action
  other : String → Action

pub data Phase : Type 0 where
  in_progress complete failed : Phase

pub record Status : Type 0 where
  pub action : Action
  pub phase : Phase

abbrev pub create_in_progress : Status
create_in_progress = record { action = create; phase = in_progress }

abbrev pub create_complete : Status
create_complete = record { action = create; phase = complete }

abbrev pub create_failed : Status
create_failed = record { action = create; phase = failed }

abbrev pub delete_in_progress : Status
delete_in_progress = record { action = delete; phase = in_progress }

abbrev pub delete_complete : Status
delete_complete = record { action = delete; phase = complete }

abbrev pub delete_failed : Status
delete_failed = record { action = delete; phase = failed }

abbrev same_action : Action → Action → Bool
same_action init init = true
same_action create create = true
same_action delete delete = true
same_action (other s) (other t) = str_eq s t
same_action _ _ = false

abbrev pub same_phase : Phase → Phase → Bool
same_phase in_progress in_progress = true
same_phase complete complete = true
same_phase failed failed = true
same_phase _ _ = false

abbrev pub same_status : Status → Status → Bool
same_status s t = same_action s.action t.action && same_phase s.phase t.phase

-- `status in expected_status`
unfoldable pub expects : List Status → Status → Bool
expects [] s = false
expects (t ∷ ts) s = same_status t s || expects ts s

pub record Stack : Type 0 where
  pub id : String
  pub stack_status : Status

pub data HeatError (E : Type 0) : Type 0 where
  -- InvalidFixtureError and its subclasses
  creation_failed : Status → HeatError E
  deletion_failed : Status → HeatError E
  invalid_status : Status → HeatError E
  quota_error : HeatError E
  -- the others
  stack_not_found : HeatError E
  still_present : HeatError E
  -- faults of the code: the assertion, a stack that is None, an error of a loop itself
  assertion_error : HeatError E
  attribute_error : HeatError E
  broken_loop : HeatError E
  service : E → HeatError E
  -- a loop that did not end within the fuel
  out_of_fuel : HeatError E

abbrev pub is_invalid_fixture : {E : Type 0} → HeatError E → Bool
is_invalid_fixture (creation_failed s) = true
is_invalid_fixture (deletion_failed s) = true
is_invalid_fixture (invalid_status s) = true
is_invalid_fixture quota_error = true
is_invalid_fixture _ = false

abbrev pub is_fault : {E : Type 0} → HeatError E → Bool
is_fault assertion_error = true
is_fault attribute_error = true
is_fault broken_loop = true
is_fault _ = false

-- What `stacks.create` raises.
pub data CreateError (E : Type 0) : Type 0 where
  conflict : CreateError E
  not_created : E → CreateError E

-- The calls of the service and of the hooks of a fixture, each by the name or the id of a stack.
pub record Heat (W E : Type 0) : Type 0 where
  pub clock : Clock W
  pub get : String → W → Result E (Option Stack) × W
  pub create_stack : String → W → Result (CreateError E) String × W
  -- true if there was one to delete
  pub delete_stack : String → W → Result E Bool × W
  pub get_parameters : W → Result E (Unit {0}) × W
  pub quotas_are_ok : W → Result E Bool × W
  pub prepare_external_resources : W → Result E (Unit {0}) × W
  pub random_sleep_time : W → ℕ

-- The attributes of the class, in ticks.
pub record Config : Type 0 where
  pub stack_name : String
  pub retry_count : ℕ
  pub retry_timeout : ℕ
  pub wait_timeout : ℕ
  pub wait_interval : ℕ

-- The attribute `stack`, and the world.
pub record State (W : Type 0) : Type 0 where
  pub stack : Option Stack
  pub world : W

abbrev pub M : Type 0 → Type 0 → Type 0 → Type 0
M W E A = State W → Result (HeatError E) A × State W

abbrev pub raise : {W E A : Type 0} → HeatError E → M W E A
raise e st = (err e, st)

abbrev pub return : {W E A : Type 0} → A → M W E A
return a st = (ok a, st)

abbrev pub bind :
    {W E A B : Type 0}
    → (A → M W E B)
    → Result (HeatError E) A × State W
    → Result (HeatError E) B × State W
bind f (ok a, st) = f a st
bind f (err e, st) = (err e, st)

infixl 5 ◌>>=◌ ◌>>◌
abbrev pub ◌>>=◌ : {W E A B : Type 0} → M W E A → (A → M W E B) → M W E B
◌>>=◌ m f st = bind f (m st)

abbrev pub ◌>>◌ : {W E A B : Type 0} → M W E A → M W E B → M W E B
m >> k = m >>= λ _. k

abbrev answer : {W E A : Type 0} → Result E A × W → State W → Result (HeatError E) A × State W
answer (ok a, w) st = (ok a, record st { world = w })
answer (err e, w) st = (err (service e), record st { world = w })

-- A call that leaves the attributes alone.
unfoldable pub call : {W E A : Type 0} → (W → Result E A × W) → M W E A
call f st = answer (f st.world) st
