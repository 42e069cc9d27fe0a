-- ===== src/Heat/Examples.antt =====
-- A service where a failed stack is in the way: it is deleted, and a new one is made in its place.
use tobiko.Prelude.{
  ℕ, suc, ◌+◌, ◌≡◌, ◌<◌, refl, String, true, false, Option, none, some, [], ◌∷◌, Result, ok, arith,
}
use tobiko.Retry.Loop.{for_attempts}
use tobiko.Retry.Timing.{IsMonotone}
use tobiko.Heat.{create_in_progress, create_failed, expects, Stack, HeatError, Heat, Config, State}
use tobiko.Heat.Waiting.{get_stack, wait_for_stack_status, wait_until_stack_deleted}
use tobiko.Heat.Creating.{delete_stack, create_stack}
use tobiko.Heat.Safety.{Reaches, wait_for_stack_status-Reaches}
use tobiko.Heat.Created.{IsCreation, create_stack-IsCreation}
use tobiko.Heat.Ending.{IsEnded}
use tobiko.Heat.Completing.{create_stack-IsEnded}

record World : Type 0 where
  now : ℕ
  found : Option Stack

abbrev failed_stack : Stack
failed_stack = record { id = "1"; stack_status = create_failed }

abbrev new_stack : Stack
new_stack = record { id = "2"; stack_status = create_in_progress }

abbrev service : Heat World String
service = record {
  clock = record { time = λ w. (w.now, w); sleep = λ d w. record w { now = w.now + d } };
  get = λ name w. (ok w.found, record w { now = suc w.now });
  create_stack = λ name w. (ok "2", record w { found = some new_stack });
  delete_stack = λ name w. (ok true, record w { found = none });
  get_parameters = λ w. (ok tt, w);
  quotas_are_ok = λ w. (ok true, w);
  prepare_external_resources = λ w. (ok tt, w);
  random_sleep_time = λ w. 1;
}

abbrev config : Config
config = record {
  stack_name = "vm";
  retry_count = 3;
  retry_timeout = 40;
  wait_timeout = 10;
  wait_interval = 2;
}

abbrev before : State World
before = record { stack = none; world = record { now = 0; found = some failed_stack } }

abbrev after : Result (HeatError String) (Option Stack) × State World
after = (
  ok (some new_stack),
  record { stack = some new_stack; world = record { now = 3; found = some new_stack } },
)

created : create_stack service config 20 false none before ≡ after
unfolding create_stack for_attempts wait_for_stack_status get_stack expects delete_stack
    wait_until_stack_deleted
created = refl

monotone : IsMonotone service.clock (λ w. w.now)
monotone = record {
  read_after = λ s. omega arith;
  read_before = λ s. omega arith;
  sleeps = λ d s. omega arith;
}

gets : (name : String) (w : World) → w.now < (service.get name w).1.now
gets name w = omega arith

create_stack-IsCreation_example :
    IsCreation service config 20 (create_stack service config 20 false none before)
create_stack-IsCreation_example = create_stack-IsCreation service config 20 false none before

wait_for_stack_status-Reaches_example :
    Reaches service config
      (create_failed ∷ [])
      (wait_for_stack_status service config 20 (create_failed ∷ []) true true none none before)
wait_for_stack_status-Reaches_example =
    wait_for_stack_status-Reaches service config 20 (create_failed ∷ []) true none none before

create_stack-IsEnded_example : IsEnded (create_stack service config 20 false none before)
create_stack-IsEnded_example =
    create_stack-IsEnded service config (λ w. w.now) monotone gets 20 (omega arith) false none
      before (omega arith) (omega arith)
