-- ===== src/Heat/Completing.antt =====
-- `create_stack` comes to an end, where a call of the service takes time.
use tobiko.Prelude.{
  ℕ, zero, suc, ◌+◌, ◌<◌, ◌≡◌, ◌≢◌, refl, inl, inr, String, Bool, true, false, Option, none, some,
  [], ◌∷◌, Result, ok, err, str_eq, arith, Bool-cases, Result-cases,
}
use tobiko.Time.{pos}
use tobiko.Retry.{
  RetryAttempt, RetryError, raised, count_limit, time_limit, Retry, retry, or_else, is_last,
  check_limits,
}
use tobiko.Retry.Timing.{IsMonotone}
use tobiko.Retry.Rules.{Partial, After, for_attempts_rule, for_attempts-counted}
use tobiko.Heat.{
  failed, same_phase, create_in_progress, create_complete, create_failed, delete_complete,
  delete_failed, expects, Stack, HeatError, is_invalid_fixture, CreateError, conflict, not_created,
  Heat, Config, State, M, bind, call, return, raise,
}
use tobiko.Heat.Safety.{Always}
use tobiko.Heat.Waiting.{wait_for_stack_status}
use tobiko.Heat.Ending.{ran_out, IsEnded, wait_for_stack_status-IsEnded}
use tobiko.Heat.Disappearing.{wait_until_stack_deleted-IsEnded}
use tobiko.Heat.Creating.{
  created_status, id_or_name, state_clock, delete_stack, validate_created_stack, delete_and_raise,
  without_duplicate, submitted, check_quotas, assert_none, create_new, delete_if_failed,
  create_or_keep, try_create_stack, pause_then_again, recover, create_body, ended, create_stack,
}

bind-IsEnded :
    {W E A B : Type 0} (f : A → M W E B) (r : Result (HeatError E) A × State W)
    → IsEnded r
    → ((a : A) (st : State W) → IsEnded (f a st))
    → IsEnded (bind f r)
bind-IsEnded f (ok a, st) h k = k a st
bind-IsEnded f (err e, st) h k = h

call-IsEnded : {W E A : Type 0} (f : W → Result E A × W) (st : State W) → IsEnded (call f st)
unfolding call
call-IsEnded f st = elim (Result-cases (f st.world).0) [
  | inl (a, e) ↦ rw e tt
  | inr (x, e) ↦ rw e refl
]

module _ {W E : Type 0} (heat : Heat W E) (config : Config) (now : W → ℕ)
    (monotone : IsMonotone heat.clock now)
    (gets : (name : String) (w : W) → now w < now (heat.get name w).1) (fuel : ℕ)
    (enough : config.wait_timeout + 1 < fuel) where
  delete_stack-IsEnded :
      (id : Option String) (st : State W) → IsEnded (delete_stack heat config fuel id st)
  unfolding delete_stack
  delete_stack-IsEnded id st =
      let f = heat.delete_stack (id_or_name heat config fuel id) in
      let reset : State W = record st { stack = none } in
      bind-IsEnded (λ _. return tt) (call f reset) (call-IsEnded f reset) (λ a st'. tt)

  validated : (st : State W) → IsEnded (validate_created_stack heat config fuel st)
  unfolding validate_created_stack
  validated st =
      wait_for_stack_status-IsEnded heat config now monotone gets fuel created_status true true none
        none st enough

  delete_and_raise-IsEnded :
      (id : String) (e : HeatError E) (st : State W)
      → ran_out e ≡ false
      → IsEnded (delete_and_raise heat config fuel id e st)
  unfolding delete_and_raise
  delete_and_raise-IsEnded id e st h =
      bind-IsEnded (λ _. raise e) _ (delete_stack-IsEnded (some id) st) (λ _ _. h)

  without_duplicate-IsEnded :
      (id : String) (r : Result (HeatError E) (Option Stack) × State W)
      → IsEnded r
      → IsEnded (without_duplicate heat config fuel id r)
  unfolding without_duplicate
  without_duplicate-IsEnded id (err e, st) h = elim (Bool-cases (is_invalid_fixture e)) [
    | inl i ↦ rw i (delete_and_raise-IsEnded id e st h)
    | inr i ↦ rw i h
  ]
  without_duplicate-IsEnded id (ok none, st) h = refl
  without_duplicate-IsEnded id (ok (some stack), st) h = elim (Bool-cases (str_eq id stack.id)) [
    | inl i ↦ rw i tt
    | inr i ↦
        rw i (
          bind-IsEnded (λ _. return (some stack)) _ (delete_stack-IsEnded (some id) st) (λ _ _. tt))
  ]

  submitted-IsEnded :
      (r : Result (CreateError E) String × W) (st : State W)
      → IsEnded (submitted heat config fuel r st)
  unfolding submitted
  submitted-IsEnded (err conflict, w) st = validated (record st { world = w })
  submitted-IsEnded (err (not_created e), w) st = refl
  submitted-IsEnded (ok id, w) st =
      without_duplicate-IsEnded id _ (validated (record st { world = w }))

  asserted : (o : Option Stack) (st : State W) → IsEnded (assert_none heat config fuel o st)
  unfolding assert_none
  asserted none st = tt
  asserted (some stack) st = refl

  checked_quotas : (b : Bool) (st : State W) → IsEnded (check_quotas heat config fuel b st)
  unfolding check_quotas
  checked_quotas true st = tt
  checked_quotas false st = refl

  create_new-IsEnded : (st : State W) → IsEnded (create_new heat config fuel st)
  unfolding create_new
  create_new-IsEnded st = bind-IsEnded _ _ (asserted st.stack st) (λ _ st1.
      bind-IsEnded _ _ (call-IsEnded heat.get_parameters st1) (λ _ st2.
        bind-IsEnded _ _ (call-IsEnded heat.quotas_are_ok st2) (λ quotas st3.
          bind-IsEnded _ _ (checked_quotas quotas st3) (λ _ st4.
            bind-IsEnded _ _ (call-IsEnded heat.prepare_external_resources st4)
              (λ _ st5. submitted-IsEnded _ st5)))))

  delete_if_failed-IsEnded :
      (stack : Stack) (st : State W) → IsEnded (delete_if_failed heat config fuel stack st)
  unfolding delete_if_failed
  delete_if_failed-IsEnded stack st =
      elim (Bool-cases (same_phase stack.stack_status.phase failed)) [
        | inl e ↦ rw e (delete_stack-IsEnded (some stack.id) st)
        | inr e ↦ rw e tt
      ]

  create_or_keep-IsEnded :
      (o : Option Stack) (st : State W) → IsEnded (create_or_keep heat config fuel o st)
  unfolding create_or_keep
  create_or_keep-IsEnded none st = create_new-IsEnded st
  create_or_keep-IsEnded (some stack) st =
      elim (Bool-cases (expects created_status stack.stack_status)) [
        | inl e ↦ rw e (validated st)
        | inr e ↦ rw e (
            bind-IsEnded _ _ (delete_if_failed-IsEnded stack st) (λ _ st1.
              bind-IsEnded _ _
                (wait_until_stack_deleted-IsEnded heat config now monotone gets fuel st1 enough)
                (λ _ st2. create_new-IsEnded st2)))
      ]

  try_create_stack-IsEnded : (st : State W) → IsEnded (try_create_stack heat config fuel st)
  unfolding try_create_stack
  try_create_stack-IsEnded st =
      let expected =
        create_complete ∷ create_failed ∷ create_in_progress ∷ delete_complete ∷ delete_failed
        ∷ [] in
      bind-IsEnded (create_or_keep heat config fuel)
        (wait_for_stack_status heat config fuel expected true true none none st)
        (wait_for_stack_status-IsEnded heat config now monotone gets fuel expected true true none
          none st enough)
        create_or_keep-IsEnded

  abbrev Ran : Result (RetryError (HeatError E)) (Option Stack) → State W → Type 0
  Ran (err (raised e)) st = ran_out e ≡ false
  Ran _ st = Unit

  limits-Ran :
      (a : RetryAttempt) (x : RetryError (HeatError E)) (st : State W)
      → check_limits none a ≡ err x
      → Ran (err x) st
  unfolding check_limits
  limits-Ran a (count_limit b) st h = tt
  limits-Ran a (time_limit b) st h = tt
  limits-Ran a (raised e) st h = absurd (ground arith)

  pause_then_again-After :
      (a : RetryAttempt) (r : Result (HeatError E) (Unit {0}) × State W)
      → IsEnded r
      → After Always Ran a (pause_then_again heat config fuel r)
  unfolding pause_then_again
  pause_then_again-After a (err e, st) h = h
  pause_then_again-After a (ok _, st) h = (tt, λ x lim. limits-Ran a x _ lim)

  recover-After :
      (a : RetryAttempt) (r : Result (HeatError E) (Option Stack) × State W)
      → IsEnded r
      → After Always Ran a (recover heat config fuel a r)
  unfolding recover
  recover-After a (ok stack, st) h = tt
  recover-After a (err e, st) h = elim (Bool-cases (is_invalid_fixture e)) [
    | inr i ↦ rw i h
    | inl i ↦ elim (Bool-cases (is_last (some e) a)) [
      | inl l ↦ rw (i, l) h
      | inr l ↦ rw (i, l) (pause_then_again-After a _ (delete_stack-IsEnded none st))
    ]
  ]

  ended-IsEnded :
      (st : State W) (o : Option (Result (RetryError (HeatError E)) (Option Stack) × State W))
      → o ≢ none
      → Partial Ran o
      → IsEnded (ended heat config fuel st o)
  unfolding ended
  ended-IsEnded st none n h = absurd (n refl)
  ended-IsEnded st (some (ok stack, st')) n h = tt
  ended-IsEnded st (some (err (raised e), st')) n h = h
  ended-IsEnded st (some (err (count_limit a), st')) n h = refl
  ended-IsEnded st (some (err (time_limit a), st')) n h = refl

  count_given :
      (other : Option Retry) (count : ℕ)
      → 0 < count
      → (retry other
          (record {
            count = some (pos count);
            timeout = some (pos config.retry_timeout);
            sleep_time = none;
            interval = some (pos 0);
          })
          (record { count = none; timeout = none; sleep_time = none; interval = none })).count
        ≡ some (pos count)
  unfolding retry or_else
  count_given other zero h = absurd (omega arith)
  count_given none (suc c) h = refl
  count_given (some r) (suc c) h = refl

  -- Where a call of the service takes time and no reading goes back, `create_stack` ends, with fuel
  -- for `retry_count` rounds of its loop, if that is not 0, and for the waits in each round: no loop
  -- of it is ended by the model's fuel.
  pub create_stack-IsEnded :
      (prevent_create : Bool) (other : Option Retry) (st : State W)
      → 0 < config.retry_count
      → config.retry_count < fuel
      → IsEnded (create_stack heat config fuel prevent_create other st)
  unfolding create_stack create_body
  create_stack-IsEnded true other st positive counts = validated st
  create_stack-IsEnded false other st positive counts =
      ended-IsEnded st _
        (for_attempts-counted (state_clock heat.clock) _ (create_body heat config fuel)
          config.retry_count (count_given other config.retry_count positive) fuel st counts)
        (for_attempts_rule (state_clock heat.clock) _ (create_body heat config fuel) Always Ran
          (λ a s _ _.
            recover-After a (try_create_stack heat config fuel s) (try_create_stack-IsEnded s))
          (λ a s _. tt) fuel st tt)
