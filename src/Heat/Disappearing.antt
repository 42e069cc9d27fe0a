-- ===== src/Heat/Disappearing.antt =====
-- The wait for a deleted stack to disappear ends, where a call of the service takes time.
use tobiko.Prelude.{
  ℕ, ◌∙◌, ap, ◌+◌, ◌≤◌, ◌<◌, ◌≡◌, refl, inl, inr, String, Bool, true, false, Option, none, some, [],
  ◌∷◌, Result, ok, err, arith, Bool-cases,
}
use tobiko.Retry.{times, RetryAttempt, Retry, retry, time_left, is_last}
use tobiko.Retry.Timing.{IsMonotone}
use tobiko.Retry.Rules.{limited, After}
use tobiko.Heat.{same_status, delete_complete, Stack, HeatError, Heat, Config, State}
use tobiko.Heat.Waiting.{
  wait_for_stack_status, gone_or_again, deleted_body, wait_until_stack_deleted,
}
use tobiko.Heat.Ending.{
  IsEnded, limit, spare, Since, RanSince, EndsAfter, for_attempts-EndsAfter, timeout_of,
  wait_for_stack_status-EndsAfter,
}

module _ {W E : Type 0} (heat : Heat W E) (config : Config) (now : W → ℕ)
    (monotone : IsMonotone heat.clock now)
    (gets : (name : String) (w : W) → now w < now (heat.get name w).1) (fuel : ℕ) where
  gone_or_again-After :
      (t c : ℕ) (a : RetryAttempt) (r : Result (HeatError E) (Option Stack) × State W)
      → EndsAfter heat config now monotone gets t c r
      → After
          (Since heat config now monotone gets t c)
          (RanSince heat config now monotone gets t c)
          a
          (gone_or_again heat config fuel a r)
  unfolding gone_or_again
  gone_or_again-After t c a (err e, st) h = h
  gone_or_again-After t c a (ok none, st) h = (tt, h.1)
  gone_or_again-After t c a (ok (some stack), st) h =
      elim (Bool-cases (same_status stack.stack_status delete_complete)) [
        | inr e ↦ rw e (refl, h.1)
        | inl e ↦ elim (Bool-cases (is_last {E = HeatError E} none a)) [
          | inl l ↦ rw (e, l) (refl, h.1)
          | inr l ↦
              rw (e, l) (omega (arith, h.1), λ x lim. absurd (ground (arith, limited a x none lim)))
        ]
      ]

  gone_or_again_same :
      (a : RetryAttempt) (r : Result (HeatError E) (Option Stack) × State W)
      → (gone_or_again heat config fuel a r).1 ≡ (false, r.1)
  unfolding gone_or_again
  gone_or_again_same a (err e, st) = refl
  gone_or_again_same a (ok none, st) = refl
  gone_or_again_same a (ok (some stack), st) = ground arith

  limit_le : (a : RetryAttempt) (wait : ℕ) → a.timeout ≡ some wait → limit (time_left a) wait ≤ wait
  unfolding time_left
  limit_le a wait h = ground arith

  -- Where a call of the service takes time and no reading goes back, the wait for a stack to
  -- disappear ends, with fuel for as many rounds as `wait_timeout` has ticks, and two more: neither
  -- its loop nor the waits for DELETE_COMPLETE in its rounds are ended by the model's fuel.
  pub wait_until_stack_deleted-IsEnded :
      (st : State W)
      → config.wait_timeout + 1 < fuel
      → IsEnded (wait_until_stack_deleted heat config fuel st)
  unfolding wait_until_stack_deleted deleted_body
  wait_until_stack_deleted-IsEnded st enough =
      (for_attempts-EndsAfter heat config now monotone gets _ config.wait_timeout timed
        (deleted_body heat config fuel) reset takes step fuel true st enough).0
    where
      r : Retry
      r =
          retry none (times none none)
            (times (some config.wait_timeout) (some config.wait_interval))

      timed : r.timeout ≡ some config.wait_timeout
      timed =
          timeout_of heat config now monotone gets none none config.wait_timeout
            config.wait_interval

      round :
          (a : RetryAttempt) (l : Bool × State W)
          → a.timeout ≡ r.timeout
          → EndsAfter heat config now monotone gets (now l.1.world) (spare l) (
              wait_for_stack_status heat config fuel
                (delete_complete ∷ [])
                true
                l.0
                (time_left a)
                a.interval
                l.1)
      round a l i =
          wait_for_stack_status-EndsAfter heat config now monotone gets fuel (delete_complete ∷ [])
            true l.0 (time_left a) a.interval l.1
            (omega (arith, limit_le a config.wait_timeout (i ∙ timed)))

      reset :
          (a : RetryAttempt) (l : Bool × State W) → spare (deleted_body heat config fuel a l).1 ≡ 0
      reset a l = ap spare (gone_or_again_same a _)

      takes :
          (a : RetryAttempt) (l : Bool × State W)
          → a.timeout ≡ r.timeout
          → now l.1.world < now (deleted_body heat config fuel a l).1.1.world + spare l
      takes a l i = rw (gone_or_again_same a _) (round a l i).1

      step :
          (start c : ℕ) (a : RetryAttempt) (l : Bool × State W)
          → a.timeout ≡ r.timeout
          → Since heat config now monotone gets start c l
          → After
              (Since heat config now monotone gets start c)
              (RanSince heat config now monotone gets start c)
              a
              (deleted_body heat config fuel a l)
      step start c a l i h =
          gone_or_again-After start c a _ ((round a l i).0, omega (arith, h, (round a l i).1))
