-- ===== src/Heat/Created.antt =====
-- Which stacks `create_stack` returns, and which errors never leave it.
use tobiko.Prelude.{
  ℕ, ◌≡◌, refl, Bool, true, false, Option, none, some, List, [], ◌∷◌, Result, ok, err, arith,
  Bool-cases, inl, inr,
}
use tobiko.Retry.{
  RetryAttempt, RetryError, raised, count_limit, time_limit, is_last, check_limits, Retry,
}
use tobiko.Retry.Rules.{limited, Partial, After, for_attempts_rule}
use tobiko.Heat.{
  failed, same_phase, create_in_progress, create_complete, create_failed, delete_complete,
  delete_failed, expects, Stack, Status, HeatError, is_fault, is_invalid_fixture, Heat, Config,
  State,
}
use tobiko.Heat.Waiting.{wait_for_stack_status, wait_until_stack_deleted}
use tobiko.Heat.Safety.{
  Reaches, IsGone, Always, wait_for_stack_status-Reaches, wait_until_stack_deleted-IsGone,
}
use tobiko.Heat.Submitting.{
  Ensures, returns, raises, Reset, IsCreated, bind_rule, delete_stack-Ensures, validate-Ensures,
  create_new-Ensures,
}
use tobiko.Heat.Creating.{
  created_status, state_clock, delete_stack, delete_if_failed, create_or_keep, try_create_stack,
  pause_then_again, recover, create_body, ended, create_stack,
}

weaken :
    {W E A : Type 0} {Post : A → State W → Type 0} (r : Result (HeatError E) A × State W)
    → Ensures Post r
    → Ensures (λ _ _. Unit {0}) r
weaken _ (returns h) = returns tt
weaken _ (raises h) = raises h

module _ {W E : Type 0} (heat : Heat W E) (config : Config) (fuel : ℕ) where
  deleted_if_failed :
      (stack : Stack) (st : State W)
      → Ensures (λ _ _. Unit) (delete_if_failed heat config fuel stack st)
  unfolding delete_if_failed
  deleted_if_failed stack st = elim (Bool-cases (same_phase stack.stack_status.phase failed)) [
    | inl e ↦ rw e (
        weaken (delete_stack heat config fuel (some stack.id) st)
          (delete_stack-Ensures heat config fuel (some stack.id) st))
    | inr e ↦ rw e (returns tt)
  ]

  until_gone : (st : State W) → Ensures Reset (wait_until_stack_deleted heat config fuel st)
  until_gone st = convert _ (wait_until_stack_deleted-IsGone heat config fuel st)
    where
      convert :
          (r : Result (HeatError E) (Unit {0}) × State W)
          → IsGone heat config fuel r
          → Ensures Reset r
      convert (err e, st') h = raises h
      convert (ok _, st') h = returns h

  create_or_keep-Ensures :
      (o : Option Stack) (st : State W)
      → st.stack ≡ o
      → Ensures IsCreated (create_or_keep heat config fuel o st)
  unfolding create_or_keep
  create_or_keep-Ensures none st h = create_new-Ensures heat config fuel st h
  create_or_keep-Ensures (some stack) st h =
      elim (Bool-cases (expects created_status stack.stack_status)) [
        | inl e ↦ rw e (validate-Ensures heat config fuel st)
        | inr e ↦ rw e (
            bind_rule (λ _ _. Unit) IsCreated _ _ (deleted_if_failed stack st)
              (λ _ st1 _.
                bind_rule Reset IsCreated _ _ (until_gone st1)
                  (λ _ st2 g. create_new-Ensures heat config fuel st2 g)))
      ]

  try_create_stack-Ensures :
      (st : State W) → Ensures IsCreated (try_create_stack heat config fuel st)
  unfolding try_create_stack
  try_create_stack-Ensures st =
      let expected =
        create_complete ∷ create_failed ∷ create_in_progress ∷ delete_complete ∷ delete_failed
        ∷ [] in
      let r = wait_for_stack_status heat config fuel expected true true none none st in
      bind_rule (λ o st'. st'.stack ≡ o) IsCreated (create_or_keep heat config fuel) r
        (convert expected r
          (wait_for_stack_status-Reaches heat config fuel expected true none none st))
        create_or_keep-Ensures
    where
      convert :
          (expected : List Status) (r : Result (HeatError E) (Option Stack) × State W)
          → Reaches heat config expected r
          → Ensures (λ o st'. st'.stack ≡ o) r
      convert expected (err e, st') h = raises h
      convert expected (ok stack, st') h = returns h.0

  -- The end of the loop.
  abbrev Created : Result (RetryError (HeatError E)) (Option Stack) → State W → Type 0
  Created (ok stack) st = IsCreated stack st
  Created (err (raised e)) st = is_fault e ≡ false
  Created (err (count_limit a)) st = ⊥
  Created (err (time_limit a)) st = ⊥

  pause_then_again-After :
      (a : RetryAttempt) (r : Result (HeatError E) (Unit {0}) × State W)
      → is_last {E = HeatError E} none a ≡ false
      → Ensures Reset r
      → After Always Created a (pause_then_again heat config fuel r)
  unfolding pause_then_again
  pause_then_again-After a (err e, st) l (raises h) = h
  pause_then_again-After a (ok _, st) l h =
      (tt, λ x limit. absurd (ground (arith, limited a x none limit)))

  not_last :
      (a : RetryAttempt) (e : HeatError E)
      → is_last (some e) a ≡ false
      → is_last {E = HeatError E} none a ≡ false
  unfolding is_last check_limits
  not_last a e l = ground (arith, l)

  recover-After :
      (a : RetryAttempt) (r : Result (HeatError E) (Option Stack) × State W)
      → Ensures IsCreated r
      → After Always Created a (recover heat config fuel a r)
  unfolding recover
  recover-After a (ok stack, st) (returns h) = h
  recover-After a (err e, st) (raises h) = elim (Bool-cases (is_invalid_fixture e)) [
    | inr i ↦ rw i h
    | inl i ↦ elim (Bool-cases (is_last (some e) a)) [
      | inl l ↦ rw (i, l) h
      | inr l ↦
          rw (i, l)
            (pause_then_again-After a _ (not_last a e l)
              (delete_stack-Ensures heat config fuel none st))
    ]
  ]

  -- A stack that is returned is being created or was; an error is not a fault of the code.
  abbrev pub IsCreation : Result (HeatError E) (Option Stack) × State W → Type 0
  IsCreation (ok none, st) = ⊥
  IsCreation (ok (some stack), st) = expects created_status stack.stack_status ≡ true
  IsCreation (err e, st) = is_fault e ≡ false

  ended-IsCreation :
      (st : State W) (o : Option (Result (RetryError (HeatError E)) (Option Stack) × State W))
      → Partial Created o
      → IsCreation (ended heat config fuel st o)
  unfolding ended
  ended-IsCreation st none h = refl
  ended-IsCreation st (some (ok none, st')) h = h
  ended-IsCreation st (some (ok (some stack), st')) h = h
  ended-IsCreation st (some (err (raised e), st')) h = h
  ended-IsCreation st (some (err (count_limit a), st')) h = absurd h
  ended-IsCreation st (some (err (time_limit a), st')) h = absurd h

  -- `create_stack` returns no None, and only a stack in CREATE_IN_PROGRESS or CREATE_COMPLETE; the
  -- error that it raises is never the failed assertion that `self.stack` is None, never that of an
  -- attribute of None, and never that of a retry loop that ends without a result.
  pub create_stack-IsCreation :
      (prevent_create : Bool) (other : Option Retry) (st : State W)
      → IsCreation (create_stack heat config fuel prevent_create other st)
  unfolding create_stack create_body
  create_stack-IsCreation true other st = convert _ (validate-Ensures heat config fuel st)
    where
      convert :
          (r : Result (HeatError E) (Option Stack) × State W) → Ensures IsCreated r → IsCreation r
      convert (err e, st') (raises h) = h
      convert (ok none, st') (returns h) = h
      convert (ok (some stack), st') (returns h) = h
  create_stack-IsCreation false other st = ended-IsCreation st _ (
      for_attempts_rule (state_clock heat.clock) _ (create_body heat config fuel) Always Created
        (λ a s _ _.
          recover-After a (try_create_stack heat config fuel s) (try_create_stack-Ensures s))
        (λ a s _. tt) fuel st tt)
