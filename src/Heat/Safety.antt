-- ===== src/Heat/Safety.antt =====
-- What a wait for a stack shows when it returns.
use tobiko.Prelude.{
  ℕ, ◌≡◌, refl, inl, inr, Bool, true, false, not, ◌||◌, Option, none, some, List, [], ◌∷◌, Result,
  ok, err, arith, Bool-cases, Result-cases,
}
use tobiko.Time.{Seconds}
use tobiko.Retry.{RetryAttempt, RetryError, raised, count_limit, time_limit, is_last, time_left}
use tobiko.Retry.Rules.{Partial, After, for_attempts_rule, limited}
use tobiko.Heat.{
  Status, in_progress, same_phase, delete_complete, expects, same_status, Stack, HeatError,
  is_fault, Heat, Config, State, bind, call,
}
use tobiko.Heat.Waiting.{
  status_of, checked, check_stack_status, status_error, loop_clock, ended, get_stack, or_get,
  cached_or_get, judge, wait_body, wait_for_stack_status, gone_or_again, deleted_body,
  wait_until_stack_deleted,
}

-- The attribute of the fixture is the stack that was found.
abbrev pub IsFollowed : {W E : Type 0} → Result (HeatError E) (Option Stack) × State W → Type 0
IsFollowed (ok stack, st) = st.stack ≡ stack
IsFollowed (err e, st) = is_fault e ≡ false

-- The same of the end of a loop.
abbrev Found :
    {W E : Type 0} → Result (RetryError (HeatError E)) (Option Stack) → Bool × State W → Type 0
Found (ok stack) l = l.1.stack ≡ stack
Found (err (raised e)) l = is_fault e ≡ false
Found (err (count_limit a)) l = ⊥
Found (err (time_limit a)) l = ⊥

abbrev pub Always : {A : Type 0} → A → Type 0
Always a = Unit

module _ {W E : Type 0} (heat : Heat W E) (config : Config) where
  get_stack-IsFollowed : (st : State W) → IsFollowed (get_stack heat config st)
  unfolding get_stack call
  get_stack-IsFollowed st = elim (Result-cases (heat.get config.stack_name st.world).0) [
    | inl (stack, e) ↦ rw e refl
    | inr (x, e) ↦ rw e refl
  ]

  or_get-IsFollowed :
      (o : Option Stack) (st : State W) → st.stack ≡ o → IsFollowed (or_get heat config o st)
  or_get-IsFollowed none st h = get_stack-IsFollowed st
  or_get-IsFollowed (some stack) st h = h

  cached_or_get-IsFollowed :
      (cached : Bool) (st : State W) → IsFollowed (cached_or_get heat config cached st)
  cached_or_get-IsFollowed false st = get_stack-IsFollowed st
  cached_or_get-IsFollowed true st = or_get-IsFollowed st.stack st refl

  judge-After :
      (expected : List Status) (a : RetryAttempt)
      → (r : Result (HeatError E) (Option Stack) × State W) → IsFollowed r
      → After Always Found a (judge heat config expected a r.0, (false, r.1))
  unfolding judge
  judge-After expected a (err e, st) h = h
  judge-After expected a (ok stack, st) h =
      let s = status_of stack in
      let test =
        expects expected s
        || not (same_phase s.phase in_progress)
        || is_last {E = HeatError E} none a in
      elim (Bool-cases test) [
        | inl e ↦ rw e h
        | inr e ↦ rw e (tt, λ x l. absurd (ground (arith, limited a x none l)))
      ]

  wait_body-After :
      (expected : List Status) (a : RetryAttempt) (l : Bool × State W)
      → After Always Found a (wait_body heat config expected a l)
  unfolding wait_body
  wait_body-After expected a (cached, st) =
      judge-After expected a (cached_or_get heat config cached st)
        (cached_or_get-IsFollowed cached st)

  ended-IsFollowed :
      (st : State W)
      → (o : Option (Result (RetryError (HeatError E)) (Option Stack) × (Bool × State W)))
      → Partial Found o
      → IsFollowed (ended st o)
  ended-IsFollowed st none h = refl
  ended-IsFollowed st (some (ok stack, (c, st'))) h = h
  ended-IsFollowed st (some (err (raised e), (c, st'))) h = h
  ended-IsFollowed st (some (err (count_limit a), (c, st'))) h = absurd h
  ended-IsFollowed st (some (err (time_limit a), (c, st'))) h = absurd h

  -- The stack that is returned has an expected status, and the attribute is that stack.
  abbrev pub Reaches : List Status → Result (HeatError E) (Option Stack) × State W → Type 0
  Reaches expected (ok stack, st) = (st.stack ≡ stack) × (expects expected (status_of stack) ≡ true)
  Reaches expected (err e, st) = is_fault e ≡ false

  checked-Reaches :
      (expected : List Status) (r : Result (HeatError E) (Option Stack) × State W)
      → IsFollowed r
      → Reaches expected (bind (checked expected true) r)
  unfolding checked check_stack_status status_error
  checked-Reaches expected (err e, st) h = h
  checked-Reaches expected (ok none, st) h = elim (Bool-cases (expects expected delete_complete)) [
    | inl e ↦ rw e (h, e)
    | inr e ↦ rw e refl
  ]
  checked-Reaches expected (ok (some stack), st) h =
      elim (Bool-cases (expects expected stack.stack_status)) [
        | inl e ↦ rw e (h, e)
        | inr e ↦ rw e (ground arith)
      ]

  module _ (fuel : ℕ) where
    -- A wait with the check that returns, returns a stack of an expected status, or none where
    -- DELETE_COMPLETE is one; the attribute `stack` is what is returned; and what it raises is never
    -- an error of the retry loop itself.
    pub wait_for_stack_status-Reaches :
        (expected : List Status) (cached : Bool) (timeout interval : Seconds) (st : State W)
        → Reaches expected
            (wait_for_stack_status heat config fuel expected true cached timeout interval st)
    unfolding wait_for_stack_status
    wait_for_stack_status-Reaches expected cached timeout interval st = checked-Reaches expected _ (
        ended-IsFollowed st _ (
          for_attempts_rule (loop_clock heat.clock) _ (wait_body heat config expected) Always Found
            (λ a l _ _. wait_body-After expected a l) (λ a l _. tt) fuel (cached, st) tt))

    abbrev Gone : Result (RetryError (HeatError E)) (Unit {0}) → Bool × State W → Type 0
    Gone (ok _) l = l.1.stack ≡ none
    Gone (err (raised e)) l = is_fault e ≡ false
    Gone (err (count_limit a)) l = ⊥
    Gone (err (time_limit a)) l = ⊥

    gone_or_again-After :
        (a : RetryAttempt) (r : Result (HeatError E) (Option Stack) × State W)
        → Reaches (delete_complete ∷ []) r
        → After Always Gone a (gone_or_again heat config fuel a r)
    unfolding gone_or_again
    gone_or_again-After a (err e, st) h = h
    gone_or_again-After a (ok none, st) h = h.0
    gone_or_again-After a (ok (some stack), st) h =
        elim (Bool-cases (same_status stack.stack_status delete_complete)) [
          | inr e ↦ rw e refl
          | inl e ↦ elim (Bool-cases (is_last {E = HeatError E} none a)) [
            | inl l ↦ rw (e, l) refl
            | inr l ↦ rw (e, l) (tt, λ x limit. absurd (ground (arith, limited a x none limit)))
          ]
        ]

    deleted_body-After :
        (a : RetryAttempt) (l : Bool × State W)
        → After Always Gone a (deleted_body heat config fuel a l)
    unfolding deleted_body
    deleted_body-After a (cached, st) =
        gone_or_again-After a _
          (wait_for_stack_status-Reaches (delete_complete ∷ []) cached (time_left a) a.interval st)

    -- The attribute is None.
    abbrev pub IsGone : Result (HeatError E) (Unit {0}) × State W → Type 0
    IsGone (ok _, st) = st.stack ≡ none
    IsGone (err e, st) = is_fault e ≡ false

    ended-IsGone :
        (st : State W)
        (o : Option (Result (RetryError (HeatError E)) (Unit {0}) × (Bool × State W)))
        → Partial Gone o
        → IsGone (ended st o)
    ended-IsGone st none h = refl
    ended-IsGone st (some (ok _, (c, st'))) h = h
    ended-IsGone st (some (err (raised e), (c, st'))) h = h
    ended-IsGone st (some (err (count_limit a), (c, st'))) h = absurd h
    ended-IsGone st (some (err (time_limit a), (c, st'))) h = absurd h

    pub wait_until_stack_deleted-IsGone :
        (st : State W) → IsGone (wait_until_stack_deleted heat config fuel st)
    unfolding wait_until_stack_deleted
    wait_until_stack_deleted-IsGone st = ended-IsGone st _ (
        for_attempts_rule (loop_clock heat.clock) _ (deleted_body heat config fuel) Always Gone
          (λ a l _ _. deleted_body-After a l) (λ a l _. tt) fuel (true, st) tt)
