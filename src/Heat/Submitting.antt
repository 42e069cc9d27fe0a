-- ===== src/Heat/Submitting.antt =====
-- The steps of a creation up to the new stack: what each one ensures of its value or its error.
use tobiko.Prelude.{
  ℕ, ◌≡◌, refl, String, Bool, true, false, Option, none, some, Result, ok, err, arith, str_eq,
  Bool-cases, Result-cases, inl, inr,
}
use tobiko.Heat.{
  expects, Stack, HeatError, is_fault, is_invalid_fixture, CreateError, conflict, not_created, Heat,
  Config, State, M, bind, call, return, raise,
}
use tobiko.Heat.Safety.{Reaches, wait_for_stack_status-Reaches}
use tobiko.Heat.Creating.{
  created_status, id_or_name, delete_stack, validate_created_stack, delete_and_raise,
  without_duplicate, submitted, check_quotas, assert_none, create_new,
}

-- What holds of a value that is returned and its state; and nothing raised is a fault.
pub data Ensures {W E A : Type 0} (Post : A → State W → Type 0)
    : Result (HeatError E) A × State W → Type 0 where
  returns : {a : A} {st : State W} → Post a st → Ensures Post (ok a, st)
  raises : {e : HeatError E} {st : State W} → is_fault e ≡ false → Ensures Post (err e, st)

-- A stack that is being created, or was.
abbrev pub IsCreated : {W : Type 0} → Option Stack → State W → Type 0
IsCreated none st = ⊥
IsCreated (some stack) st = expects created_status stack.stack_status ≡ true

abbrev pub Reset : {W A : Type 0} → A → State W → Type 0
Reset a st = st.stack ≡ none

pub bind_rule :
    {W E A B : Type 0} (Before : A → State W → Type 0) (Post : B → State W → Type 0)
    → (f : A → M W E B) (r : Result (HeatError E) A × State W) → Ensures Before r
    → ((a : A) (st : State W) → Before a st → Ensures Post (f a st))
    → Ensures Post (bind f r)
bind_rule Before Post f _ (returns h) k = k _ _ h
bind_rule Before Post f _ (raises h) k = raises h

module _ {W E : Type 0} (heat : Heat W E) (config : Config) (fuel : ℕ) where
  -- A call of the service raises no fault, and leaves the attribute alone.
  call-Ensures :
      {A : Type 0} (f : W → Result E A × W) (st : State W)
      → Ensures (λ a st'. st'.stack ≡ st.stack) (call f st)
  unfolding call
  call-Ensures f st = elim (Result-cases (f st.world).0) [
    | inl (a, e) ↦ rw e (returns refl)
    | inr (x, e) ↦ rw e (raises refl)
  ]

  pub delete_stack-Ensures :
      (id : Option String) (st : State W) → Ensures Reset (delete_stack heat config fuel id st)
  unfolding delete_stack
  delete_stack-Ensures id st =
      let f = heat.delete_stack (id_or_name heat config fuel id) in
      let reset : State W = record st { stack = none } in
      bind_rule Reset Reset (λ _. return tt) (call f reset) (call-Ensures f reset)
        (λ a st' h. returns h)

  pub validate-Ensures :
      (st : State W) → Ensures IsCreated (validate_created_stack heat config fuel st)
  unfolding validate_created_stack expects
  validate-Ensures st =
      convert _ (wait_for_stack_status-Reaches heat config fuel created_status true none none st)
    where
      convert :
          (r : Result (HeatError E) (Option Stack) × State W)
          → Reaches heat config created_status r
          → Ensures IsCreated r
      convert (err e, st') h = raises h
      convert (ok none, st') h = absurd (ground (arith, h.1))
      convert (ok (some stack), st') h = returns h.1

  delete_and_raise-Ensures :
      (id : String) (e : HeatError E) (st : State W)
      → is_fault e ≡ false
      → Ensures IsCreated (delete_and_raise heat config fuel id e st)
  unfolding delete_and_raise
  delete_and_raise-Ensures id e st h =
      bind_rule Reset IsCreated (λ _. raise e) _ (delete_stack-Ensures (some id) st)
        (λ a st' _. raises h)

  without_duplicate-Ensures :
      (id : String) (r : Result (HeatError E) (Option Stack) × State W)
      → Ensures IsCreated r
      → Ensures IsCreated (without_duplicate heat config fuel id r)
  unfolding without_duplicate
  without_duplicate-Ensures id (err e, st) (raises h) = elim (Bool-cases (is_invalid_fixture e)) [
    | inl i ↦ rw i (delete_and_raise-Ensures id e st h)
    | inr i ↦ rw i (raises h)
  ]
  without_duplicate-Ensures id (ok none, st) (returns h) = absurd h
  without_duplicate-Ensures id (ok (some stack), st) (returns h) =
      elim (Bool-cases (str_eq id stack.id)) [
        | inl i ↦ rw i (returns h)
        | inr i ↦ rw i (
            bind_rule Reset IsCreated (λ _. return (some stack)) _
              (delete_stack-Ensures (some id) st) (λ a st' _. returns h))
      ]

  submitted-Ensures :
      (r : Result (CreateError E) String × W) (st : State W)
      → Ensures IsCreated (submitted heat config fuel r st)
  unfolding submitted
  submitted-Ensures (err conflict, w) st = validate-Ensures (record st { world = w })
  submitted-Ensures (err (not_created e), w) st = raises refl
  submitted-Ensures (ok id, w) st =
      without_duplicate-Ensures id _ (validate-Ensures (record st { world = w }))

  asserted :
      (o : Option Stack) (st : State W)
      → o ≡ none
      → Ensures (λ _ _. Unit) (assert_none heat config fuel o st)
  unfolding assert_none
  asserted none st h = returns tt
  asserted (some stack) st h = absurd (ground arith)

  checked_quotas :
      (b : Bool) (st : State W) → Ensures (λ _ _. Unit) (check_quotas heat config fuel b st)
  unfolding check_quotas
  checked_quotas true st = returns tt
  checked_quotas false st = raises refl

  -- Behind the assertion, which holds where the attribute is None.
  pub create_new-Ensures :
      (st : State W) → st.stack ≡ none → Ensures IsCreated (create_new heat config fuel st)
  unfolding create_new
  create_new-Ensures st h =
      bind_rule (λ _ _. Unit) IsCreated _ _ (asserted st.stack st h)
        (λ _ st1 _. bind_rule _ IsCreated _ _ (call-Ensures heat.get_parameters st1) (λ _ st2 _.
          bind_rule _ IsCreated _ _ (call-Ensures heat.quotas_are_ok st2) (λ quotas st3 _.
            bind_rule (λ _ _. Unit) IsCreated _ _ (checked_quotas quotas st3)
              (λ _ st4 _.
                bind_rule _ IsCreated _ _ (call-Ensures heat.prepare_external_resources st4)
                  (λ _ st5 _. submitted-Ensures _ st5)))))
