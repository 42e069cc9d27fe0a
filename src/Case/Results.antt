-- ===== src/Case/Results.antt =====
-- A result that forwards what it records to the result of the parent test, and the skipped tests.
use tobiko.Prelude.{
  ◌≡◌, refl, ap, ◌∙◌, String, Bool, true, Option, none, some, List, [], ◌∷◌, ◌++◌, arith,
  if◌then◌else◌,
}
use mathlib.Core.List.{append-nil}

-- The calls a test makes of its result: `C` is the type of test cases, `I` of exception infos.
pub data Event (C I : Type 0) : Type 0 where
  start_test : C → Event C I
  stop_test : C → Event C I
  add_error : C → I → Event C I
  add_failure : C → I → Event C I
  add_sub_test : C → C → Option I → Event C I
  add_success : C → Event C I
  add_skip : C → String → Event C I
  add_expected_failure : C → I → Event C I
  add_unexpected_success : C → Event C I

abbrev pub name : {C I : Type 0} → Event C I → String
name (start_test c) = "startTest"
name (stop_test c) = "stopTest"
name (add_error c i) = "addError"
name (add_failure c i) = "addFailure"
name (add_sub_test c s i) = "addSubTest"
name (add_success c) = "addSuccess"
name (add_skip c r) = "addSkip"
name (add_expected_failure c i) = "addExpectedFailure"
name (add_unexpected_success c) = "addUnexpectedSuccess"

-- What the result and the one it forwards to have recorded, in order, and what `hasattr` answers.
pub record ForwardTestResult (C I : Type 0) : Type 0 where
  pub recorded : List (Event C I)
  pub forward : List (Event C I)
  pub has_attr : String → Bool

abbrev reason_matches : (String → String → Bool) → Option String → String → Bool
reason_matches contains none reason = true
reason_matches contains (some skip_reason) reason = contains skip_reason reason

module _ {C I : Type 0} where
  -- The handler of each event: record it, and hand it on if the other result has the method.
  unfoldable pub handle : Event C I → ForwardTestResult C I → ForwardTestResult C I
  handle e r =
      let recorded' = r.recorded ++ (e ∷ []) in
      let forwarded = r.forward ++ (e ∷ []) in
      if r.has_attr (name e)
      then record r { recorded = recorded'; forward = forwarded }
      else record r { recorded = recorded' }

  abbrev pub handle_all : List (Event C I) → ForwardTestResult C I → ForwardTestResult C I
  handle_all [] r = r
  handle_all (e ∷ es) r = handle_all es (handle e r)

  module _ (contains : String → String → Bool) where
    -- `result.skipped` has the test and the reason of each `addSkip`.
    unfoldable pub get_skipped_test_cases : Option String → List (Event C I) → List C
    get_skipped_test_cases skip_reason [] = []
    get_skipped_test_cases skip_reason (add_skip c reason ∷ es) =
        let rest = get_skipped_test_cases skip_reason es in
        if reason_matches contains skip_reason reason then c ∷ rest else rest
    get_skipped_test_cases skip_reason (_ ∷ es) = get_skipped_test_cases skip_reason es

    skipped-append :
        (o : Option String) (xs ys : List (Event C I))
        → get_skipped_test_cases o (xs ++ ys)
          ≡ get_skipped_test_cases o xs ++ get_skipped_test_cases o ys
    unfolding get_skipped_test_cases
    skipped-append o [] ys = refl
    skipped-append o (x ∷ xs) ys = ground (arith, skipped-append o xs ys)

    handle-kept : (e : Event C I) (r : ForwardTestResult C I) → (handle e r).has_attr ≡ r.has_attr
    unfolding handle
    handle-kept e r = ground arith

    handle-skipped :
        (o : Option String) (e : Event C I) (r : ForwardTestResult C I)
        → r.has_attr "addSkip" ≡ true
        → get_skipped_test_cases o r.recorded ≡ get_skipped_test_cases o r.forward
        → get_skipped_test_cases o (handle e r).recorded
          ≡ get_skipped_test_cases o (handle e r).forward
    unfolding handle get_skipped_test_cases
    handle-skipped o e r h k = ground (
      arith,
      skipped-append o r.recorded (e ∷ []),
      skipped-append o r.forward (e ∷ []),
      append-nil (get_skipped_test_cases o r.recorded),
      append-nil (get_skipped_test_cases o r.forward),
    )

    -- If the result of the parent has `addSkip`, then after whatever a test records the tests
    -- skipped for a reason, or for any, are the same in the result and in the parent's if they were so
    -- before.
    pub handle_all-skipped :
        (o : Option String) (es : List (Event C I)) (r : ForwardTestResult C I)
        → r.has_attr "addSkip" ≡ true
        → get_skipped_test_cases o r.recorded ≡ get_skipped_test_cases o r.forward
        → let r' = handle_all es r in
          get_skipped_test_cases o r'.recorded ≡ get_skipped_test_cases o r'.forward
    handle_all-skipped o [] r h k = k
    handle_all-skipped o (e ∷ es) r h k =
        handle_all-skipped o es (handle e r) (ap (λ f. f "addSkip") (handle-kept e r) ∙ h)
          (handle-skipped o e r h k)
