-- ===== src/Fixture/Setup.antt =====
-- `setup_fixture` of tobiko/common/_fixture.py, with its alternative fixture.
-- `get` is `get_fixture` and `set_up` the `setUp` method of a fixture, both on the state of the
-- program. `fresh` is the key of the MultipleExceptions that the function makes.
use tobiko.Prelude.{ℕ, Option, none, some, List, [], ◌∷◌, ◌≡◌, refl, Result, ok, err, arith}
use tobiko.Exceptions.{Exc, plain, multiple, Args, nil, cons, handle_multiple_exceptions}
use tobiko.Exceptions.Walk.{IsPlain, IsSingle, handle_multiple_exceptions_lem}

abbrev pub snoc : Args → Exc → Args
snoc nil e = cons e nil
snoc (cons x args) e = cons x (snoc args e)

module _ {S T : Type 0} (get : T → S → Result Exc ℕ × S)
    (set_up : ℕ → S → Result Exc (Unit {0}) × S) (fresh : ℕ) where
  -- How the loop over the fixtures left the block, the variable `fixture`, and the state.
  abbrev Left : Type 0
  Left = Result Exc (Unit {0}) × Option ℕ × S

  unfoldable pub set_up_first : List T → Args → Option ℕ → S → Left
  set_up_first [] errors fixture s = (err (multiple fresh errors), fixture, s)
  set_up_first (obj ∷ objs) errors fixture s =
      let (found, s') = get obj s in
      elim found [
        | err e ↦ (err e, fixture, s')
        | ok f ↦
            let (done, s'') = set_up f s' in
            elim done [
              | ok _ ↦ (ok tt, some f, s'')
              | err e ↦
                  let rest = set_up_first objs (snoc errors e) (some f) s'' in
                  elim e [ plain k ↦ (err (plain k), some f, s'') | multiple k args ↦ rest ]
            ]
      ]

  objs_of : T → Option T → List T
  objs_of obj none = obj ∷ []
  objs_of obj (some alternative) = obj ∷ alternative ∷ []

  -- The fixture that is returned, or the exception that leaves `handle_multiple_exceptions`.
  abbrev pub returned : Result Exc (Unit {0}) → Option ℕ → Result Exc (Option ℕ)
  returned (ok _) fixture = ok fixture
  returned (err e) fixture = err e

  pub conclude :
      Option (Result Exc (Unit {0}) × List Exc)
      → Option ℕ
      → S
      → Option (Result Exc (Option ℕ) × List Exc × S)
  conclude none fixture s = none
  conclude (some (x, handled)) fixture s = some (returned x fixture, handled, s)

  -- With what it returns or raises come the exceptions that were logged, and the state.
  unfoldable pub setup_fixture : T → Option T → S → Option (Result Exc (Option ℕ) × List Exc × S)
  unfolding set_up_first objs_of conclude
  setup_fixture obj alternative s =
      let (x, fixture, s') = set_up_first (objs_of obj alternative) nil none s in
      conclude (handle_multiple_exceptions x) fixture s'

  -- The value that leaves is no MultipleExceptions.
  abbrev pub IsOne : Result Exc (Option ℕ) → Type 0
  IsOne (ok f) = Unit
  IsOne (err e) = IsPlain e

  IsOne-returned : (x : Result Exc (Unit {0})) (f : Option ℕ) → IsSingle x → IsOne (returned x f)
  IsOne-returned (ok x) f h = tt
  IsOne-returned (err e) f h = h

  handled-IsSingle :
      (x : Result Exc (Unit {0}))
      → (y : Result Exc (Unit {0})) × (handled : List Exc) × (handle_multiple_exceptions x
          ≡ some (y, handled))
        × IsSingle y
  unfolding handle_multiple_exceptions
  handled-IsSingle (ok x) = (ok x, [], refl, tt)
  handled-IsSingle (err (plain k)) = (err (plain k), [], refl, tt)
  handled-IsSingle (err (multiple k args)) =
      let (y, handled, e, single, _) = handle_multiple_exceptions_lem k args in
      (y, handled, e, single)

  -- Setting a fixture up always ends, and it never raises a MultipleExceptions.
  pub setup_fixture_single :
      (obj : T) (alternative : Option T) (s : S)
      → (x : Result Exc (Option ℕ)) × (handled : List Exc) × (s' : S) × (setup_fixture obj
            alternative s
          ≡ some (x, handled, s'))
        × IsOne x
  unfolding setup_fixture
  setup_fixture_single obj alternative s =
      let (x, fixture, s') = set_up_first (objs_of obj alternative) nil none s in
      let (y, handled, e, single) = handled-IsSingle x in
      (returned y fixture, handled, s', rw (e, conclude), IsOne-returned y fixture single)

  module _ (obj : T) (alternative : Option T) (s : S) (f : ℕ) (found : (get obj s).0 ≡ ok f) where
    -- Where the first fixture is set up, or raises another exception than a MultipleExceptions,
    -- that is the outcome, and the alternative is neither looked for nor set up.
    pub setup_fixture_first :
        let s' = (get obj s).1 in
        let (done, s'') = set_up f s' in
        (done ≡ ok tt → setup_fixture obj alternative s ≡ some (ok (some f), [], s''))
        × ((k : ℕ)
            → done ≡ err (plain k)
            → setup_fixture obj alternative s ≡ some (err (plain k), [], s''))
    unfolding setup_fixture handle_multiple_exceptions
    setup_fixture_first = (λ h. ground arith, λ k h. ground arith)

  -- Where the first fixture raises a MultipleExceptions the alternative is set up, and is what is
  -- returned. If it raises a MultipleExceptions too, the outcome is what handling both in one gives,
  -- the exceptions of the first fixture before those of the alternative.
  pub setup_fixture_fallback :
      (obj alternative : T) (s : S) (f g k : ℕ) (args : Args)
      → (get obj s).0 ≡ ok f
      → (set_up f (get obj s).1).0 ≡ err (multiple k args)
      → let s'' = (set_up f (get obj s).1).1 in
        (get alternative s'').0 ≡ ok g
        → let (done, s4) = set_up g (get alternative s'').1 in
          (done ≡ ok tt → setup_fixture obj (some alternative) s ≡ some (ok (some g), [], s4))
          × ((j : ℕ) (more : Args)
              → done ≡ err (multiple j more)
              → setup_fixture obj (some alternative) s
                ≡ conclude
                    (handle_multiple_exceptions
                      (err (multiple fresh (cons (multiple k args) (cons (multiple j more) nil)))))
                    (some g)
                    s4)
  unfolding setup_fixture handle_multiple_exceptions
  setup_fixture_fallback obj alternative s f g k args found failed found' =
      (λ h. ground arith, λ j more h. ground arith)
