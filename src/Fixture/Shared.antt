-- ===== src/Fixture/Shared.antt =====
-- `SharedFixture` of tobiko/common/_fixture.py: a fixture that is set up once for many users.
-- `fixtures.Fixture` is not the program's: what its `setUp` and `cleanUp` do to the object, the hooks
-- `setup_fixture` and `cleanup_fixture` included, is a parameter. Its `setUp` calls the `cleanUp` of
-- the subclass where the set-up raises, so it is given that one.
use tobiko.Prelude.{
  ℕ, suc, ◌+◌, ◌≤◌, ◌≡◌, Bool, true, false, not, ◌&&◌, List, [], ◌∷◌, Result, ok, err, arith, refl,
  sym, subst, inl, inr, Bool-cases, Result-cases, if◌then◌else◌,
}

pub record SharedFixture (S : Type 0) : Type 0 where
  pub setup_executed : Bool
  pub cleanup_executed : Bool
  pub inner : S

abbrev pub with_inner : {S : Type 0} → SharedFixture S → S → SharedFixture S
with_inner f s = record {
  setup_executed = f.setup_executed;
  cleanup_executed = f.cleanup_executed;
  inner = s;
}

-- A method of the object.
abbrev pub Method : Type 0 → Type 0 → Type 0
Method S E = SharedFixture S → Result E (Unit {0}) × SharedFixture S

pub record Base (S E : Type 0) : Type 0 where
  pub set_up : (clean_up : Method S E) → Method S E
  pub clean_up : Bool → S → Result E (Unit {0}) × S
  -- `self.addCleanup(self.cleanup_fixture)`
  pub add_cleanup : S → S

abbrev pub init : {S : Type 0} → S → SharedFixture S
init s = record { setup_executed = false; cleanup_executed = false; inner = s }

module _ {S E : Type 0} (base : Base S E) where
  -- `prevent_create` is the environment's TOBIKO_PREVENT_CREATE.
  unfoldable pub clean_up :
      (prevent_create raise_first : Bool) → SharedFixture S → Result E (Unit {0}) × SharedFixture S
  clean_up prevent_create raise_first f =
      let before =
        if prevent_create
        then f.inner
        else if not f.cleanup_executed
        then base.add_cleanup f.inner
        else f.inner in
      let (r, s) = base.clean_up raise_first before in
      elim r [
        | ok _ ↦ (ok tt, record { setup_executed = false; cleanup_executed = true; inner = s })
        | err e ↦ (err e, record f { inner = s })
      ]

  -- Where the base class raises, the flags are as its cleanup left them.
  unfoldable pub set_up :
      (prevent_create : Bool) → SharedFixture S → Result E (Unit {0}) × SharedFixture S
  unfolding clean_up
  set_up prevent_create f =
      if not f.setup_executed
      then (let (r, g) = base.set_up (clean_up prevent_create false) f in
          elim r [
            | ok _ ↦
                (ok tt, record { setup_executed = true; cleanup_executed = false; inner = g.inner })
            | err e ↦ (err e, g)
          ])
      else (ok tt, f)

  -- The calls that the users of a shared fixture make, each going on where the last one ended.
  pub data Call : Type 0 where
    set_up_call : (prevent_create : Bool) → Call
    clean_up_call : (prevent_create raise_first : Bool) → Call

  unfoldable pub run : List Call → SharedFixture S → SharedFixture S
  unfolding set_up clean_up
  run [] f = f
  run (set_up_call prevent_create ∷ calls) f = run calls (set_up prevent_create f).1
  run (clean_up_call prevent_create raise_first ∷ calls) f =
      run calls (clean_up prevent_create raise_first f).1

  -- A fixture that is set up has no cleanup behind it.
  abbrev pub IsConsistent : SharedFixture S → Type 0
  IsConsistent f = (f.setup_executed && f.cleanup_executed) ≡ false

  -- One more, if the call returned.
  abbrev pub count : Result E (Unit {0}) → ℕ → ℕ
  count (ok _) n = suc n
  count (err _) n = n

  -- Counters in the object that tell the set-ups and the cleanups of the base class that returned. A
  -- set-up of the base class that raises ends with a call of the cleanup that it was given.
  pub record Counts (setups cleanups : S → ℕ) : Type 0 where
    pub set_up-ok :
        (method : Method S E) (f : SharedFixture S)
        → (base.set_up method f).0 ≡ ok tt
        → (setups (base.set_up method f).1.inner ≡ suc (setups f.inner))
          × (cleanups (base.set_up method f).1.inner ≡ cleanups f.inner)
    pub set_up-err :
        (method : Method S E) (f : SharedFixture S) (e : E)
        → (base.set_up method f).0 ≡ err e
        → (s : S) × ((base.set_up method f).1 ≡ (method (with_inner f s)).1)
          × (setups s ≡ setups f.inner)
          × (cleanups s ≡ cleanups f.inner)
    pub setups-clean_up : (b : Bool) (s : S) → setups (base.clean_up b s).1 ≡ setups s
    pub cleanups-clean_up :
        (b : Bool) (s : S)
        → cleanups (base.clean_up b s).1 ≡ count (base.clean_up b s).0 (cleanups s)
    pub setups-add_cleanup : (s : S) → setups (base.add_cleanup s) ≡ setups s
    pub cleanups-add_cleanup : (s : S) → cleanups (base.add_cleanup s) ≡ cleanups s

  -- The state of a shared fixture with such counters.
  pub record IsBalanced (setups cleanups : S → ℕ) (f : SharedFixture S) : Type 0 where
    pub consistent : IsConsistent f
    pub balanced : setups f.inner ≤ cleanups f.inner + (if f.setup_executed then 1 else 0)

  set_up_there :
      (p : Bool) (f : SharedFixture S) → f.setup_executed ≡ true → set_up p f ≡ (ok tt, f)
  unfolding set_up
  set_up_there p f e = ground arith

  set_up-raises :
      (p : Bool) (f : SharedFixture S) (e : E)
      → f.setup_executed ≡ false
      → (base.set_up (clean_up p false) f).0 ≡ err e
      → set_up p f ≡ (err e, (base.set_up (clean_up p false) f).1)
  unfolding set_up
  set_up-raises p f e new r = ground arith

  set_up-returns :
      (p : Bool) (f : SharedFixture S)
      → f.setup_executed ≡ false
      → (base.set_up (clean_up p false) f).0 ≡ ok tt
      → set_up p f ≡ (
        ok tt,
        record {
          setup_executed = true;
          cleanup_executed = false;
          inner = (base.set_up (clean_up p false) f).1.inner;
        },
      )
  unfolding set_up
  set_up-returns p f new r = ground arith

  module _ (setups cleanups : S → ℕ) (counts : Counts setups cleanups) where
    clean_up-IsBalanced :
        (p r : Bool) (f : SharedFixture S)
        → IsBalanced setups cleanups f
        → IsBalanced setups cleanups (clean_up p r f).1
    unfolding clean_up
    clean_up-IsBalanced p r f b =
        let s = f.inner in
        let s' = base.add_cleanup s in
        ground (
          arith,
          counts.setups-clean_up r s,
          counts.cleanups-clean_up r s,
          counts.setups-clean_up r s',
          counts.cleanups-clean_up r s',
          counts.setups-add_cleanup s,
          counts.cleanups-add_cleanup s,
        )

    -- The object of a set-up that raised.
    raised-IsBalanced :
        (p : Bool) (f : SharedFixture S) (e : E)
        → IsBalanced setups cleanups f
        → (base.set_up (clean_up p false) f).0 ≡ err e
        → IsBalanced setups cleanups (base.set_up (clean_up p false) f).1
    raised-IsBalanced p f e b r =
        let (s, same, n, m) = counts.set_up-err (clean_up p false) f e r in
        let before : IsBalanced setups cleanups (with_inner f s) = record {
          consistent = b.consistent;
          balanced = omega (arith, b.balanced, n, m);
        } in
        subst (IsBalanced setups cleanups) (sym same)
          (clean_up-IsBalanced p false (with_inner f s) before)

    set_up-IsBalanced :
        (p : Bool) (f : SharedFixture S)
        → IsBalanced setups cleanups f
        → IsBalanced setups cleanups (set_up p f).1
    set_up-IsBalanced p f b = elim (Bool-cases f.setup_executed) [
      | inl there ↦ holds (ok tt, f) (set_up_there p f there) b
      | inr new ↦ elim (Result-cases (base.set_up (clean_up p false) f).0) [
        | inr (e, r) ↦ holds (err e, _) (set_up-raises p f e new r) (raised-IsBalanced p f e b r)
        | inl (a, r) ↦
            let (n, m) = counts.set_up-ok (clean_up p false) f r in
            let before = b.balanced in
            holds (ok tt, _) (set_up-returns p f new r)
              (record { consistent = refl; balanced = ground (arith, before) })
      ]
    ]
      where
        holds :
            (o : Result E (Unit {0}) × SharedFixture S)
            → set_up p f ≡ o
            → IsBalanced setups cleanups o.1
            → IsBalanced setups cleanups (set_up p f).1
        holds o e = subst (λ o. IsBalanced setups cleanups o.1) (sym e)

    -- Where a set-up of the base class that raises ends with a call of the cleanup of the fixture:
    -- whatever users call, in whatever order and whether the calls raise or not, the base class is set
    -- up at most once more than it is cleaned up, and no more often than it is cleaned up while the
    -- fixture is not set up.
    pub run-IsBalanced :
        (calls : List Call) (f : SharedFixture S)
        → IsBalanced setups cleanups f
        → IsBalanced setups cleanups (run calls f)
    unfolding run
    run-IsBalanced [] f b = b
    run-IsBalanced (set_up_call p ∷ calls) f b =
        run-IsBalanced calls (set_up p f).1 (set_up-IsBalanced p f b)
    run-IsBalanced (clean_up_call p r ∷ calls) f b =
        run-IsBalanced calls (clean_up p r f).1 (clean_up-IsBalanced p r f b)

  -- A set-up that returns leaves the fixture set up, and every set-up after it returns at once and
  -- changes nothing.
  pub set_up_once :
      (p q : Bool) (f : SharedFixture S)
      → (set_up p f).0 ≡ ok tt
      → set_up q (set_up p f).1 ≡ (ok tt, (set_up p f).1)
  unfolding set_up
  set_up_once p q f h = ground arith
