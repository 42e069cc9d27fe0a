-- ===== src/Fixture/Manager/Singletons.antt =====
-- One fixture for each name, from its creation until its removal.
use tobiko.Prelude.{
  ◌≡◌, ◌∙◌, refl, ap, String, Bool, Option, none, some, List, [], ◌∷◌, Result, ok, err, arith,
  eq_iff, Result-cases, inl, inr,
}
use tobiko.Prelude.Dict.{lookup, remove, lookup-insert}
use tobiko.Fixture.Manager.{
  Object, Target, named, object, FixtureError, Manager, with_id, get_object_name, get_fixture,
  get_fixtures, remove_fixture, init_fixture, register, get_or_create, get_name_and_object,
}

module _ {F S : Type 0} (load : String → Option Object) (construct : Object → S → Option F × S)
    (is_fixture : F → Bool) where
  -- What is there under a name stays there.
  register_keeps :
      (name k : String) (f : F) (made : Result FixtureError F × S) (m : Manager F S)
      → lookup name m.fixtures ≡ none
      → lookup k m.fixtures ≡ some f
      → lookup k (register load construct is_fixture name made m).1.fixtures ≡ some f
  unfolding register
  register_keeps name k f (err e, w) m n h = h
  register_keeps name k f (ok g, w) m n h =
      ground (arith, lookup-insert name k g m.fixtures, eq_iff name k)

  get_or_create_keeps :
      (name k : String) (obj : Object) (f : F) (m : Manager F S)
      → lookup k m.fixtures ≡ some f
      → lookup k (get_or_create load construct is_fixture name obj m).1.fixtures ≡ some f
  unfolding get_or_create
  get_or_create_keeps name k obj f m h = go (lookup name m.fixtures) refl
    where
      go :
          (o : Option F)
          → lookup name m.fixtures ≡ o
          → lookup k (get_or_create load construct is_fixture name obj m).1.fixtures ≡ some f
      go (some g) e = rw (e, get_or_create) h
      go none e =
          rw (e, get_or_create)
            (register_keeps name k f (init_fixture load construct is_fixture obj name m.world) m e
              h)

  get_fixture_keeps :
      (target : Target) (fixture_id : Option String) (k : String) (f : F) (m : Manager F S)
      → lookup k m.fixtures ≡ some f
      → lookup k (get_fixture load construct is_fixture target fixture_id m).1.fixtures ≡ some f
  unfolding get_fixture
  get_fixture_keeps target fixture_id k f m h =
      elim (Result-cases (get_name_and_object load target)) [
        | inl (found, e) ↦
            rw (e, get_fixture) (get_or_create_keeps (with_id found.0 fixture_id) k found.1 f m h)
        | inr (x, e) ↦ rw (e, get_fixture) h
      ]

  get_fixtures_keeps :
      (calls : List (Target × Option String)) (k : String) (f : F) (m : Manager F S)
      → lookup k m.fixtures ≡ some f
      → lookup k (get_fixtures load construct is_fixture calls m).fixtures ≡ some f
  unfolding get_fixtures
  get_fixtures_keeps [] k f m h = h
  get_fixtures_keeps ((target, fixture_id) ∷ calls) k f m h =
      get_fixtures_keeps calls k f _ (get_fixture_keeps target fixture_id k f m h)

  register_found :
      (name : String) (f : F) (made : Result FixtureError F × S) (m : Manager F S)
      → (register load construct is_fixture name made m).0 ≡ ok f
      → lookup name (register load construct is_fixture name made m).1.fixtures ≡ some f
  unfolding register
  register_found name f (err e, w) m h = absurd cc
  register_found name f (ok g, w) m h =
      ground (arith, lookup-insert name name g m.fixtures, eq_iff name name)

  get_or_create_found :
      (name : String) (obj : Object) (m : Manager F S) (f : F)
      → (get_or_create load construct is_fixture name obj m).0 ≡ ok f
      → lookup name (get_or_create load construct is_fixture name obj m).1.fixtures ≡ some f
  unfolding get_or_create
  get_or_create_found name obj m f h =
      let new = init_fixture load construct is_fixture obj name m.world in
      ground (arith, register_found name f new m)

  get_or_create_again :
      (name : String) (obj : Object) (m : Manager F S) (f : F)
      → lookup name m.fixtures ≡ some f
      → get_or_create load construct is_fixture name obj m ≡ (ok f, m)
  unfolding get_or_create
  get_or_create_again name obj m f h = rw (h, get_or_create) refl

  -- What a successful call did: the name that it looked up, and the object behind it.
  get_fixture-inversion :
      (target : Target) (fixture_id : Option String) (m : Manager F S) (f : F)
      → (get_fixture load construct is_fixture target fixture_id m).0 ≡ ok f
      → (found : String × Object) × (get_name_and_object load target ≡ ok found)
        × (get_fixture load construct is_fixture target fixture_id
            ≡ get_or_create load construct is_fixture (with_id found.0 fixture_id) found.1)
  unfolding get_fixture
  get_fixture-inversion target fixture_id m f h =
      elim (Result-cases (get_name_and_object load target)) [
        | inl (found, e) ↦ (found, e, rw (e, get_fixture))
        | inr (x, e) ↦ absurd (raises x e)
      ]
    where
      raises : (x : FixtureError) → get_name_and_object load target ≡ err x → ⊥
      raises x e = ground arith

  get_object_name-get :
      (target : Target) (found : String × Object)
      → get_name_and_object load target ≡ ok found
      → get_object_name target ≡ ok found.0
  unfolding get_name_and_object
  get_object_name-get (named name) found h = ground arith
  get_object_name-get (object obj) found h = ground arith

  remove_fixture_named :
      (target : Target) (fixture_id : Option String) (m : Manager F S) (name : String)
      → get_object_name target ≡ ok name
      → remove_fixture target fixture_id m ≡ (
        ok (lookup (with_id name fixture_id) m.fixtures),
        record m { fixtures = remove (with_id name fixture_id) m.fixtures },
      )
  unfolding remove_fixture
  remove_fixture_named target fixture_id m name e = rw (e, remove_fixture)

  -- A fixture that a call gave is the one that the same call gives again, after any calls for this or
  -- other fixtures, whether they raise or not: nothing is called for it and the manager does not
  -- change. A removal then returns that fixture.
  pub get_fixture_again :
      (target : Target) (fixture_id : Option String) (m : Manager F S) (f : F)
      (calls : List (Target × Option String))
      → (get_fixture load construct is_fixture target fixture_id m).0 ≡ ok f
      → let got = (get_fixture load construct is_fixture target fixture_id m).1 in
        let m' = get_fixtures load construct is_fixture calls got in
        (get_fixture load construct is_fixture target fixture_id m' ≡ (ok f, m'))
        × ((remove_fixture target fixture_id m').0 ≡ ok (some f))
  get_fixture_again target fixture_id m f calls got =
      let (found, e, g) = get_fixture-inversion target fixture_id m f got in
      let name = with_id found.0 fixture_id in
      let m1 = (get_fixture load construct is_fixture target fixture_id m).1 in
      let m' = get_fixtures load construct is_fixture calls m1 in
      let got' : (get_or_create load construct is_fixture name found.1 m).0 ≡ ok f = rw g at got in
      let has = get_or_create_found name found.1 m f got' in
      let first : lookup name m1.fixtures ≡ some f =
        ap (λ call. lookup name (call m).1.fixtures) g ∙ has in
      let kept = get_fixtures_keeps calls name f m1 first in
      (
        ap (λ call. call m') g ∙ get_or_create_again name found.1 m' f kept,
        ap (λ o. o.0)
              (remove_fixture_named target fixture_id m' found.0
                (get_object_name-get target found e))
            ∙ ap ok kept,
      )
