-- ===== src/Fixture/Manager.antt =====
-- `FixtureManager` and `get_fixture` of tobiko/common/_fixture.py: one fixture for each name.
-- A Python object is what the code asks of it, and `F` are the objects that calls give. `load` is
-- `_loader.load_object` and `construct` the call of a class or an instance, on the state `S` of the
-- rest of the program; `none` stands for a raise. The attributes that init_fixture sets on the new
-- object are left out.
pub mod Singletons
use Prim.Native.String.{◌++◌ as text_append}
use tobiko.Prelude.{
  ℕ, suc, String, Bool, true, false, Option, none, some, List, [], ◌∷◌, Result, ok, err, ◌>>=◌,
  str_eq, if◌then◌else◌,
}
use tobiko.Prelude.Dict.{Dict, lookup, insert, remove}

-- The module and the qualified name of a function, a method or a class.
pub record Naming : Type 0 where
  pub module_name : Option String
  pub qualname : Option String

pub data Kind : Type 0 where
  instance' class' other : Kind

pub record Object : Type 0 where
  pub fixture_name : Option String
  pub kind : Kind
  pub is_function : Bool
  pub own : Naming
  pub type_of : Naming

-- The argument `obj`: a name, or an object.
pub data Target : Type 0 where
  named : String → Target
  object : Object → Target

pub data FixtureError : Type 0 where
  not_loaded : String → FixtureError
  no_name : Object → FixtureError
  not_created : String → FixtureError
  call_failed : Object → FixtureError
  invalid_type : Object → FixtureError
  -- the assertion of get_fixture
  no_fixture : FixtureError

-- The fixtures of the manager, and the rest of the program.
pub record Manager (F S : Type 0) : Type 0 where
  pub fixtures : Dict F
  pub world : S

full_name_of : Object → Naming → Result FixtureError String
full_name_of obj n = elim n.module_name [
  | none ↦ err (no_name obj)
  | some m ↦ elim n.qualname [
    | none ↦ err (no_name obj)
    | some q ↦ ok (text_append m (text_append "." q))
  ]
]

-- Of an object that is no function, method or class the type is named.
naming : Object → Naming
naming obj = elim obj.kind [
  | class' ↦ obj.own
  | _ ↦ if obj.is_function then obj.own else obj.type_of
]

unfoldable pub get_object_name : Target → Result FixtureError String
unfolding full_name_of naming
get_object_name (named name) = ok name
get_object_name (object obj) = elim obj.fixture_name [
  | some name ↦ ok name
  | none ↦ full_name_of obj (naming obj)
]

-- `if fixture_id: name += f'-{fixture_id}'`
unfoldable pub with_id : String → Option String → String
with_id name none = name
with_id name (some i) = if str_eq i "" then name else text_append name (text_append "-" i)

module _ (load : String → Option Object) where
  unfoldable pub get_name_and_object : Target → Result FixtureError (String × Object)
  unfolding get_object_name
  get_name_and_object (named name) = elim (load name) [
    | none ↦ err (not_loaded name)
    | some obj ↦ ok (name, obj)
  ]
  get_name_and_object (object obj) = do name ← get_object_name (object obj); ok (name, obj)

abbrev made : {F : Type 0} → FixtureError → Option F → Result FixtureError F
made e none = err e
made e (some f) = ok f

module _ {F S : Type 0} (load : String → Option Object) (construct : Object → S → Option F × S)
    (is_fixture : F → Bool) where
  -- An instance is called too, and its exceptions are not wrapped.
  unfoldable pub init_fixture : Object → String → S → Result FixtureError F × S
  init_fixture obj name w =
      let (o, w') = construct obj w in
      elim obj.kind [
        | other ↦ (err (invalid_type obj), w)
        | instance' ↦ (made (call_failed obj) o, w')
        | class' ↦ (made (not_created name) o, w')
      ]

  register : String → Result FixtureError F × S → Manager F S → Result FixtureError F × Manager F S
  register name (err e, w) m = (err e, record m { world = w })
  register name (ok f, w) m =
      if is_fixture f
      then (ok f, record { fixtures = insert name f m.fixtures; world = w })
      else (err no_fixture, record m { world = w })

  get_or_create : String → Object → Manager F S → Result FixtureError F × Manager F S
  unfolding register init_fixture
  get_or_create name obj m = elim (lookup name m.fixtures) [
    | some f ↦ (ok f, m)
    | none ↦ register name (init_fixture obj name m.world) m
  ]

  -- `FixtureManager.get_fixture`
  unfoldable pub get_fixture :
      Target → Option String → Manager F S → Result FixtureError F × Manager F S
  unfolding get_or_create get_name_and_object
  get_fixture target fixture_id m = elim (get_name_and_object load target) [
    | err e ↦ (err e, m)
    | ok found ↦ get_or_create (with_id found.0 fixture_id) found.1 m
  ]

  -- Calls one after the other; the callers go on after an exception.
  unfoldable pub get_fixtures : List (Target × Option String) → Manager F S → Manager F S
  unfolding get_fixture
  get_fixtures [] m = m
  get_fixtures ((target, fixture_id) ∷ calls) m =
      get_fixtures calls (get_fixture target fixture_id m).1

-- `FixtureManager.remove_fixture`: the name is not loaded here.
unfoldable pub remove_fixture :
    {F S : Type 0}
    → Target
    → Option String
    → Manager F S
    → Result FixtureError (Option F) × Manager F S
unfolding get_object_name
remove_fixture target fixture_id m = elim (get_object_name target) [
  | err e ↦ (err e, m)
  | ok name ↦
      let key = with_id name fixture_id in
      (ok (lookup key m.fixtures), record m { fixtures = remove key m.fixtures })
]
