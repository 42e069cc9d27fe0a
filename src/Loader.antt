-- ===== src/Loader.antt =====
-- tobiko/common/_loader.py: objects found by their dotted names, and the cache of them. The import of
-- modules, getattr, sys.modules and weak references are parameters.
pub mod Transparent
mod Examples
use tobiko.Prelude.{
  String, Bool, true, false, ◌&&◌, ◌||◌, Option, none, some, List, [], ◌∷◌, Result, ok, err, str_eq,
  if◌then◌else◌,
}

-- An object id, split at its last dot again and again.
pub data ObjectId : Type 0 where
  root : (name : String) → ObjectId
  child : (parent : ObjectId) (name : String) → ObjectId

unfoldable pub same_id : ObjectId → ObjectId → Bool
same_id (root n) (root m) = str_eq n m
same_id (child p n) (child q m) = same_id p q && str_eq n m
same_id _ _ = false

-- What `get` is bound to.
pub data Cached (O : Type 0) : Type 0 where
  not_cached none_object module_object : Cached O
  object : O → Cached O

-- `is_module` is false while `_is_module` is None.
pub record ObjectLoader (O : Type 0) : Type 0 where
  pub cached : Cached O
  pub is_module : Bool

-- `_loaders`; a loader that is not there is a new one.
abbrev pub Loaders : Type 0 → Type 0
Loaders O = List (ObjectId × ObjectLoader O)

-- An object that may be None is an Option.
pub record Python (O E : Type 0) : Type 0 where
  pub import_module : ObjectId → Result E O
  pub getattr : Option O → String → Result E (Option O)
  pub is_attribute_error : E → Bool
  pub is_module : O → Bool
  -- whether `weakref.ref` takes it, and whether a weak reference to it still leads to it
  pub has_references : O → Bool
  pub alive : O → Bool
  pub sys_modules : ObjectId → Option O

pub data LoadError (E : Type 0) : Type 0 where
  -- RuntimeError: no object in the cache, or no parent
  is_not_cached : ObjectId → LoadError E
  no_parent : ObjectId → LoadError E
  -- TypeError of `weakref.ref`
  no_reference : LoadError E
  python : E → LoadError E

module _ {O : Type 0} where
  -- `manager.get_loader(object_id)`
  unfoldable pub get_loader : ObjectId → Loaders O → ObjectLoader O
  get_loader id [] = record { cached = not_cached; is_module = false }
  get_loader id ((i, l) ∷ loaders) = if same_id i id then l else get_loader id loaders

  unfoldable pub put_loader : ObjectId → ObjectLoader O → Loaders O → Loaders O
  put_loader id l loaders = (id, l) ∷ loaders

module _ {O E : Type 0} (py : Python O E) where
  abbrev pub Outcome : Type 0
  Outcome = Result (LoadError E) (Option O) × Loaders O

  abbrev pub stored : ObjectId → Option O → ObjectLoader O → Loaders O → Outcome
  stored id obj l loaders = (ok obj, put_loader id l loaders)

  -- `self.set(obj)` and `return obj`
  unfoldable pub set : ObjectId → Option O → Loaders O → Outcome
  unfolding put_loader
  set id none loaders = stored id none (record { cached = none_object; is_module = false }) loaders
  set id (some o) loaders =
      if py.is_module o
      then stored id (some o) (record { cached = module_object; is_module = true }) loaders
      else if py.has_references o
      then stored id (some o) (record { cached = object o; is_module = false }) loaders
      else (
        err no_reference,
        put_loader id (record { cached = (get_loader id loaders).cached; is_module = false })
            loaders,
      )

  abbrev pub or_not_cached : ObjectId → Option O → Result (LoadError E) (Option O)
  or_not_cached id none = err (is_not_cached id)
  or_not_cached id (some o) = ok (some o)

  -- `self.get()`
  unfoldable pub get : ObjectId → Cached O → Result (LoadError E) (Option O)
  get id not_cached = err (is_not_cached id)
  get id none_object = ok none
  get id module_object = or_not_cached id (py.sys_modules id)
  get id (object o) = if py.alive o then ok (some o) else err (is_not_cached id)

  -- `_load_module`
  unfoldable pub import_and_set : ObjectId → Result E O → Loaders O → Outcome
  unfolding set
  import_and_set id (err e) loaders = (err (python e), loaders)
  import_and_set id (ok o) loaders = set id (some o) loaders

  -- `getattr(parent, name)` and what comes after it
  unfoldable pub attribute :
      (parent : ObjectId) (name : String) → Result E (Option O) → Loaders O → Outcome
  unfolding import_and_set
  attribute p n (ok obj) loaders = set (child p n) obj loaders
  attribute p n (err e) loaders =
      if py.is_attribute_error e && (get_loader p loaders).is_module
      then import_and_set (child p n) (py.import_module (child p n)) loaders
      else (err (python e), loaders)

  unfoldable pub from_parent : (parent : ObjectId) (name : String) → Outcome → Outcome
  unfolding attribute
  from_parent p n (err e, loaders) = (err e, loaders)
  from_parent p n (ok parent, loaders) = attribute p n (py.getattr parent n) loaders

  -- The cache is asked first where the caller wants it to be.
  unfoldable pub or_load :
      (cached : Bool) → Result (LoadError E) (Option O) → Loaders O → Outcome → Outcome
  or_load true (ok obj) loaders loaded = (ok obj, loaders)
  or_load true (err e) loaders loaded = loaded
  or_load false r loaders loaded = loaded

  unfoldable pub load : (cached : Bool) → ObjectId → Loaders O → Outcome
  unfolding from_parent or_load get
  load cached (root n) loaders =
      or_load cached (get (root n) (get_loader (root n) loaders).cached) loaders
        (import_and_set (root n) (py.import_module (root n)) loaders)
  load cached (child p n) loaders =
      let loaded = from_parent p n (load cached p loaders) in
      or_load cached (get (child p n) (get_loader (child p n) loaders).cached) loaders loaded

  abbrev pub is_loaded_module : ObjectId → Loaders O → Bool
  is_loaded_module id loaders = (get_loader id loaders).is_module

  abbrev pub got : ObjectId → Loaders O → Outcome
  unfolding get
  got id loaders = (get id (get_loader id loaders).cached, loaders)

  -- `load_module` after `load`: the object where it is a module, or else the module of its parent.
  abbrev pub module_or : ObjectId → (Loaders O → Outcome) → Outcome → Outcome
  unfolding get
  module_or id in_parent (err e, loaders) = (err e, loaders)
  module_or id in_parent (ok obj, loaders) =
      let above = in_parent loaders in if is_loaded_module id loaders then got id loaders else above

  unfoldable pub load_module : (cached : Bool) → ObjectId → Loaders O → Outcome
  unfolding load
  load_module cached (root n) loaders =
      if cached && is_loaded_module (root n) loaders
      then got (root n) loaders
      else module_or (root n) (λ l. (err (no_parent (root n)), l)) (load cached (root n) loaders)
  load_module cached (child p n) loaders =
      if cached && is_loaded_module (child p n) loaders
      then got (child p n) loaders
      else module_or (child p n) (load_module true p) (load cached (child p n) loaders)
