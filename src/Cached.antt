-- ===== src/Cached.antt =====
-- `CachedProperty` of tobiko/common/_cached.py. An object is its dictionary of attributes; the getter,
-- the setter and the deleter of the property are parameters that change it.
pub mod Once
mod Examples
use tobiko.Prelude.{◌≡◌, String, Option, none, some, Result, ok, err}
use tobiko.Prelude.Dict.{Dict, lookup, insert, remove}

pub data CachedError (E : Type 0) : Type 0 where
  no_getter : CachedError E
  raised : E → CachedError E

pub record CachedProperty (O V E : Type 0) : Type 0 where
  pub fget : Option (O → Result E V × O)
  pub fset : Option (V → O → Result E (Unit {0}) × O)
  pub fdel : Option (O → Result E (Unit {0}) × O)
  pub cached_id : String

-- How the attributes of an object are read and replaced.
pub record Attributes (O V : Type 0) : Type 0 where
  pub attributes : O → Dict V
  pub with_attributes : Dict V → O → O
  pub attributes-with : (d : Dict V) (o : O) → attributes (with_attributes d o) ≡ d

module _ {O V E : Type 0} (object : Attributes O V) (p : CachedProperty O V E) where
  unfoldable pub get_cached : O → Option V
  get_cached o = lookup p.cached_id (object.attributes o)

  unfoldable pub set_cached : V → O → O
  set_cached v o = object.with_attributes (insert p.cached_id v (object.attributes o)) o

  unfoldable pub delete_cached : O → O
  delete_cached o = object.with_attributes (remove p.cached_id (object.attributes o)) o

  after_setter : V → Result E (Unit {0}) × O → Result (CachedError E) (Unit {0}) × O
  after_setter v (ok _, o) = (ok tt, set_cached v o)
  after_setter v (err e, o) = (err (raised e), o)

  -- `__set__`: the setter first, then the cache.
  unfoldable pub set : V → O → Result (CachedError E) (Unit {0}) × O
  unfolding set_cached after_setter
  set v o = elim p.fset [ none ↦ (ok tt, set_cached v o) | some f ↦ after_setter v (f v o) ]

  with_value : V → Result (CachedError E) (Unit {0}) × O → Result (CachedError E) V × O
  with_value v (ok _, o) = (ok v, o)
  with_value v (err e, o) = (err e, o)

  pub compute : Result E V × O → Result (CachedError E) V × O
  unfolding with_value set
  compute (ok v, o) = with_value v (set v o)
  compute (err e, o) = (err (raised e), o)

  -- `__get__` on an object
  unfoldable pub get : O → Result (CachedError E) V × O
  unfolding get_cached compute
  get o = elim (get_cached o) [
    | some v ↦ (ok v, o)
    | none ↦ elim p.fget [ none ↦ (err no_getter, o) | some f ↦ compute (f o) ]
  ]

  after_deleter : Result E (Unit {0}) × O → Result (CachedError E) (Unit {0}) × O
  unfolding delete_cached
  after_deleter (ok _, o) = (ok tt, delete_cached o)
  after_deleter (err e, o) = (err (raised e), o)

  -- `__delete__`
  unfoldable pub delete : O → Result (CachedError E) (Unit {0}) × O
  unfolding delete_cached after_deleter
  delete o = elim p.fdel [ none ↦ (ok tt, delete_cached o) | some f ↦ after_deleter (f o) ]
