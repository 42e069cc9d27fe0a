-- ===== src/Resource.antt =====
-- tobiko/openstack/base/_fixture.py: fixtures of resources that tests share, and that the last test
-- deletes. The calls of the service are parameters, on a state of the world `W`.
pub mod Sharing
pub mod Consistent
pub mod Reachable
mod Examples
use tobiko.Prelude.{
  ℕ, String, Bool, true, false, Option, none, some, List, [], ◌∷◌, Result, ok, err, str_eq,
  if◌then◌else◌,
}
use tobiko.Shelves.{Tests, Shelves, addme_to_shared_resource, removeme_from_shared_resource}

-- What `resource_find` raises.
pub data FindError (E : Type 0) : Type 0 where
  -- one of `_not_found_exception_tuple`
  not_found : FindError E
  failed : E → FindError E

pub data ResourceError (E : Type 0) : Type 0 where
  -- InvalidFixtureError
  quota_limits : ResourceError E
  -- `tobiko.fail` is given the name as the cause of the failure
  bad_cause : ResourceError E
  -- the exception of the last attempt to open the shelf
  shelf_error : E → ResourceError E
  service : E → ResourceError E

pub record Resources (W R E : Type 0) : Type 0 where
  pub id_of : R → String
  -- the client, the project and the user
  pub set_up : W → Result E (Unit {0}) × W
  pub quotas_are_ok : W → Result E Bool × W
  pub resource_find : W → Result (FindError E) (Option R) × W
  pub resource_create : W → Result E (Option R) × W
  pub resource_delete : W → Result E (Unit {0}) × W

-- The attribute `_resource` of the fixture, the shelves, and the world.
pub record State (W R : Type 0) : Type 0 where
  pub resource : Option R
  pub shelves : Shelves
  pub world : W

abbrev pub M : Type 0 → Type 0 → Type 0 → Type 0 → Type 0
M W R E A = State W R → Result (ResourceError E) A × State W R

abbrev pub bind :
    {W R E A B : Type 0}
    → (A → M W R E B)
    → Result (ResourceError E) A × State W R
    → Result (ResourceError E) B × State W R
bind f (ok a, st) = f a st
bind f (err e, st) = (err e, st)

infixl 5 ◌>>=◌ ◌>>◌
abbrev pub ◌>>=◌ : {W R E A B : Type 0} → M W R E A → (A → M W R E B) → M W R E B
◌>>=◌ m f st = bind f (m st)

abbrev pub ◌>>◌ : {W R E A B : Type 0} → M W R E A → M W R E B → M W R E B
m >> k = m >>= λ _. k

abbrev pub return : {W R E A : Type 0} → A → M W R E A
return a st = (ok a, st)

abbrev pub raise : {W R E A : Type 0} → ResourceError E → M W R E A
raise e st = (err e, st)

abbrev pub answer : {W R E A : Type 0} → Result E A × W → M W R E A
answer (ok a, w) st = (ok a, record st { world = w })
answer (err e, w) st = (err (service e), record st { world = w })

unfoldable pub call : {W R E A : Type 0} → (W → Result E A × W) → M W R E A
call f st = answer (f st.world) st

module _ {W R E : Type 0} (resources : Resources W R E) (shelf name : String) where
  unfoldable pub found : Result (FindError E) (Option R) × W → M W R E (Option R)
  found (ok o, w) st = (ok o, record st { resource = o; world = w })
  found (err not_found, w) st = (ok none, record st { resource = none; world = w })
  found (err (failed e), w) st = (err (service e), record st { world = w })

  abbrev pub cached_or_found : Option R → M W R E (Option R)
  cached_or_found (some r) st = (ok (some r), st)
  cached_or_found none st = found (resources.resource_find st.world) st

  -- The property `resource`
  unfoldable pub get_resource : M W R E (Option R)
  unfolding found
  get_resource st = cached_or_found st.resource st

  unfoldable pub keep : Option R → M W R E (Unit {0})
  keep o st = (ok tt, record st { resource = o })

  unfoldable pub create_if_missing : Option R → M W R E (Unit {0})
  unfolding call keep
  create_if_missing (some r) = return tt
  create_if_missing none = call resources.resource_create >>= keep

  unfoldable pub check_quotas : Bool → M W R E (Unit {0})
  check_quotas b = if b then return tt else raise quota_limits

  unfoldable pub try_create_resource : M W R E (Unit {0})
  unfolding call check_quotas get_resource create_if_missing
  try_create_resource = do
    quotas ← call resources.quotas_are_ok
    check_quotas quotas
    o ← get_resource
    create_if_missing o

  -- The set that the shelf gives is not used.
  unfoldable pub shelved : Result E Tests × Shelves → M W R E (Unit {0})
  shelved (err e, shelves) st = (err (shelf_error e), record st { shelves = shelves })
  shelved (ok _, shelves) st = (ok tt, record st { shelves = shelves })

  -- `opened` is what opening the shelf comes to.
  unfoldable pub share : (opened : Result E (Unit {0})) → String → Option R → M W R E (Unit {0})
  unfolding shelved
  share opened t none = raise bad_cause
  share opened t (some r) =
      λ st. shelved (addme_to_shared_resource opened shelf name t st.shelves) st

  -- `prevent_create` is the environment's TOBIKO_PREVENT_CREATE, and `t` the id of the test.
  unfoldable pub setup_fixture :
      (prevent_create : Bool) (opened : Result E (Unit {0})) (t : String) → M W R E (Unit {0})
  unfolding call get_resource try_create_resource share
  setup_fixture true opened t = do
    call resources.set_up
    get_resource
    o ← get_resource
    share opened t o
  setup_fixture false opened t = do
    call resources.set_up
    try_create_resource
    o ← get_resource
    share opened t o

  unfoldable pub delete_with_id : Option R → M W R E (Unit {0})
  unfolding call keep
  delete_with_id none = return tt
  delete_with_id (some r) =
      if str_eq (resources.id_of r) ""
      then return tt
      else (call resources.resource_delete >> keep none)

  unfoldable pub cleanup_resource : M W R E (Unit {0})
  unfolding get_resource delete_with_id
  cleanup_resource = get_resource >>= delete_with_id

  unfoldable pub unless_used : Tests → M W R E (Unit {0})
  unfolding cleanup_resource
  unless_used [] = cleanup_resource
  unless_used (t ∷ ts) = return tt

  unfoldable pub if_opened : Result E Tests × Shelves → M W R E (Unit {0})
  unfolding unless_used
  if_opened (err e, shelves) st = (err (shelf_error e), record st { shelves = shelves })
  if_opened (ok tests, shelves) st = unless_used tests (record st { shelves = shelves })

  unfoldable pub cleanup_fixture : (opened : Result E (Unit {0})) → String → M W R E (Unit {0})
  unfolding if_opened
  cleanup_fixture opened t st =
      if_opened (removeme_from_shared_resource opened shelf name t st.shelves) st
