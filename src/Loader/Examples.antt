-- ===== src/Loader/Examples.antt =====
-- A module with a function, which is loaded by its dotted name and found in the cache again.
use tobiko.Prelude.{String, true, ◌≡◌, refl, none, some, [], ok, err, str_eq, if◌then◌else◌, arith}
use tobiko.Loader.{
  ObjectId, root, child, Python, LoadError, get_loader, same_id, set, load, load_module,
}
use tobiko.Loader.Transparent.{resolve, IsConsistent, load-resolve}

abbrev python_of : Python String String
python_of = record {
  import_module = λ id. elim id [
    | root n ↦ if str_eq n "os" then ok "os" else err "ModuleNotFoundError"
    | child p n ↦ err "ModuleNotFoundError"
  ];
  getattr =
      λ parent name. if str_eq name "listdir" then ok (some "listdir") else err "AttributeError";
  is_attribute_error = λ e. str_eq e "AttributeError";
  is_module = λ o. str_eq o "os";
  has_references = λ o. true;
  alive = λ o. true;
  sys_modules =
      λ id. elim id [ root n ↦ if str_eq n "os" then some "os" else none | child p n ↦ none ];
}

abbrev listdir : ObjectId
listdir = child (root "os") "listdir"

loads : (load python_of true listdir []).0 ≡ ok (some "listdir")
unfolding load set get_loader
loads = refl

loads_module : (load_module python_of true listdir []).0 ≡ ok (some "os")
unfolding load_module set get_loader same_id
loads_module = refl

modules :
    (id : ObjectId) (o : String)
    → python_of.sys_modules id ≡ some o
    → resolve python_of id ≡ ok (some o)
unfolding resolve
modules (root n) o e = ground arith
modules (child p n) o e = absurd cc

empty-IsConsistent : IsConsistent python_of []
unfolding IsConsistent get_loader
empty-IsConsistent id = refl

load-resolve_example :
    ((load python_of true listdir []).0 ≡ resolve python_of listdir)
    × IsConsistent python_of (load python_of true listdir []).1
load-resolve_example = load-resolve python_of modules true listdir [] empty-IsConsistent

-- A module under another name than its own, such as one that a module imports, is in the cache, but
-- `get` does not find it in sys.modules.
alias :
    (load_module
      (record python_of { getattr = λ parent name. ok (some "os") })
      true
      (child (root "os") "imported")
      []).0
    ≡ err (LoadError.is_not_cached (child (root "os") "imported"))
unfolding load_module set get_loader same_id
alias = refl
