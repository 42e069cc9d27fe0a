-- ===== src/Cached/Examples.antt =====
-- An object whose getter counts its calls.
use tobiko.Prelude.{ℕ, suc, ◌≡◌, refl, none, some, [], ok}
use tobiko.Prelude.Dict.{Dict, lookup, insert}
use tobiko.Cached.{CachedProperty, Attributes, get}

record Thing : Type 0 where
  calls : ℕ
  dict : Dict ℕ

abbrev object : Attributes Thing ℕ
object = record {
  attributes = λ o. o.dict;
  with_attributes = λ d o. record o { dict = d };
  attributes-with = λ d o. refl;
}

abbrev property : CachedProperty Thing ℕ ℕ
property = record {
  fget = some (λ o. (ok (suc o.calls), record o { calls = suc o.calls }));
  fset = none;
  fdel = none;
  cached_id = "_cached_1";
}

abbrev thing : Thing
thing = record { calls = 0; dict = [] }

get_twice : (get object property (get object property thing).1).1.calls ≡ 1
unfolding get lookup insert
get_twice = refl
