-- ===== src/Resource/Examples.antt =====
-- A server that two tests share; the world is the server that there is.
use tobiko.Prelude.{
  ◌≡◌, ◌≢◌, refl, String, true, false, Option, none, some, [], Result, ok, err, arith,
}
use tobiko.Prelude.Dict.{is_in, lookup, insert}
use tobiko.Shelves.{added, removed, addme_to_shared_resource, removeme_from_shared_resource}
use tobiko.Shelves.Holding.{holds}
use tobiko.Resource.{Resources, State, setup_fixture, cleanup_fixture, not_found, FindError}
use tobiko.Resource.Sharing.{cleanup_fixture-used}
use tobiko.Resource.Consistent.{Finds, IsFaithful}
use tobiko.Resource.Reachable.{started, set_up, cleaned_up, resource-is_there}

abbrev find : Option String → Result (FindError String) (Option String)
find none = err not_found
find (some id) = ok (some id)

abbrev service : Resources (Option String) String String
service = record {
  id_of = λ r. r;
  set_up = λ w. (ok tt, w);
  quotas_are_ok = λ w. (ok true, w);
  resource_find = λ w. (find w, w);
  resource_create = λ w. (ok (some "1"), some "1");
  resource_delete = λ w. (ok tt, none);
}

abbrev start : State (Option String) String
start = record { resource = none; shelves = []; world = none }

abbrev one : State (Option String) String
one = (setup_fixture service "shelf" "server" false (ok tt) "a" start).1

abbrev two : State (Option String) String
two = (setup_fixture service "shelf" "server" false (ok tt) "b" one).1

abbrev left : State (Option String) String
left = (cleanup_fixture service "shelf" "server" (ok tt) "a" two).1

faithful : IsFaithful service (λ w. w)
faithful = record {
  set_up_keeps = λ w. refl;
  quotas_keep = λ w. refl;
  find_keeps = λ w. refl;
  finds = found_it;
  creates = λ w. refl;
  failed_keeps = λ w e h. absurd (ground (arith, h));
}
  where
    found_it : (w : Option String) → Finds (find w) w
    found_it none = refl
    found_it (some id) = refl

unused : (t : String) → holds start.shelves "shelf" "server" t ≡ false
unfolding holds is_in lookup
unused t = refl

still_used : holds left.shelves "shelf" "server" "b" ≡ true
unfolding holds is_in lookup setup_fixture cleanup_fixture added removed insert
    addme_to_shared_resource removeme_from_shared_resource
still_used = refl

resource-is_there_example :
    ((t : String) → holds left.shelves "shelf" "server" t ≡ true → left.world ≢ none)
    × ((r : String) → left.resource ≡ some r → left.world ≡ some r)
resource-is_there_example =
    resource-is_there service "shelf" "server" (λ w. w) faithful start left refl unused
      (cleaned_up (ok tt) "a" (set_up false (ok tt) "b" (set_up false (ok tt) "a" started)))

used : holds two.shelves "shelf" "server" "b" ≡ true
unfolding holds is_in lookup setup_fixture added insert addme_to_shared_resource
used = refl

cleanup_fixture-used_example :
    let (r, st') = cleanup_fixture service "shelf" "server" (ok tt) "a" two in
    (r ≡ ok tt)
    × (st'.world ≡ two.world)
    × (st'.resource ≡ two.resource)
    × (holds st'.shelves "shelf" "server" "b" ≡ true)
cleanup_fixture-used_example =
    cleanup_fixture-used service "shelf" "server" (ok tt) "a" "b" two used refl

-- Another process has its own fixture: it deletes the server while the attribute is kept here, and
-- the next setup here finds the attribute and makes no server.
abbrev deleted_elsewhere : State (Option String) String
deleted_elsewhere = record { resource = some "1"; shelves = []; world = none }

stale : (setup_fixture service "shelf" "server" false (ok tt) "c" deleted_elsewhere).1.world ≡ none
unfolding setup_fixture addme_to_shared_resource
stale = refl
