-- ===== src/Resource/Reachable.antt =====
-- Every reachable state is consistent: a resource that a test uses is there.
use tobiko.Prelude.{
  ◌≡◌, ◌≢◌, ◌∙◌, refl, sym, ap, subst, String, Bool, true, false, Option, none, some, [], ◌∷◌,
  Result, ok, err, arith, inl, inr, str_eq, eq_iff, Bool-cases, if◌then◌else◌,
}
use tobiko.Prelude.Dict.{is_in, lookup}
use tobiko.Shelves.{
  Tests, discard, Shelves, or_empty, removed, addme_to_shared_resource,
  removeme_from_shared_resource,
}
use tobiko.Shelves.Holding.{holds, holds-update, share_lem}
use tobiko.Resource.{
  ResourceError, Resources, State, bind, call, answer, keep, create_if_missing, check_quotas,
  try_create_resource, share, setup_fixture, delete_with_id, cleanup_resource, unless_used, shelved,
  if_opened, cleanup_fixture,
}
use tobiko.Resource.Consistent.{
  Gives, IsFaithful, IsConsistent, Keeps, Any, Seen, bind_rule, moved, call-Keeps,
  get_resource-Keeps,
}

module _ {W R E : Type 0} (resources : Resources W R E) (shelf name : String) (view : W → Option R)
    (faithful : IsFaithful resources view) where
  created-Keeps :
      (r : Result E (Option R) × W) (st : State W R)
      → Gives r.0 (view r.1)
      → view st.world ≡ none
      → IsConsistent resources shelf name view faithful st
      → Keeps resources shelf name view faithful {A = Unit {0}}
          (Any resources shelf name view faithful)
          (bind (keep resources shelf name) (answer r st))
  unfolding keep
  created-Keeps (ok o, w) st g v h =
      (record { used = λ t u. absurd (h.used t u v); cached = λ r c. g ∙ c }, tt)
  created-Keeps (err e, w) st g v h = record {
    used = λ t u. absurd (h.used t u v);
    cached = λ r c. absurd (ground (arith, v, h.cached r c));
  }

  create_if_missing-Keeps :
      (o : Option R) (st : State W R)
      → view st.world ≡ o
      → IsConsistent resources shelf name view faithful st
      → Keeps resources shelf name view faithful {A = Unit {0}}
          (Any resources shelf name view faithful)
          (create_if_missing resources shelf name o st)
  unfolding create_if_missing call
  create_if_missing-Keeps (some r) st v h = (h, tt)
  create_if_missing-Keeps none st v h =
      created-Keeps (resources.resource_create st.world) st (faithful.creates st.world) v h

  check_quotas-Keeps :
      (b : Bool) (st : State W R)
      → IsConsistent resources shelf name view faithful st
      → Keeps resources shelf name view faithful {A = Unit {0}}
          (Any resources shelf name view faithful)
          (check_quotas resources shelf name b st)
  unfolding check_quotas
  check_quotas-Keeps true st h = (h, tt)
  check_quotas-Keeps false st h = h

  try_create_resource-Keeps :
      (st : State W R)
      → IsConsistent resources shelf name view faithful st
      → Keeps resources shelf name view faithful {A = Unit {0}}
          (Any resources shelf name view faithful)
          (try_create_resource resources shelf name st)
  unfolding try_create_resource
  try_create_resource-Keeps st h =
      bind_rule resources shelf name view faithful (Any resources shelf name view faithful)
        (Any resources shelf name view faithful) _ _
        (call-Keeps resources shelf name view faithful resources.quotas_are_ok st
          (faithful.quotas_keep st.world) h)
        (λ b st1 h1 _.
          bind_rule resources shelf name view faithful (Any resources shelf name view faithful)
            (Any resources shelf name view faithful) _ _ (check_quotas-Keeps b st1 h1)
            (λ _ st2 h2 _.
              bind_rule resources shelf name view faithful
                (Seen resources shelf name view faithful st2.shelves)
                (Any resources shelf name view faithful) _ _
                (get_resource-Keeps resources shelf name view faithful st2 h2)
                (λ o st3 h3 s. create_if_missing-Keeps o st3 s.0 h3)))

  share-Keeps :
      (opened : Result E (Unit {0})) (t : String) (o : Option R) (st : State W R)
      → view st.world ≡ o
      → IsConsistent resources shelf name view faithful st
      → Keeps resources shelf name view faithful {A = Unit {0}}
          (Any resources shelf name view faithful)
          (share resources shelf name opened t o st)
  unfolding share shelved addme_to_shared_resource
  share-Keeps opened t none st v h = h
  share-Keeps (err e) t (some r) st v h = h
  share-Keeps (ok _) t (some r) st v h =
      (record { used = λ u k. subst (λ x. x ≢ none) (sym v) (ground arith); cached = h.cached }, tt)

  -- Without a user, the resource may go, and the attribute with it.
  deleted-Keeps :
      (r : Result E (Unit {0}) × W) (st : State W R)
      → ((t : String) → holds st.shelves shelf name t ≡ false)
      → ((e : E) → r.0 ≡ err e → view r.1 ≡ view st.world)
      → IsConsistent resources shelf name view faithful st
      → Keeps resources shelf name view faithful {A = Unit {0}}
          (Any resources shelf name view faithful)
          (bind (λ _. keep resources shelf name none) (answer r st))
  unfolding keep
  deleted-Keeps (ok _, w) st n f h = (
    record {
      used = λ t u. absurd (ground (arith, u, n t));
      cached = λ r c. absurd (ground (arith, c));
    },
    tt,
  )
  deleted-Keeps (err e, w) st n f h = moved resources shelf name view faithful st w (f e refl) h

  delete_with_id-Keeps :
      (o : Option R) (st : State W R)
      → ((t : String) → holds st.shelves shelf name t ≡ false)
      → IsConsistent resources shelf name view faithful st
      → Keeps resources shelf name view faithful {A = Unit {0}}
          (Any resources shelf name view faithful)
          (delete_with_id resources shelf name o st)
  unfolding delete_with_id call
  delete_with_id-Keeps none st n h = (h, tt)
  delete_with_id-Keeps (some r) st n h = elim (Bool-cases (str_eq (resources.id_of r) "")) [
    | inl e ↦ rw e (h, tt)
    | inr e ↦
        rw e (
          deleted-Keeps (resources.resource_delete st.world) st n (faithful.failed_keeps st.world)
            h)
  ]

  unless_used-Keeps :
      (tests : Tests) (st : State W R)
      → ((t : String) → holds st.shelves shelf name t ≡ is_in t tests)
      → IsConsistent resources shelf name view faithful st
      → Keeps resources shelf name view faithful {A = Unit {0}}
          (Any resources shelf name view faithful)
          (unless_used resources shelf name tests st)
  unfolding unless_used cleanup_resource is_in
  unless_used-Keeps (t ∷ ts) st n h = (h, tt)
  unless_used-Keeps [] st n h =
      bind_rule resources shelf name view faithful
        (Seen resources shelf name view faithful st.shelves)
        (Any resources shelf name view faithful) _ _
        (get_resource-Keeps resources shelf name view faithful st h)
        (λ o st1 h1 s.
          delete_with_id-Keeps o st1 (λ t. ap (λ x. holds x shelf name t) s.1 ∙ n t) h1)

  remaining_users :
      (t u : String) (shelves : Shelves)
      → holds (removed shelf name t shelves).1 shelf name u
        ≡ is_in u (removed shelf name t shelves).0
  unfolding removed
  remaining_users t u shelves =
      let tests = or_empty (lookup name (or_empty (lookup shelf shelves))) in
      holds-update shelf name (if is_in t tests then discard t tests else tests) shelves shelf name
        u
      ∙ ground (arith, (eq_iff shelf shelf).1 refl, (eq_iff name name).1 refl)

  cleanup_fixture-Keeps :
      (opened : Result E (Unit {0})) (t : String) (st : State W R)
      → IsConsistent resources shelf name view faithful st
      → Keeps resources shelf name view faithful {A = Unit {0}}
          (Any resources shelf name view faithful)
          (cleanup_fixture resources shelf name opened t st)
  unfolding cleanup_fixture if_opened removeme_from_shared_resource
  cleanup_fixture-Keeps (err e) t st h = h
  cleanup_fixture-Keeps (ok _) t st h =
      let after = removed shelf name t st.shelves in
      unless_used-Keeps after.0 (record st { shelves = after.1 })
        (λ u. remaining_users t u st.shelves)
        (record {
          used = λ u k.
              h.used u (ground (arith, k, (share_lem shelf name t st.shelves shelf name u).1));
          cached = h.cached;
        })

  setup_fixture-Keeps :
      (prevent_create : Bool) (opened : Result E (Unit {0})) (t : String) (st : State W R)
      → IsConsistent resources shelf name view faithful st
      → Keeps resources shelf name view faithful {A = Unit {0}}
          (Any resources shelf name view faithful)
          (setup_fixture resources shelf name prevent_create opened t st)
  unfolding setup_fixture
  setup_fixture-Keeps true opened t st h =
      bind_rule resources shelf name view faithful (Any resources shelf name view faithful)
        (Any resources shelf name view faithful) _ _
        (call-Keeps resources shelf name view faithful resources.set_up st
          (faithful.set_up_keeps st.world) h)
        (λ _ st1 h1 _.
          bind_rule resources shelf name view faithful
            (Seen resources shelf name view faithful st1.shelves)
            (Any resources shelf name view faithful) _ _
            (get_resource-Keeps resources shelf name view faithful st1 h1)
            (λ _ st2 h2 _.
              bind_rule resources shelf name view faithful
                (Seen resources shelf name view faithful st2.shelves)
                (Any resources shelf name view faithful) _ _
                (get_resource-Keeps resources shelf name view faithful st2 h2)
                (λ o st3 h3 s. share-Keeps opened t o st3 s.0 h3)))
  setup_fixture-Keeps false opened t st h =
      bind_rule resources shelf name view faithful (Any resources shelf name view faithful)
        (Any resources shelf name view faithful) _ _
        (call-Keeps resources shelf name view faithful resources.set_up st
          (faithful.set_up_keeps st.world) h)
        (λ _ st1 h1 _.
          bind_rule resources shelf name view faithful (Any resources shelf name view faithful)
            (Any resources shelf name view faithful) _ _ (try_create_resource-Keeps st1 h1)
            (λ _ st2 h2 _.
              bind_rule resources shelf name view faithful
                (Seen resources shelf name view faithful st2.shelves)
                (Any resources shelf name view faithful) _ _
                (get_resource-Keeps resources shelf name view faithful st2 h2)
                (λ o st3 h3 s. share-Keeps opened t o st3 s.0 h3)))

  -- The states that setups and cleanups of tests with one fixture reach, whatever they raise.
  pub data Reachable (start : State W R) : State W R → Type 0 where
    started : Reachable start start
    set_up :
        (prevent_create : Bool) (opened : Result E (Unit {0})) (t : String) {st : State W R}
        → Reachable start st
        → Reachable start (setup_fixture resources shelf name prevent_create opened t st).1
    cleaned_up :
        (opened : Result E (Unit {0})) (t : String) {st : State W R}
        → Reachable start st
        → Reachable start (cleanup_fixture resources shelf name opened t st).1

  state_of :
      (r : Result (ResourceError E) (Unit {0}) × State W R)
      → Keeps resources shelf name view faithful {A = Unit {0}}
          (Any resources shelf name view faithful)
          r
      → IsConsistent resources shelf name view faithful r.1
  state_of (ok _, st) h = h.0
  state_of (err e, st) h = h

  Reachable-IsConsistent :
      {start st : State W R}
      → IsConsistent resources shelf name view faithful start
      → Reachable start st
      → IsConsistent resources shelf name view faithful st
  Reachable-IsConsistent h started = h
  Reachable-IsConsistent h (set_up prevent_create opened t {st} before) =
      state_of _ (setup_fixture-Keeps prevent_create opened t st (Reachable-IsConsistent h before))
  Reachable-IsConsistent h (cleaned_up opened t {st} before) =
      state_of _ (cleanup_fixture-Keeps opened t st (Reachable-IsConsistent h before))

  -- Where the service does what it documents, and the tests share one fixture, which begins with
  -- `_resource` None and no users: after any setups and cleanups, of whatever tests and in whatever
  -- order, whether they raise or not, a resource that some test uses is there, and `_resource` is
  -- None or that resource.
  pub resource-is_there :
      (start st : State W R)
      → start.resource ≡ none
      → ((t : String) → holds start.shelves shelf name t ≡ false)
      → Reachable start st
      → ((t : String) → holds st.shelves shelf name t ≡ true → view st.world ≢ none)
        × ((r : R) → st.resource ≡ some r → view st.world ≡ some r)
  resource-is_there start st n u path =
      let initial : IsConsistent resources shelf name view faithful start = record {
        used = λ t k. absurd (ground (arith, k, u t));
        cached = λ r k. absurd (ground (arith, k, n));
      } in
      let end = Reachable-IsConsistent initial path in (end.used, end.cached)
