-- ===== src/Resource/Sharing.antt =====
-- A test that cleans up leaves a resource alone that another test uses.
use tobiko.Prelude.{
  ◌≡◌, ◌∙◌, refl, ap, String, true, false, [], ◌∷◌, Result, ok, err, arith, str_eq,
}
use tobiko.Prelude.Dict.{is_in, lookup}
use tobiko.Shelves.{Tests, Shelves, or_empty, removed, removeme_from_shared_resource}
use tobiko.Shelves.Holding.{holds, share_lem, is_in-discard}
use tobiko.Resource.{
  ResourceError, shelf_error, Resources, State, unless_used, if_opened, cleanup_fixture,
}

module _ {W R E : Type 0} (resources : Resources W R E) (shelf name : String) where
  unless_used_lem :
      (u : String) (tests : Tests) (st : State W R)
      → is_in u tests ≡ true
      → unless_used resources shelf name tests st ≡ (ok tt, st)
  unfolding unless_used is_in
  unless_used_lem u [] st h = absurd (ground (arith, h))
  unless_used_lem u (t ∷ ts) st h = refl

  remaining :
      (t u : String) (shelves : Shelves)
      → holds shelves shelf name u ≡ true
      → str_eq t u ≡ false
      → is_in u (removed shelf name t shelves).0 ≡ true
  unfolding removed holds
  remaining t u shelves h e =
      let tests = or_empty (lookup name (or_empty (lookup shelf shelves))) in
      ground (arith, h, e, is_in-discard t u tests)

  -- What the cleanup raises: nothing, or the exception of the last attempt to open the shelf.
  abbrev pub raises : Result E (Unit {0}) → Result (ResourceError E) (Unit {0})
  raises (ok _) = ok tt
  raises (err e) = err (shelf_error e)

  -- When a test cleans up a resource that another test uses, the fixture calls no operation of the
  -- service: the world and the attribute `_resource` are as before, and the other test still uses the
  -- resource. It raises nothing where one of the attempts to open the shelf opens it, and else the
  -- exception of the last one.
  pub cleanup_fixture-used :
      (opened : Result E (Unit {0})) (t u : String) (st : State W R)
      → holds st.shelves shelf name u ≡ true
      → str_eq t u ≡ false
      → let (r, st') = cleanup_fixture resources shelf name opened t st in
        (r ≡ raises opened)
        × (st'.world ≡ st.world)
        × (st'.resource ≡ st.resource)
        × (holds st'.shelves shelf name u ≡ true)
  unfolding cleanup_fixture if_opened removeme_from_shared_resource
  cleanup_fixture-used (err x) t u st h e = (refl, refl, refl, h)
  cleanup_fixture-used (ok _) t u st h e =
      let after = removed shelf name t st.shelves in
      let same =
        unless_used_lem u after.0 (record st { shelves = after.1 })
          (remaining t u st.shelves h e) in
      (
        ap (λ p. p.0) same,
        ap (λ p. p.1.world) same,
        ap (λ p. p.1.resource) same,
        ap (λ p. holds p.1.shelves shelf name u) same
            ∙ ground (arith, h, e, (share_lem shelf name t st.shelves shelf name u).1),
      )
