-- ===== src/Version/Range.antt =====
-- What a range of versions is.
use tobiko.Prelude.{
  ◌≡◌, ◌∙◌, refl, ap, String, Bool, true, false, not, ◌&&◌, ◌||◌, Option, none, some, ok, err,
  arith, if◌then◌else◌,
}
use tobiko.Version.{
  VersionType, version, version_mismatch, get_version, check_min, check_max, check_version,
  match_version,
}

module _ {V : Type 0} (search : String → Option String) (parse : String → Option V) where
  -- What an optional bound reads as.
  abbrev pub Reads : Option (VersionType V) → Option V → Type 0
  Reads none none = Unit
  Reads (some bound) (some v) = get_version search parse bound ≡ ok v
  Reads _ _ = ⊥

  module _ (less at_least : V → V → Bool) where
    abbrev pub above : V → Option V → Bool
    above v none = true
    above v (some lowest) = not (less v lowest)

    abbrev pub below : V → Option V → Bool
    below v none = true
    below v (some limit) = not (at_least v limit)

    check_min_lem :
        (v : V) (lower upper : Option (VersionType V)) (lowest : Option V)
        → Reads lower lowest
        → check_min search parse less at_least v lower upper
          ≡ (if above v lowest then ok tt else err (version_mismatch v upper))
    unfolding check_min
    check_min_lem v none upper none h = refl
    check_min_lem v none upper (some k) h = absurd h
    check_min_lem v (some l) upper none h = absurd h
    check_min_lem v (some l) upper (some k) h = ground arith

    map_version : Option V → Option (VersionType V)
    map_version none = none
    map_version (some w) = some (version w)

    check_max_lem :
        (v : V) (upper : Option (VersionType V)) (limit : Option V)
        → Reads upper limit
        → check_max search parse less at_least v upper
          ≡ (if below v limit then ok tt else err (version_mismatch v (map_version limit)))
    unfolding check_max map_version
    check_max_lem v none none h = refl
    check_max_lem v none (some k) h = absurd h
    check_max_lem v (some l) none h = absurd h
    check_max_lem v (some l) (some k) h = ground arith

    match_version_lem :
        (actual : VersionType V) (lower upper : Option (VersionType V))
        → (v : V) (lowest limit : Option V) → get_version search parse actual ≡ ok v
        → Reads lower lowest
        → Reads upper limit
        → match_version search parse less at_least actual lower upper
          ≡ ok (above v lowest && below v limit)
    unfolding match_version check_version
    match_version_lem actual lower upper v lowest limit ha hl hu =
        ground (arith, check_min_lem v lower upper lowest hl, check_max_lem v upper limit hu)

    -- Versions are ordered; `at_least` is `>=`.
    module _ (at_least_lem : (v w : V) → at_least v w ≡ not (less v w))
        (less_trans : (u v w : V) → less u v ≡ true → less v w ≡ true → less u w ≡ true)
        (less_between : (u v w : V) → less u w ≡ true → (less u v || less v w) ≡ true) where
      split_or :
          (v middle : V) (lowest limit : Option V)
          → below middle limit ≡ true
          → above middle lowest ≡ true
          → (above v lowest && below v limit) ≡ (
              (above v lowest && below v (some middle)) || (above v (some middle) && below v limit))
      split_or v middle none none h k = ground (arith, at_least_lem v middle)
      split_or v middle none (some w) h k = ground (
        arith,
        at_least_lem v middle,
        at_least_lem v w,
        at_least_lem middle w,
        less_trans v middle w,
      )
      split_or v middle (some u) none h k =
          ground (arith, at_least_lem v middle, less_between v middle u)
      split_or v middle (some u) (some w) h k = ground (
        arith,
        at_least_lem v middle,
        at_least_lem v w,
        at_least_lem middle w,
        less_trans v middle w,
        less_between v middle u,
      )

      -- Where the texts read as versions and the bounds are in order, a version is in the range of
      -- the first and the last bound if it is in one of the two that the bound between them makes,
      -- and never in both.
      pub match_version-split :
          (actual : VersionType V) (lower upper : Option (VersionType V)) (bound : VersionType V)
          → (v : V) (lowest limit : Option V) (middle : V) → get_version search parse actual ≡ ok v
          → Reads lower lowest
          → Reads upper limit
          → get_version search parse bound ≡ ok middle
          → below middle limit ≡ true
          → above middle lowest ≡ true
          → (b : Bool) × (c : Bool) × (match_version search parse less at_least actual lower
                (some bound)
              ≡ ok b)
            × (match_version search parse less at_least actual (some bound) upper ≡ ok c)
            × (match_version search parse less at_least actual lower upper ≡ ok (b || c))
            × ((b && c) ≡ false)
      match_version-split actual lower upper bound v lowest limit middle ha hl hu hm h k = (
        above v lowest && below v (some middle),
        above v (some middle) && below v limit,
        match_version_lem actual lower (some bound) v lowest (some middle) ha hl hm,
        match_version_lem actual (some bound) upper v (some middle) limit ha hm hu,
        match_version_lem actual lower upper v lowest limit ha hl hu
            ∙ ap ok (split_or v middle lowest limit h k),
        ground (arith, at_least_lem v middle),
      )
