-- ===== src/Cached/Once.antt =====
-- A cached property is computed once between two deletions.
use tobiko.Prelude.{◌≡◌, refl, inl, inr, Option-cases, none, some, Result, ok, err, arith, eq_iff}
use tobiko.Prelude.Dict.{insert, remove, lookup-insert, lookup-remove}
use tobiko.Cached.{
  CachedError, CachedProperty, Attributes, get, set, delete, get_cached, set_cached, delete_cached,
  after_setter, after_deleter, with_value, compute,
}

module _ {O V E : Type 0} (object : Attributes O V) (p : CachedProperty O V E) where
  cached_after_set_cached : (v : V) (o : O) → get_cached object p (set_cached object p v o) ≡ some v
  unfolding get_cached set_cached
  cached_after_set_cached v o =
      let d = object.attributes o in
      ground (
        arith,
        object.attributes-with (insert p.cached_id v d) o,
        lookup-insert p.cached_id p.cached_id v d,
        eq_iff p.cached_id p.cached_id,
      )

  cached_after_delete_cached : (o : O) → get_cached object p (delete_cached object p o) ≡ none
  unfolding get_cached delete_cached
  cached_after_delete_cached o =
      let d = object.attributes o in
      ground (
        arith,
        object.attributes-with (remove p.cached_id d) o,
        lookup-remove p.cached_id p.cached_id d,
        eq_iff p.cached_id p.cached_id,
      )

  setter_cached :
      (v : V) (r : Result E (Unit {0}) × O)
      → (after_setter object p v r).0 ≡ ok tt
      → get_cached object p (after_setter object p v r).1 ≡ some v
  unfolding after_setter
  setter_cached v (ok x, o) h = cached_after_set_cached v o
  setter_cached v (err e, o) h = cc

  set_cached_found :
      (v : V) (o : O)
      → (set object p v o).0 ≡ ok tt
      → get_cached object p (set object p v o).1 ≡ some v
  unfolding set get_cached
  set_cached_found v o h = elim (Option-cases p.fset) [
    | inl none' ↦ rw (none', set) (cached_after_set_cached v o)
    | inr (f, e) ↦ rw (e, set) (setter_cached v (f v o) (rw (e, set) at h))
  ]

  get_found : (v : V) (o : O) → get_cached object p o ≡ some v → get object p o ≡ (ok v, o)
  unfolding get
  get_found v o h = ground (arith, h)

  with_value_found :
      (v w : V) (r : Result (CachedError E) (Unit {0}) × O)
      → (r.0 ≡ ok tt → get_cached object p r.1 ≡ some v)
      → (with_value object p v r).0 ≡ ok w
      → get_cached object p (with_value object p v r).1 ≡ some w
  unfolding with_value
  with_value_found v w (ok x, o) k h = ground (arith, k refl)
  with_value_found v w (err e, o) k h = cc

  compute_found :
      (w : V) (r : Result E V × O)
      → (compute object p r).0 ≡ ok w
      → get_cached object p (compute object p r).1 ≡ some w
  unfolding compute
  compute_found w (ok v, o) h = with_value_found v w (set object p v o) (set_cached_found v o) h
  compute_found w (err e, o) h = cc

  get_cached_found :
      (w : V) (o : O) → (get object p o).0 ≡ ok w → get_cached object p (get object p o).1 ≡ some w
  unfolding get
  get_cached_found w o h = elim (Option-cases (get_cached object p o)) [
    | inr (v, e) ↦ ground (arith, e)
    | inl e ↦ elim (Option-cases p.fget) [
      | inl none' ↦ ground (arith, e)
      | inr (f, g) ↦ ground (arith, e, compute_found w (f o))
    ]
  ]

  -- A get that returns is followed by gets that return the same value and change nothing, with no
  -- call of the getter or the setter; and so is a set that returns, with the value that was set.
  pub get_again :
      ((o : O) (v : V)
        → (get object p o).0 ≡ ok v
        → get object p (get object p o).1 ≡ (ok v, (get object p o).1))
      × ((o : O) (v : V)
          → (set object p v o).0 ≡ ok tt
          → get object p (set object p v o).1 ≡ (ok v, (set object p v o).1))
  get_again = (
    λ o v h. get_found v (get object p o).1 (get_cached_found v o h),
    λ o v h. get_found v (set object p v o).1 (set_cached_found v o h),
  )

  deleter_cached :
      (r : Result E (Unit {0}) × O)
      → (after_deleter object p r).0 ≡ ok tt
      → get_cached object p (after_deleter object p r).1 ≡ none
  unfolding after_deleter
  deleter_cached (ok x, o) h = cached_after_delete_cached o
  deleter_cached (err e, o) h = cc

  -- After a delete that returns, the next get is what the getter gives, with its value set.
  pub get-delete :
      (o : O) (f : O → Result E V × O)
      → p.fget ≡ some f
      → (delete object p o).0 ≡ ok tt
      → get object p (delete object p o).1 ≡ compute object p (f (delete object p o).1)
  unfolding get delete
  get-delete o f g h =
      let cleared : get_cached object p (delete object p o).1 ≡ none = elim (Option-cases p.fdel) [
        | inl none' ↦ rw (none', delete) (cached_after_delete_cached o)
        | inr (d, e) ↦ rw (e, delete) (deleter_cached (d o) (rw (e, delete) at h))
      ] in
      ground (arith, cleared)
