-- ===== src/Loader/Transparent.antt =====
-- The cache of loaders changes nothing of what is loaded, as long as the objects of Python stay.
use tobiko.Prelude.{
  String, Bool, true, false, ◌&&◌, ◌||◌, ◌≡◌, ◌↔◌, inl, inr, refl, sym, ap, ◌∙◌, subst, Option,
  none, some, Result, ok, err, eq_iff, arith, Bool-cases, Option-cases, if◌then◌else◌,
}
use tobiko.Loader.{
  ObjectId, root, child, same_id, Cached, not_cached, none_object, module_object, object,
  ObjectLoader, Loaders, Python, LoadError, no_reference, python, get_loader, put_loader, set, get,
  import_and_set, attribute, from_parent, or_load, load,
}

pub same_id_lem : (i j : ObjectId) → (same_id i j ≡ true) ↔ (i ≡ j)
unfolding same_id
same_id_lem i j = (forward i j, λ e. rw e (same j))
  where
    same : (i : ObjectId) → same_id i i ≡ true
    same (root n) = ground (arith, eq_iff n n)
    same (child p n) = ground (arith, eq_iff n n, same p)

    forward : (i j : ObjectId) → same_id i j ≡ true → i ≡ j
    forward (root n) (root m) h = ap root ((eq_iff n m).0 h)
    forward (root n) (child q m) h = absurd cc
    forward (child p n) (root m) h = absurd cc
    forward (child p n) (child q m) h =
        let a = forward p q (ground arith) in
        let b = (eq_iff n m).0 (ground arith) in rw a (rw b refl)

pub get_loader-put_loader :
    {O : Type 0} (i j : ObjectId) (l : ObjectLoader O) (loaders : Loaders O)
    → get_loader j (put_loader i l loaders) ≡ (if same_id i j then l else get_loader j loaders)
unfolding get_loader put_loader
get_loader-put_loader i j l loaders = refl

module _ {O E : Type 0} (py : Python O E) where
  abbrev is_module_or_none : Option O → Bool
  is_module_or_none none = false
  is_module_or_none (some o) = py.is_module o

  -- What is loaded without a cache and without loaders: an object that is no module must have weak
  -- references.
  abbrev kept : Option O → Result (LoadError E) (Option O)
  kept none = ok none
  kept (some o) = if py.is_module o || py.has_references o then ok (some o) else err no_reference

  abbrev imported : Result E O → Result (LoadError E) (Option O)
  imported (err e) = err (python e)
  imported (ok o) = kept (some o)

  abbrev named : ObjectId → String → Bool → Result E (Option O) → Result (LoadError E) (Option O)
  named p n in_module (ok obj) = kept obj
  named p n in_module (err e) =
      if py.is_attribute_error e && in_module
      then imported (py.import_module (child p n))
      else err (python e)

  abbrev of_parent :
      ObjectId → String → Result (LoadError E) (Option O) → Result (LoadError E) (Option O)
  of_parent p n (err e) = err e
  of_parent p n (ok parent) = named p n (is_module_or_none parent) (py.getattr parent n)

  unfoldable pub resolve : ObjectId → Result (LoadError E) (Option O)
  resolve (root n) = imported (py.import_module (root n))
  resolve (child p n) = of_parent p n (resolve p)

  -- What a loader keeps is what its id resolves to.
  abbrev Entry : ObjectId → ObjectLoader O → Type 0
  Entry id l = elim l.cached [
    | not_cached ↦ l.is_module ≡ false
    | none_object ↦ (resolve id ≡ ok none) × (l.is_module ≡ false)
    | module_object ↦
        (o : O) × (resolve id ≡ ok (some o)) × (py.is_module o ≡ true) × (l.is_module ≡ true)
    | object o ↦ (resolve id ≡ ok (some o)) × (py.is_module o ≡ false) × (l.is_module ≡ false)
  ]

  unfoldable pub IsConsistent : Loaders O → Type 0
  IsConsistent loaders = (id : ObjectId) → Entry id (get_loader id loaders)

  -- An outcome of loading an id: the cache stays right, and the loader knows whether it is a module.
  abbrev Loads : ObjectId → Result (LoadError E) (Option O) × Loaders O → Type 0
  Loads id (ok obj, loaders) =
      (resolve id ≡ ok obj)
      × IsConsistent loaders
      × ((get_loader id loaders).is_module ≡ is_module_or_none obj)
  Loads id (err e, loaders) = (resolve id ≡ err e) × IsConsistent loaders

  abbrev is_module_of : Result (LoadError E) (Option O) → Bool
  is_module_of (ok obj) = is_module_or_none obj
  is_module_of (err e) = false

  Loads-resolve :
      (id : ObjectId) (o : Result (LoadError E) (Option O) × Loaders O)
      → Loads id o
      → (o.0 ≡ resolve id) × IsConsistent o.1
  Loads-resolve id (ok obj, loaders) l = (sym l.0, l.1)
  Loads-resolve id (err e, loaders) l = (sym l.0, l.1)

  put-IsConsistent :
      (id : ObjectId) (l : ObjectLoader O) (loaders : Loaders O)
      → Entry id l
      → IsConsistent loaders
      → IsConsistent (put_loader id l loaders)
  unfolding IsConsistent
  put-IsConsistent id l loaders e h j = elim (Bool-cases (same_id id j)) [
    | inr other ↦ rw (get_loader-put_loader id j l loaders) (rw other (h j))
    | inl same ↦
        rw (get_loader-put_loader id j l loaders)
          (rw same (subst (λ i. Entry i l) ((same_id_lem id j).0 same) e))
  ]

  get-put :
      (id : ObjectId) (l : ObjectLoader O) (loaders : Loaders O)
      → get_loader id (put_loader id l loaders) ≡ l
  get-put id l loaders =
      rw (get_loader-put_loader id id l loaders) (rw ((same_id_lem id id).1 refl) refl)

  refused :
      (id : ObjectId) (l : ObjectLoader O)
      → resolve id ≡ err no_reference
      → Entry id l
      → Entry id (record { cached = l.cached; is_module = false })
  refused id l e h = go l.cached h
    where
      go :
          (c : Cached O)
          → Entry id (record { cached = c; is_module = l.is_module })
          → Entry id (record { cached = c; is_module = false })
      go not_cached h = refl
      go none_object h = absurd (let r = h.0 in cc)
      go module_object h = absurd (let r = h.1 in cc)
      go (object o) h = absurd (let r = h.0 in cc)

  set-Loads :
      (id : ObjectId) (obj : Option O) (loaders : Loaders O)
      → resolve id ≡ kept obj
      → IsConsistent loaders
      → Loads id (set py id obj loaders)
  unfolding set IsConsistent
  set-Loads id none loaders e h =
      (e, put-IsConsistent id _ loaders (e, refl) h, ap (λ l. l.is_module) (get-put id _ loaders))
  set-Loads id (some o) loaders e h = elim (Bool-cases (py.is_module o)) [
    | inl m ↦
        let there : resolve id ≡ ok (some o) = e ∙ (rw m refl) in
        rw m (
          there,
          put-IsConsistent id _ loaders (o, there, m, refl) h,
          ap (λ l. l.is_module) (get-put id _ loaders) ∙ sym m,
        )
    | inr m ↦ elim (Bool-cases (py.has_references o)) [
      | inl r ↦
          let there : resolve id ≡ ok (some o) = e ∙ (rw m (rw r refl)) in
          rw m (
            rw r (
              there,
              put-IsConsistent id _ loaders (there, m, refl) h,
              ap (λ l. l.is_module) (get-put id _ loaders) ∙ sym m,
            ))
      | inr r ↦
          let raised : resolve id ≡ err no_reference = e ∙ (rw m (rw r refl)) in
          rw m (
            rw r (
              raised,
              put-IsConsistent id _ loaders (refused id (get_loader id loaders) raised (h id)) h,
            ))
    ]
  ]

  import-Loads :
      (id : ObjectId) (r : Result E O) (loaders : Loaders O)
      → resolve id ≡ imported r
      → IsConsistent loaders
      → Loads id (import_and_set py id r loaders)
  unfolding import_and_set
  import-Loads id (err e) loaders eq h = (eq, h)
  import-Loads id (ok o) loaders eq h = set-Loads id (some o) loaders eq h

  attribute-Loads :
      (p : ObjectId) (n : String) (in_module : Bool) (r : Result E (Option O)) (loaders : Loaders O)
      → (get_loader p loaders).is_module ≡ in_module
      → resolve (child p n) ≡ named p n in_module r
      → IsConsistent loaders
      → Loads (child p n) (attribute py p n r loaders)
  unfolding attribute
  attribute-Loads p n in_module (ok obj) loaders flag eq h = set-Loads (child p n) obj loaders eq h
  attribute-Loads p n in_module (err e) loaders flag eq h =
      elim (Bool-cases (py.is_attribute_error e && in_module)) [
        | inl both ↦ rw flag (
            rw both (
              import-Loads (child p n) (py.import_module (child p n)) loaders (eq ∙ rw both refl)
                h))
        | inr other ↦ rw flag (rw other (eq ∙ rw other refl, h))
      ]

  from_parent-Loads :
      (p : ObjectId) (n : String) (o : Result (LoadError E) (Option O) × Loaders O)
      → Loads p o
      → Loads (child p n) (from_parent py p n o)
  unfolding from_parent resolve
  from_parent-Loads p n (err e, loaders) l = (ap (of_parent p n) l.0, l.1)
  from_parent-Loads p n (ok parent, loaders) l =
      attribute-Loads p n (is_module_or_none parent) (py.getattr parent n) loaders l.2
        (ap (of_parent p n) l.0) l.1

  module _
      (modules : (id : ObjectId) (o : O)
        → py.sys_modules id ≡ some o
        → resolve id ≡ ok (some o)) where
    or_load-Loads :
        (cached : Bool) (id : ObjectId) (loaders : Loaders O)
        (loaded : Result (LoadError E) (Option O) × Loaders O)
        → IsConsistent loaders
        → Loads id loaded
        → Loads id (or_load py cached (get py id (get_loader id loaders).cached) loaders loaded)
    unfolding or_load get IsConsistent
    or_load-Loads false id loaders loaded h l = l
    or_load-Loads true id loaders loaded h l = hit (get_loader id loaders).cached (h id)
      where
        same_kind :
            (o o' : O)
            → resolve id ≡ ok (some o)
            → resolve id ≡ ok (some o')
            → py.is_module o ≡ py.is_module o'
        same_kind o o' a b = ap is_module_of (sym a ∙ b)

        hit :
            (c : Cached O)
            → Entry id (record { cached = c; is_module = (get_loader id loaders).is_module })
            → Loads id (or_load py true (get py id c) loaders loaded)
        hit not_cached e = l
        hit none_object e = (e.0, h, e.1)
        hit module_object (o, there, m, flag) = elim (Option-cases (py.sys_modules id)) [
          | inl missing ↦ rw missing l
          | inr (o', found) ↦
              rw found
                (modules id o' found, h, flag ∙ sym m ∙ same_kind o o' there (modules id o' found))
        ]
        hit (object o) e = elim (Bool-cases (py.alive o)) [
          | inr lost ↦ rw lost l
          | inl lives ↦ rw lives (e.0, h, e.2 ∙ sym e.1)
        ]

    load-Loads :
        (cached : Bool) (id : ObjectId) (loaders : Loaders O)
        → IsConsistent loaders
        → Loads id (load py cached id loaders)
    unfolding load
    load-Loads cached (root n) loaders h =
        or_load-Loads cached (root n) loaders _ h
          (import-Loads (root n) (py.import_module (root n)) loaders (unfold resolve in refl) h)
    load-Loads cached (child p n) loaders h =
        or_load-Loads cached (child p n) loaders _ h
          (from_parent-Loads p n _ (load-Loads cached p loaders h))

    -- Where sys.modules has under an id only what the id resolves to, loading an id gives what it
    -- resolves to without a cache, or the same error, whatever is cached and whether the cache is asked,
    -- as long as the cache was right before; and the cache stays right.
    pub load-resolve :
        (cached : Bool) (id : ObjectId) (loaders : Loaders O)
        → IsConsistent loaders
        → ((load py cached id loaders).0 ≡ resolve id) × IsConsistent (load py cached id loaders).1
    load-resolve cached id loaders h = Loads-resolve id _ (load-Loads cached id loaders h)
