-- ===== src/Select/Filtering.antt =====
-- Which objects `with_attributes` and `without_attributes` keep.
use mathlib.Core.List.{Perm, perm_middle}
use mathlib.Core.List.Perm
use tobiko.Prelude.{
  String, ◌≡◌, ◌∙◌, sym, ap, subst, not, if◌then◌else◌, Bool, true, false, Option, List, [], ◌∷◌,
  ◌++◌, Result, ok, arith,
}
use tobiko.Select.{
  SelectError, Matcher, Attributes, equal_attributes, select, with_attributes, without_attributes,
}

module _ {T : Type 0} (p : T → Result (SelectError T) Bool) where
  -- What a successful selection from a longer list did with its head.
  select-cons :
      (obj : T) (objs kept : List T)
      → select p true (obj ∷ objs) ≡ ok kept
      → (b : Bool) × (rest : List T) × (p obj ≡ ok b)
        × (select p true objs ≡ ok rest)
        × (kept ≡ (if b then obj ∷ rest else rest))
  unfolding select
  select-cons obj objs kept h = ground arith

  select-cons_of :
      (obj : T) (objs rest : List T) (b : Bool)
      → p obj ≡ ok b
      → select p true objs ≡ ok rest
      → select p true (obj ∷ objs) ≡ ok (if b then obj ∷ rest else rest)
  unfolding select
  select-cons_of obj objs rest b h k = ground arith

module _ {T V : Type 0} (eq : V → V → Bool) (attr : T → String → Option V) where
  equal_attributes-append :
      (obj : T) (a b : Attributes V) (x y : Bool)
      → equal_attributes eq attr obj a false ≡ ok x
      → (x ≡ true → equal_attributes eq attr obj b false ≡ ok y)
      → equal_attributes eq attr obj (a ++ b) false ≡ ok (elim x [ true ↦ y | false ↦ false ])
  unfolding equal_attributes
  equal_attributes-append obj [] b x y h k = ground arith
  equal_attributes-append obj ((key, m) ∷ a) b x y h k =
      ground (arith, equal_attributes-append obj a b x y)

  append_step :
      (obj : T) (objs : List T) (a b : Attributes V) (x : Bool) (ra left : List T)
      → equal_attributes eq attr obj a false ≡ ok x
      → with_attributes eq attr (if x then obj ∷ ra else ra) b ≡ ok left
      → ((rb : List T)
          → with_attributes eq attr ra b ≡ ok rb
          → with_attributes eq attr objs (a ++ b) ≡ ok rb)
      → with_attributes eq attr (obj ∷ objs) (a ++ b) ≡ ok left
  unfolding with_attributes
  append_step obj objs a b true ra left e k ih =
      let (y, rb, ey, sb, q) = select-cons _ obj ra left k in
      select-cons_of _ obj objs rb y (equal_attributes-append obj a b true y e (λ _. ey)) (ih rb sb)
      ∙ ap ok (sym q)
  append_step obj objs a b false ra left e k ih =
      select-cons_of _ obj objs left false (equal_attributes-append obj a b false true e (λ h. cc))
        (ih left k)

  -- Selecting by some attributes and then, from what is left, by others is selecting by all of them.
  pub with_attributes-append :
      (objs : List T) (a b : Attributes V) (some_left left : List T)
      → with_attributes eq attr objs a ≡ ok some_left
      → with_attributes eq attr some_left b ≡ ok left
      → with_attributes eq attr objs (a ++ b) ≡ ok left
  unfolding with_attributes
  with_attributes-append [] a b some_left left h k = ground arith
  with_attributes-append (obj ∷ objs) a b some_left left h k =
      let (x, ra, ex, sa, q) = select-cons _ obj objs some_left h in
      append_step obj objs a b x ra left ex (subst (λ l. with_attributes eq attr l b ≡ ok left) q k)
        (λ rb. with_attributes-append objs a b ra rb sa)

  complementary :
      (obj : T) (key : String) (m : Matcher V) (x y : Bool)
      → equal_attributes eq attr obj ((key, m) ∷ []) false ≡ ok x
      → equal_attributes eq attr obj ((key, m) ∷ []) true ≡ ok y
      → y ≡ not x
  unfolding equal_attributes
  complementary obj key m x y h k = ground arith

  share_out :
      (obj : T) (objs kept left : List T) (x : Bool)
      → Perm (kept ++ left) objs
      → Perm ((if x then obj ∷ kept else kept) ++ (if not x then obj ∷ left else left)) (obj ∷ objs)
  share_out obj objs kept left true p = Perm.cons obj p
  share_out obj objs kept left false p = Perm.trans (perm_middle kept left) (Perm.cons obj p)

  -- A selection by one attribute and the selection without it share out the objects: no object is
  -- lost, none is added, and each is in one of them, as often as it was given.
  pub with-without-perm :
      (objs : List T) (key : String) (m : Matcher V) (kept left : List T)
      → with_attributes eq attr objs ((key, m) ∷ []) ≡ ok kept
      → without_attributes eq attr objs ((key, m) ∷ []) ≡ ok left
      → Perm (kept ++ left) objs
  unfolding with_attributes without_attributes
  with-without-perm [] key m kept left h k = nil_case kept left (ground arith) (ground arith)
    where
      nil_case : (ys zs : List T) → ys ≡ [] → zs ≡ [] → Perm (ys ++ zs) []
      nil_case ys zs e f = rw (e, f) Perm.rfl
  with-without-perm (obj ∷ objs) key m kept left h k =
      let (x, ra, ex, sa, q) =
        select-cons (λ o. equal_attributes eq attr o ((key, m) ∷ []) false) obj objs kept h in
      let (y, rb, ey, sb, q') =
        select-cons (λ o. equal_attributes eq attr o ((key, m) ∷ []) true) obj objs left k in
      rw (q, q', complementary obj key m x y ex ey)
        (share_out obj objs ra rb x (with-without-perm objs key m ra rb sa sb))

  -- With one attribute or more, an object that has all of the attributes is never one that has none.
  pub equal_attributes_disjoint :
      (obj : T) (key : String) (m : Matcher V) (rest : Attributes V)
      → equal_attributes eq attr obj ((key, m) ∷ rest) false ≡ ok true
      → equal_attributes eq attr obj ((key, m) ∷ rest) true ≡ ok false
  unfolding equal_attributes
  equal_attributes_disjoint obj key m rest h = ground arith
