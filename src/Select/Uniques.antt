-- ===== src/Select/Uniques.antt =====
-- `select_uniques`: one of each object.
use tobiko.Prelude.{
  ◌≡◌, ◌↔◌, refl, Bool, true, false, ◌||◌, List, [], ◌∷◌, ◌++◌, arith, if◌then◌else◌, Bool-cases,
  inl, inr, length, ok, err, ◌<◌,
}
use tobiko.Select.{contains, select_uniques, unique, object_not_found, multiple_objects_found}

module _ {T : Type 0} (eq : T → T → Bool) where
  abbrev pub Distinct : List T → Type 0
  Distinct [] = Unit
  Distinct (x ∷ xs) = (contains eq xs x ≡ false) × Distinct xs

module _ {T : Type 0} (eq : T → T → Bool) (eq_law : (a b : T) → (eq a b ≡ true) ↔ (a ≡ b)) where
  contains-snoc :
      (xs : List T) (x y : T) → contains eq (xs ++ x ∷ []) y ≡ (contains eq xs y || eq x y)
  unfolding contains
  contains-snoc [] x y = ground arith
  contains-snoc (z ∷ xs) x y = ground (arith, contains-snoc xs x y)

  Distinct-snoc :
      (xs : List T) (x : T) → Distinct eq xs → contains eq xs x ≡ false → Distinct eq (xs ++ x ∷ [])
  unfolding contains
  Distinct-snoc [] x d n = (refl, tt)
  Distinct-snoc (y ∷ xs) x d n = (
    ground (arith, contains-snoc xs x y, eq_law x y, eq_law y x, d.0),
    Distinct-snoc xs x d.1 (ground arith),
  )

  add-Distinct :
      (xs : List T) (x : T)
      → Distinct eq xs
      → Distinct eq (if contains eq xs x then xs else xs ++ x ∷ [])
  add-Distinct xs x d = elim (Bool-cases (contains eq xs x)) [
    | inl old ↦ rw old d
    | inr new ↦ rw new (Distinct-snoc xs x d new)
  ]

  select_uniques-Distinct_from :
      (objs d : List T) → Distinct eq d → Distinct eq (select_uniques eq objs d)
  unfolding select_uniques
  select_uniques-Distinct_from [] d h = h
  select_uniques-Distinct_from (x ∷ objs) d h =
      select_uniques-Distinct_from objs _ (add-Distinct d x h)

  contains_trans :
      (d : List T) (x y : T) → contains eq d x ≡ true → eq x y ≡ true → contains eq d y ≡ true
  contains_trans d x y h e = rw (← (eq_law x y).0 e) h

  contains-add :
      (d : List T) (x y : T)
      → contains eq (if contains eq d x then d else d ++ x ∷ []) y ≡ (contains eq d y || eq x y)
  contains-add d x y = ground (arith, contains-snoc d x y, contains_trans d x y)

  contains-select_uniques :
      (objs d : List T) (y : T)
      → contains eq (select_uniques eq objs d) y ≡ (contains eq d y || contains eq objs y)
  unfolding select_uniques contains
  contains-select_uniques [] d y = ground arith
  contains-select_uniques (x ∷ objs) d y =
      let d' = if contains eq d x then d else d ++ x ∷ [] in
      ground (arith, contains-select_uniques objs d' y, contains-add d x y)

  -- The unique objects of a selection hold no object twice, and hold exactly the objects of it.
  pub select_uniques_lem :
      (objs : List T)
      → Distinct eq (select_uniques eq objs [])
        × ((y : T) → contains eq (select_uniques eq objs []) y ≡ contains eq objs y)
  select_uniques_lem objs = (
    select_uniques-Distinct_from objs [] tt,
    λ y. unfold contains in contains-select_uniques objs [] y,
  )

-- `unique` returns an object exactly when it is the only one of the selection; of none it raises
-- ObjectNotFound, and of more MultipleObjectsFound with all of them.
pub unique_lem :
    {T : Type 0} (objs : List T)
    → ((x : T) → (unique objs ≡ ok x) ↔ (objs ≡ x ∷ []))
      × ((unique objs ≡ err object_not_found) ↔ (objs ≡ []))
      × ((unique objs ≡ err (multiple_objects_found objs)) ↔ (1 < length objs))
unfolding unique
unique_lem [] = (λ x. ground arith, ground arith, ground arith)
unique_lem (y ∷ []) = (λ x. ground arith, ground arith, ground arith)
unique_lem (y ∷ z ∷ objs) = (λ x. ground arith, ground arith, ground arith)
