-- ===== src/Table/Keys.antt =====
-- The keys of rows: when two lists of names have the same members, and what insert and update add.
use tobiko.Prelude.{
  String, true, false, ◌||◌, ◌≡◌, ◌↔◌, refl, sym, ◌∙◌, none, some, List, [], ◌∷◌, arith, str_eq,
  eq_iff, All, Option-cases, inl, inr,
}
use tobiko.Prelude.Dict.{Dict, lookup, insert, is_in}
use tobiko.Table.{keys, update, covers, same_set}

abbrev pub SameNames : (xs ys : List String) → Type 0
SameNames xs ys = (k : String) → is_in k xs ≡ is_in k ys

covers-is_in :
    (xs ys : List String) (k : String) → covers xs ys ≡ true → is_in k xs ≡ true → is_in k ys ≡ true
unfolding is_in
covers-is_in [] ys k c h = absurd (ground arith)
covers-is_in (x ∷ xs) ys k c h = ground (arith, eq_iff x k, covers-is_in xs ys k)

covers_intro :
    (xs ys : List String)
    → ((k : String) → is_in k xs ≡ true → is_in k ys ≡ true)
    → covers xs ys ≡ true
unfolding is_in
covers_intro [] ys f = refl
covers_intro (x ∷ xs) ys f =
    let hx : is_in x ys ≡ true = f x (ground (arith, eq_iff x x)) in
    rw hx (covers_intro xs ys (λ k h. f k (ground arith)))

pub same_set-SameNames : (xs ys : List String) → (same_set xs ys ≡ true) ↔ SameNames xs ys
same_set-SameNames xs ys = (forward, backward)
  where
    forward : same_set xs ys ≡ true → SameNames xs ys
    forward h k = ground (arith, covers-is_in xs ys k, covers-is_in ys xs k)

    backward : SameNames xs ys → same_set xs ys ≡ true
    backward h =
        let a = covers_intro xs ys (λ k e. sym (h k) ∙ e) in
        let b = covers_intro ys xs (λ k e. h k ∙ e) in ground arith

pub All-is_in :
    (names others : List String)
    → ((k : String) → is_in k names ≡ true → is_in k others ≡ true)
    → All (λ k. is_in k others ≡ true) names
unfolding is_in
All-is_in [] others h = tt
All-is_in (name ∷ names) others h =
    (h name (ground (arith, eq_iff name name)), All-is_in names others (λ k i. h k (ground arith)))

module _ {V : Type 0} where
  pub keys-insert :
      (j k : String) (v : V) (row : Dict V)
      → is_in j (keys (insert k v row)) ≡ (str_eq k j || is_in j (keys row))
  unfolding is_in insert
  keys-insert j k v [] = ground arith
  keys-insert j k v ((i, w) ∷ row) =
      ground (arith, eq_iff k j, eq_iff i k, eq_iff i j, keys-insert j k v row)

  pub keys-update :
      (j : String) (pairs : List (String × V)) (row : Dict V)
      → is_in j (keys (update pairs row)) ≡ (is_in j (keys pairs) || is_in j (keys row))
  unfolding is_in
  keys-update j [] row = refl
  keys-update j ((k, v) ∷ pairs) row =
      ground (arith, keys-update j pairs (insert k v row), keys-insert j k v row)

  pub lookup-is_in :
      (k : String) (row : Dict V) → is_in k (keys row) ≡ true → (v : V) × (lookup k row ≡ some v)
  unfolding is_in lookup
  lookup-is_in k [] h = absurd (ground arith)
  lookup-is_in k ((j, v) ∷ row) h = elim (Option-cases (lookup k ((j, v) ∷ row))) [
    | inr found ↦ found
    | inl lost ↦ absurd (ground (arith, lookup-is_in k row))
  ]

  pub lookup-is_not_in :
      (k : String) (row : Dict V) → is_in k (keys row) ≡ false → lookup k row ≡ none
  unfolding is_in lookup
  lookup-is_not_in k [] h = refl
  lookup-is_not_in k ((j, v) ∷ row) h = ground (arith, lookup-is_not_in k row)
