-- ===== src/Detail/Naming.antt =====
-- The search for a name ends.
use tobiko.Prelude.{
  ℕ, zero, suc, ◌+◌, ◌≤◌, ◌<◌, ◌≡◌, ◌≢◌, refl, sym, subst, ltb, ltb→lt, ltb→ge, ◌∙◌, String, Bool,
  none, [], ◌∷◌, arith, length, str_eq, eq_iff, Bool-cases, Option-cases, inl, inr,
}
use tobiko.Prelude.Dict.{Dict, lookup, remove, lookup-remove}
use tobiko.Detail.{next_name, get_unique_detail_name}

length-remove-le : {C : Type 0} (k : String) (d : Dict C) → length (remove k d) ≤ length d
unfolding remove
length-remove-le k [] = omega arith
length-remove-le k ((j, v) ∷ d) = ground (arith, length-remove-le k d)

length-remove-lt :
    {C : Type 0} (k : String) (d : Dict C) → lookup k d ≢ none → length (remove k d) < length d
unfolding remove lookup
length-remove-lt k [] h = absurd (h refl)
length-remove-lt k ((j, v) ∷ d) h = elim (Bool-cases (str_eq j k)) [
  | inl e ↦ rw e (omega (arith, length-remove-le k d))
  | inr e ↦ rw e (omega (arith, length-remove-lt k d (λ n. h (rw e n))))
]

module _ {C : Type 0} (same : C → C → Bool) (format : String → ℕ → String) (name : String)
    (injective : (m n : ℕ) → format name m ≡ format name n → m ≡ n) where
  kept :
      (n m : ℕ) (d : Dict C)
      → n < m
      → lookup (format name m) (remove (format name n) d) ≡ lookup (format name m) d
  kept n m d l =
      lookup-remove (format name n) (format name m) d
      ∙ elim (Bool-cases (str_eq (format name n) (format name m))) [
        | inl e ↦ absurd (omega (arith, l, injective n m ((eq_iff _ _).0 e)))
        | inr e ↦ rw e refl
      ]

  -- As many names in a row as the search has tried are as many details.
  taken_le :
      (f n : ℕ) (d : Dict C)
      → ((m : ℕ) → n ≤ m → m < n + f → lookup (format name m) d ≢ none)
      → f ≤ length d
  taken_le zero n d h = omega arith
  taken_le (suc f) n d h =
      let first = h n (omega arith) (omega arith) in
      let rest = taken_le f (suc n) (remove (format name n) d) (λ m l u.
        subst (λ o. o ≢ none) (sym (kept n m d (omega (arith, l))))
          (h m (omega (arith, l)) (omega (arith, u)))) in
      omega (arith, rest, length-remove-lt (format name n) d first)

  -- A search that runs out of fuel has found every name that it tried.
  found_taken :
      (f n : ℕ) (c : C) (d : Dict C) (new_name : String)
      → next_name same format (suc f) name c d n new_name ≡ none
      → (lookup new_name d ≢ none) × ((m : ℕ) → n ≤ m → m < n + f → lookup (format name m) d ≢ none)
  unfolding next_name
  found_taken zero n c d new_name h =
      (λ z. ground (arith, h, z), λ m l u. absurd (omega (arith, l, u)))
  found_taken (suc f) n c d new_name h = elim (Option-cases (lookup new_name d)) [
    | inl e ↦ absurd (ground (arith, h, e))
    | inr (x, e) ↦ elim (Bool-cases (same c x)) [
      | inl i ↦ absurd (ground (arith, h, e, i))
      | inr i ↦
          let rest = found_taken f (suc n) c d (format name n) (ground (arith, h, e, i)) in
          (
            λ z. ground (arith, z, e),
            λ m l u. elim (Bool-cases (ltb n m)) [
              | inl j ↦ rest.1 m (omega (arith, ltb→lt n m j)) (omega (arith, u))
              | inr j ↦
                  subst (λ k. lookup (format name k) d ≢ none) (omega (arith, l, ltb→ge n m j))
                    rest.0
            ],
          )
    ]
  ]

  -- Where the numbered names of a name are all different, get_unique_detail_name ends: its loop makes
  -- at most two rounds more than there are details.
  pub get_unique_detail_name_ends :
      (c : C) (target : Dict C) → get_unique_detail_name same format name c target ≢ none
  unfolding get_unique_detail_name
  get_unique_detail_name_ends c target h =
      let taken = (found_taken (suc (length target)) 1 c target name h).1 in
      omega (arith, taken_le (suc (length target)) 1 target taken)
