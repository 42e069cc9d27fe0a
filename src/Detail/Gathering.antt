-- ===== src/Detail/Gathering.antt =====
-- Where the details are after they were gathered.
use tobiko.Prelude.{
  ℕ, zero, suc, ◌≡◌, refl, String, Bool, true, Option, none, some, [], ◌∷◌, Result, ok, err, arith,
  All, length, eq_iff, Bool-cases, Option-cases, inl, inr,
}
use tobiko.Prelude.Dict.{Dict, lookup, lookup-insert}
use tobiko.Detail.{
  next_name, get_unique_detail_name, put, put_if_absent, put_if_new, gather_details,
}
use tobiko.Detail.Naming.{get_unique_detail_name_ends}

module _ {C : Type 0} (same : C → C → Bool) (format : String → ℕ → String) where
  -- A name that was found is free, or has a content with the same id.
  abbrev IsOwn : C → Dict C → String → Type 0
  IsOwn c target k = (d : C) → lookup k target ≡ some d → same c d ≡ true

  next_name-IsOwn :
      (f : ℕ) (name : String) (c : C) (target : Dict C) (n : ℕ) (new_name k : String)
      → next_name same format f name c target n new_name ≡ some k
      → IsOwn c target k
  unfolding next_name
  next_name-IsOwn zero name c target n new_name k h d e = absurd (ground (arith, h))
  next_name-IsOwn (suc f) name c target n new_name k h d e =
      elim (Option-cases (lookup new_name target)) [
        | inl i ↦ absurd (ground (arith, h, i, e))
        | inr (x, i) ↦ elim (Bool-cases (same c x)) [
          | inl j ↦ ground (arith, h, i, j, e)
          | inr j ↦
              next_name-IsOwn f name c target (suc n) (format name n) k (ground (arith, h, i, j)) d
                e
        ]
      ]

  module _ {W E : Type 0} (copy_content : C → W → Result E C × W) where
    put_grows :
        (k : String) (r : Result E C × W) (target : Dict C) (j : String) (d : C)
        → lookup k target ≡ none
        → lookup j target ≡ some d
        → lookup j (put same format copy_content k r target).0 ≡ some d
    put_grows k (ok c, w) target j d n h =
        ground (arith, n, h, eq_iff k j, lookup-insert k j c target)
    put_grows k (err e, w) target j d n h = h

    put_if_absent_grows :
        (o : Option C) (k : String) (c : C) (target : Dict C) (w : W) (j : String) (d : C)
        → lookup k target ≡ o
        → lookup j target ≡ some d
        → lookup j (put_if_absent same format copy_content o k c target w).0 ≡ some d
    put_if_absent_grows (some x) k c target w j d e h = h
    put_if_absent_grows none k c target w j d e h = put_grows k (copy_content c w) target j d e h

    put_if_new_grows :
        (o : Option String) (c : C) (s : Dict C × W) (j : String) (d : C)
        → lookup j s.0 ≡ some d
        → lookup j (put_if_new same format copy_content o c s).0 ≡ some d
    put_if_new_grows none c s j d h = h
    put_if_new_grows (some k) c (target, w) j d h =
        put_if_absent_grows (lookup k target) k c target w j d refl h

    -- No detail is lost or replaced.
    pub gather_details_grows :
        (source : Dict C) (s : Dict C × W) (j : String) (d : C)
        → lookup j s.0 ≡ some d
        → lookup j (gather_details same format copy_content source s).0 ≡ some d
    unfolding gather_details
    gather_details_grows [] s j d h = h
    gather_details_grows ((name, c) ∷ source) s j d h =
        gather_details_grows source _ j d
          (put_if_new_grows (get_unique_detail_name same format name c s.0) c s j d h)

    -- A content with the id of `c` is under some name.
    abbrev pub IsGathered : C → Dict C → Type 0
    IsGathered c target = (k : String) × (d : C) × (lookup k target ≡ some d) × (same c d ≡ true)

    module _
        (copies : (c : C) (w : W)
          → (c' : C) × ((copy_content c w).0 ≡ ok c') × (same c c' ≡ true)) where
      put-IsGathered :
          (k : String) (c c' : C) (r : Result E C × W) (target : Dict C)
          → r.0 ≡ ok c'
          → same c c' ≡ true
          → IsGathered c (put same format copy_content k r target).0
      put-IsGathered k c c' (ok x, w) target e i = (
        k,
        x,
        ground (arith, (eq_iff k k).1 refl, lookup-insert k k x target),
        ground (arith, e, i),
      )
      put-IsGathered k c c' (err x, w) target e i = absurd (ground (arith, e))

      put_if_absent-IsGathered :
          (o : Option C) (k : String) (c : C) (target : Dict C) (w : W)
          → lookup k target ≡ o
          → IsOwn c target k
          → IsGathered c (put_if_absent same format copy_content o k c target w).0
      put_if_absent-IsGathered (some d) k c target w e own = (k, d, e, own d e)
      put_if_absent-IsGathered none k c target w e own =
          let (c', ok', i) = copies c w in put-IsGathered k c c' (copy_content c w) target ok' i

      module _ (injective : (name : String) (m n : ℕ) → format name m ≡ format name n → m ≡ n) where
        put_if_new-IsGathered :
            (o : Option String) (name : String) (c : C) (s : Dict C × W)
            → get_unique_detail_name same format name c s.0 ≡ o
            → IsGathered c (put_if_new same format copy_content o c s).0
        unfolding get_unique_detail_name
        put_if_new-IsGathered none name c s h =
            absurd (get_unique_detail_name_ends same format name (injective name) c s.0 h)
        put_if_new-IsGathered (some k) name c (target, w) h =
            put_if_absent-IsGathered (lookup k target) k c target w refl
              (next_name-IsOwn (suc (suc (length target))) name c target 1 name k h)

        -- Where the numbered names of a name are all different, and copying a content gives one with
        -- its id and raises nothing: after gather_details a content with the id of each detail of
        -- the source is in the target, and what was there before is there under the same name.
        pub gather_details_lem :
            (source : Dict C) (s : Dict C × W)
            → let (target, w) = gather_details same format copy_content source s in
              All (λ detail. IsGathered detail.1 target) source
              × ((j : String) (d : C) → lookup j s.0 ≡ some d → lookup j target ≡ some d)
        unfolding gather_details
        gather_details_lem [] s = (tt, λ j d h. h)
        gather_details_lem ((name, c) ∷ source) s =
            let o = get_unique_detail_name same format name c s.0 in
            let s1 = put_if_new same format copy_content o c s in
            let (k, d, here, i) = put_if_new-IsGathered o name c s refl in
            (
              (
                (k, d, gather_details_grows source s1 k d here, i),
                (gather_details_lem source s1).0,
              ),
              gather_details_grows ((name, c) ∷ source) s,
            )
