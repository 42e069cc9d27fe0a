-- ===== src/Table/Fitting.antt =====
-- Rows that fit a schema: each has exactly its names, and there is none without a schema. It is kept by
-- what lists do and by renaming, and validation brings it about.
use tobiko.Prelude.{
  ℕ, max, String, ◌≡◌, ◌≢◌, ◌⊎◌, inl, inr, refl, sym, ◌∙◌, List, [], ◌∷◌, ◌++◌, Result, ok, All,
  All-append, All-take, All-drop, take, Bool-cases, Result-cases,
}
use tobiko.Prelude.Dict.{Dict}
use tobiko.Table.{
  Error, TableData, Item, dict, tuple, Call, ◌>>◌, set_rows, keys, dicts, validate_item,
  validate_keys, same_set,
}
use tobiko.Table.Calls.{then-ok, then-err}
use tobiko.Table.Keys.{SameNames, same_set-SameNames}
use tobiko.Table.Editing.{splice, validate_all}

module _ {V : Type 0} where
  abbrev pub Fits : List String → List (Dict V) → Type 0
  Fits schema rows = All (λ row. SameNames (keys row) schema) rows × (schema ≡ [] → rows ≡ [])

  abbrev pub IsTable : TableData V → Type 0
  IsTable t = Fits t.schema t.rows

  pub splice-Fits :
      (schema : List String) (start stop : ℕ) (new rows : List (Dict V))
      → Fits schema new
      → Fits schema rows
      → Fits schema (splice start stop new rows)
  splice-Fits schema start stop new rows fn fr = (
    All-append _ (take start rows ++ new) _
        (All-append _ (take start rows) new (All-take _ start rows fr.0) fn.0)
        (All-drop _ (max start stop) rows fr.0),
    λ none. rw (fn.1 none) (rw (fr.1 none) refl),
  )

  pub append-Fits :
      (schema : List String) (rows new : List (Dict V))
      → Fits schema rows
      → Fits schema new
      → Fits schema (rows ++ new)
  append-Fits schema rows new fr fn =
      (All-append _ rows new fr.0 fn.0, λ none. rw (fr.1 none) (rw (fn.1 none) refl))

  -- The schema may be inferred where there was none, and the rows stay.
  abbrev pub Grows : (t u : TableData V) → Type 0
  Grows t u = (u.rows ≡ t.rows) × ((u.schema ≡ t.schema) ⊎ ((t.schema ≡ []) × (u.schema ≢ [])))

  pub Grows-refl : (t : TableData V) → Grows t t
  Grows-refl t = (refl, inl refl)

  pub Grows-trans : (t u v : TableData V) → Grows t u → Grows u v → Grows t v
  Grows-trans t u v (r, inl s) (r', inl s') = (r' ∙ r, inl (s' ∙ s))
  Grows-trans t u v (r, inl s) (r', inr (s', n)) = (r' ∙ r, inr (sym s ∙ s', n))
  Grows-trans t u v (r, inr (s, n)) (r', inl s') = (r' ∙ r, inr (s, λ e. n (sym s' ∙ e)))
  Grows-trans t u v (r, inr (s, n)) (r', inr (s', n')) = absurd (n s')

  -- Rows that fit the schema before fit the one after.
  pub Grows-Fits :
      (t u : TableData V) (rows : List (Dict V))
      → Grows t u
      → Fits t.schema rows
      → Fits u.schema rows
  Grows-Fits t u rows (r, inl s) h = rw s h
  Grows-Fits t u rows (r, inr (s, n)) h = rw (h.1 s) (tt, λ _. refl)

  pub Grows-IsTable : (t u : TableData V) → Grows t u → IsTable t → IsTable u
  Grows-IsTable t u g h = rw (g.0) (Grows-Fits t u t.rows g h)

  -- What a call does to a table, when it raises and when it returns after it looked at new rows.
  abbrev pub Validates : TableData V → List (Dict V) → Result Error Unit × TableData V → Type 0
  Validates t new out = Grows t out.1 × (out.0 ≡ ok tt → Fits out.1.schema new)

  validated_keys :
      (schema : List String) (row : Dict V) (t : TableData V)
      → t.schema ≡ schema
      → Validates t (row ∷ []) (validate_keys schema (keys row) t)
  unfolding validate_keys
  validated_keys [] [] t e = (Grows-refl t, λ h. absurd cc)
  validated_keys [] ((k, v) ∷ row) t e =
      ((refl, inr (e, λ none. absurd cc)), λ h. (((λ j. refl), tt), λ none. absurd cc))
  validated_keys (s ∷ ss) row t e = elim (Bool-cases (same_set (keys row) (s ∷ ss))) [
    | inl same ↦ (
      Grows-refl t,
      λ h. rw e (((same_set-SameNames (keys row) (s ∷ ss)).0 same, tt), λ none. absurd cc),
    )
    | inr other ↦ (Grows-refl t, rw other (λ h. absurd cc))
  ]

  pub validated :
      (item : Item V) (t : TableData V) → Validates t (dicts (item ∷ [])) (validate_item item t)
  unfolding validate_keys
  validated (tuple vs) t = ((refl, inl refl), λ e. absurd cc)
  validated (dict row) t = validated_keys t.schema row t refl

  then-Validates :
      (m k : Call V Unit) (new more : List (Dict V)) (t : TableData V)
      → Validates t new (m t)
      → ((u : TableData V) → Validates u more (k u))
      → Validates t (new ++ more) ((m >> k) t)
  then-Validates m k new more t hm hk = elim (Result-cases (m t).0) [
    | inl (x, e) ↦ rw (then-ok m k t x e) (
      Grows-trans t (m t).1 _ hm.0 (hk (m t).1).0,
      λ done.
          append-Fits _ new more (Grows-Fits (m t).1 _ new (hk (m t).1).0 (hm.1 (e)))
            ((hk (m t).1).1 done),
    )
    | inr (x, e) ↦ rw (then-err m k t x e) (hm.0, λ done. absurd cc)
  ]

  dicts-cons :
      (item : Item V) (items : List (Item V))
      → dicts (item ∷ items) ≡ dicts (item ∷ []) ++ dicts items
  dicts-cons (dict row) items = refl
  dicts-cons (tuple vs) items = refl

  pub validated_all :
      (items : List (Item V)) (t : TableData V) → Validates t (dicts items) (validate_all items t)
  unfolding validate_all
  validated_all [] t = (Grows-refl t, λ h. (tt, λ _. refl))
  validated_all (item ∷ items) t = rw (dicts-cons item items) (
      then-Validates (validate_item item) (validate_all items) _ _ t (validated item t)
        (validated_all items))

  -- A list that is changed after the validation of what goes into it.
  pub set_rows-IsTable :
      (m : Call V Unit) (f : List (Dict V) → List (Dict V)) (new : List (Dict V)) (t : TableData V)
      → Validates t new (m t)
      → IsTable t
      → ((schema : List String) (rows : List (Dict V))
          → Fits schema new
          → Fits schema rows
          → Fits schema (f rows))
      → IsTable ((m >> set_rows f) t).1
  set_rows-IsTable m f new t h w keep = elim (Result-cases (m t).0) [
    | inl (x, e) ↦
        rw (then-ok m (set_rows f) t x e)
          (keep (m t).1.schema (m t).1.rows (h.1 (e)) (Grows-IsTable t _ h.0 w))
    | inr (x, e) ↦ rw (then-err m (set_rows f) t x e) (Grows-IsTable t _ h.0 w)
  ]
