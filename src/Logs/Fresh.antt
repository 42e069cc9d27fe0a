-- ===== src/Logs/Fresh.antt =====
-- Which lines are new.
use tobiko.Prelude.{
  ℕ, suc, ◌+◌, ◌≤◌, ◌≡◌, ◌∙◌, refl, String, Bool, true, false, not, ◌&&◌, ◌||◌, Option, List, [],
  ◌∷◌, ◌++◌, Result, ok, err, arith, str_eq, eq_iff, if◌then◌else◌,
}
use tobiko.Prelude.Dict.{is_in}
use tobiko.Logs.{
  GrepError, no_matching_lines_found, other, DiggerError, Digger, choose_pattern, fresh, update,
  dig, dig_pattern, find_lines, find_new_lines,
}

is_in-append : (l : String) (xs ys : List String) → is_in l (xs ++ ys) ≡ (is_in l xs || is_in l ys)
unfolding is_in
is_in-append l [] ys = refl
is_in-append l (x ∷ xs) ys = ground (arith, is_in-append l xs ys)

is_in-fresh :
    (l : String) (found lines : List String)
    → is_in l (fresh found lines) ≡ (is_in l lines && not (is_in l found))
unfolding is_in fresh
is_in-fresh l found [] = refl
is_in-fresh l found (m ∷ ms) = ground (arith, eq_iff m l, is_in-fresh l found ms)

is_in-update :
    (l : String) (found lines : List String)
    → is_in l (update found lines) ≡ (is_in l found || is_in l lines)
unfolding is_in update
is_in-update l found [] = ground arith
is_in-update l found (m ∷ ms) =
    is_in-update l (if is_in m found then found else found ++ (m ∷ [])) ms
    ∙ ground (arith, eq_iff m l, is_in-append l found (m ∷ []))

-- How often a line is in a list.
unfoldable pub occurrences : String → List String → ℕ
occurrences l [] = 0
occurrences l (m ∷ ms) = if str_eq m l then suc (occurrences l ms) else occurrences l ms

occurrences-append :
    (l : String) (xs ys : List String)
    → occurrences l (xs ++ ys) ≡ occurrences l xs + occurrences l ys
unfolding occurrences
occurrences-append l [] ys = omega arith
occurrences-append l (x ∷ xs) ys = ground (arith, occurrences-append l xs ys)

is_in-occurrences : (l : String) (xs : List String) → is_in l xs ≡ false → occurrences l xs ≡ 0
unfolding occurrences is_in
is_in-occurrences l [] h = refl
is_in-occurrences l (x ∷ xs) h = ground (arith, h, is_in-occurrences l xs)

abbrev pub IsUnique : List String → Type 0
IsUnique found = (l : String) → occurrences l found ≤ 1

added :
    (m : String) (found : List String)
    → IsUnique found
    → IsUnique (if is_in m found then found else found ++ (m ∷ []))
unfolding occurrences
added m found h l =
    ground (arith, h l, eq_iff m l, is_in-occurrences m found, occurrences-append l found (m ∷ []))

update-IsUnique : (lines found : List String) → IsUnique found → IsUnique (update found lines)
unfolding update
update-IsUnique [] found h = h
update-IsUnique (m ∷ ms) found h = update-IsUnique ms _ (added m found h)

abbrev pub lines_of : {E : Type 0} → Result (DiggerError E) (List String) → List String
lines_of (ok lines) = lines
lines_of (err e) = []

-- Of a call for new lines: `before` and `after` are the lines found, and `new` those returned.
abbrev pub IsFresh : (before after new : List String) → Type 0
IsFresh before after new =
    ((l : String) → is_in l after ≡ (is_in l before || is_in l new))
    × ((l : String) → (is_in l before && is_in l new) ≡ false)
    × (IsUnique before → IsUnique after)

dig-IsFresh :
    {E : Type 0} (r : Result (GrepError E) (List String)) (d : Digger)
    → let (new, d') = dig true r d in IsFresh d.found d'.found (lines_of new)
unfolding dig is_in
dig-IsFresh (err (other e)) d = (λ l. ground arith, λ l. ground arith, λ h. h)
dig-IsFresh (err no_matching_lines_found) d = (λ l. ground arith, λ l. ground arith, λ h. h)
dig-IsFresh (ok lines) d = (
  λ l. is_in-update l d.found (fresh d.found lines),
  λ l. ground (arith, is_in-fresh l d.found lines),
  update-IsUnique (fresh d.found lines) d.found,
)

dig_grows :
    {E : Type 0} (b : Bool) (r : Result (GrepError E) (List String)) (d : Digger) (l : String)
    → is_in l d.found ≡ true
    → is_in l (dig b r d).1.found ≡ true
unfolding dig
dig_grows b (err (other e)) d l h = h
dig_grows b (err no_matching_lines_found) d l h = h
dig_grows b (ok lines) d l h = ground (arith, h, is_in-update l d.found (fresh d.found lines))

module _ {W E : Type 0} (grep_lines : String → W → Result (GrepError E) (List String) × W) where
  dig_pattern-IsFresh :
      (p : Result (DiggerError E) String) (d : Digger) (w : W)
      → let (new, s) = dig_pattern grep_lines true p (d, w) in
        IsFresh d.found s.0.found (lines_of new)
  unfolding is_in
  dig_pattern-IsFresh (err e) d w = (λ l. ground arith, λ l. ground arith, λ h. h)
  dig_pattern-IsFresh (ok p) d w = dig-IsFresh (grep_lines p w).0 d

  -- `find_new_lines` returns no line that was found before, and the lines found afterwards are those
  -- found before and those it returns, each of them once if each was there once before. A call
  -- that raises finds no line.
  pub find_new_lines-IsFresh :
      (pattern : Option String) (d : Digger) (w : W)
      → let (new, s) = find_new_lines grep_lines pattern (d, w) in
        IsFresh d.found s.0.found (lines_of new)
  unfolding find_new_lines
  find_new_lines-IsFresh pattern d w = dig_pattern-IsFresh (choose_pattern pattern d.pattern) d w

  dig_pattern_grows :
      (b : Bool) (p : Result (DiggerError E) String) (d : Digger) (w : W) (l : String)
      → is_in l d.found ≡ true
      → is_in l (dig_pattern grep_lines b p (d, w)).1.0.found ≡ true
  dig_pattern_grows b (err e) d w l h = h
  dig_pattern_grows b (ok p) d w l h = dig_grows b (grep_lines p w).0 d l h

  find_lines_grows :
      (pattern : Option String) (b : Bool) (s : Digger × W) (l : String)
      → is_in l s.0.found ≡ true
      → is_in l (find_lines grep_lines pattern b s).1.0.found ≡ true
  unfolding find_lines
  find_lines_grows pattern b (d, w) l h =
      dig_pattern_grows b (choose_pattern pattern d.pattern) d w l h

  -- A sequence of calls of `find_lines`, each with its pattern and `new_lines`.
  unfoldable pub find_all : List (Option String × Bool) → Digger × W → Digger × W
  find_all [] s = s
  find_all ((pattern, new_lines) ∷ calls) s =
      find_all calls (find_lines grep_lines pattern new_lines s).1

  find_all_grows :
      (calls : List (Option String × Bool)) (s : Digger × W) (l : String)
      → is_in l s.0.found ≡ true
      → is_in l (find_all calls s).0.found ≡ true
  unfolding find_all
  find_all_grows [] s l h = h
  find_all_grows ((pattern, new_lines) ∷ calls) s l h =
      find_all_grows calls _ l (find_lines_grows pattern new_lines s l h)

  -- A line that a call of `find_new_lines` returns is returned by no later one, whatever calls of
  -- `find_lines` and `find_new_lines` are made between them, whatever the files say and whether
  -- the calls raise or not.
  pub find_new_lines_once :
      (first second : Option String) (calls : List (Option String × Bool)) (s : Digger × W)
      (l : String)
      → let (new, s1) = find_new_lines grep_lines first s in
        is_in l (lines_of new) ≡ true
        → is_in l (lines_of (find_new_lines grep_lines second (find_all calls s1)).0) ≡ false
  find_new_lines_once first second calls s l h =
      let s1 = (find_new_lines grep_lines first s).1 in
      let s2 = find_all calls s1 in
      let found = (find_new_lines-IsFresh first s.0 s.1).0 in
      let still = find_all_grows calls s1 l (found l ∙ ground (arith, h)) in
      let apart = (find_new_lines-IsFresh second s2.0 s2.1).1 in ground (arith, still, apart l)
