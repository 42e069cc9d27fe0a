-- ===== src/Exceptions/Walk.antt =====
-- The stack loop of `list_exc_infos` is a walk of the tree of exceptions in order.
use tobiko.Prelude.{
  ℕ, zero, suc, ◌+◌, ◌≤◌, ◌≡◌, refl, Bool, true, false, some, List, [], ◌∷◌, ◌++◌, Result, ok, err,
  arith, ◌∙◌, All, All-append, if◌then◌else◌,
}
use tobiko.Exceptions.{
  Exc, plain, multiple, Args, nil, cons, visited?, extend, visit, size, size_args, list_exc_infos,
  handle_multiple_exceptions, after_walk,
}

-- The keys met so far, and the exceptions listed so far.
abbrev Walked : Type 0
Walked = List ℕ × List Exc

-- A walk by recursion on the tree: an exception that was met before is passed over with all that is
-- in it, a plain one is listed, and a multiple one is replaced by what it holds.
mutual
  pub walk : Exc → Walked → Walked
  walk (plain k) (seen, listed) =
      if visited? seen k then (seen, listed) else (k ∷ seen, listed ++ plain k ∷ [])
  walk (multiple k args) (seen, listed) =
      let inside = walk_args args (k ∷ seen, listed) in
      if visited? seen k then (seen, listed) else inside

  pub walk_args : Args → Walked → Walked
  walk_args nil w = w
  walk_args (cons e args) w = walk_args args (walk e w)

walk_all : List Exc → Walked → Walked
walk_all [] w = w
walk_all (e ∷ es) w = walk_all es (walk e w)

size_all : List Exc → ℕ
size_all [] = 0
size_all (e ∷ es) = size e + size_all es

size_all-extend :
    (args : Args) (es : List Exc) → size_all (extend args es) ≡ size_args args + size_all es
unfolding size_all size extend
size_all-extend nil es = omega arith
size_all-extend (cons e args) es = omega (arith, size_all-extend args es)

walk_all-extend :
    (args : Args) (es : List Exc) (w : Walked)
    → walk_all (extend args es) w ≡ walk_all es (walk_args args w)
unfolding walk_all extend walk
walk_all-extend nil es w = refl
walk_all-extend (cons e args) es w = walk_all-extend args es (walk e w)

visit-walk_all :
    (fuel : ℕ) (es : List Exc) (seen : List ℕ) (listed : List Exc)
    → size_all es ≤ fuel
    → visit fuel es seen listed ≡ some (walk_all es (seen, listed)).1
unfolding visit walk_all walk size_all size
visit-walk_all fuel [] seen listed h = refl
visit-walk_all zero (plain k ∷ es) seen listed h = absurd (omega arith)
visit-walk_all zero (multiple k args ∷ es) seen listed h = absurd (omega arith)
visit-walk_all (suc fuel) (plain k ∷ es) seen listed h = ground (
  arith,
  visit-walk_all fuel es seen listed,
  visit-walk_all fuel es (k ∷ seen) (listed ++ plain k ∷ []),
)
visit-walk_all (suc fuel) (multiple k args ∷ es) seen listed h = ground (
  arith,
  visit-walk_all fuel es seen listed,
  visit-walk_all fuel (extend args es) (k ∷ seen) listed,
  size_all-extend args es,
  walk_all-extend args es (k ∷ seen, listed),
)

-- The loop ends, and lists what a walk of the tree in order lists: the first argument of a
-- MultipleExceptions before the second, and an exception that compares equal to one met before not
-- again.
pub list_exc_infos_lem : (e : Exc) → list_exc_infos e ≡ some (walk e ([], [])).1
unfolding list_exc_infos
list_exc_infos_lem e =
    visit-walk_all (size e) (e ∷ []) [] [] (unfold size_all in omega arith)
    ∙ unfold walk_all in refl

abbrev pub IsPlain : Exc → Type 0
IsPlain (plain k) = Unit
IsPlain (multiple k args) = ⊥

abbrev Lists-plain : Walked → Type 0
Lists-plain w = All IsPlain w.1

if-plain :
    (b : Bool) (w w' : Walked) → Lists-plain w → Lists-plain w' → Lists-plain (if b then w else w')
if-plain true w w' h h' = h
if-plain false w w' h h' = h'

mutual
  unfolding walk

  walk-plain : (e : Exc) (w : Walked) → Lists-plain w → Lists-plain (walk e w)
  walk-plain (plain k) (seen, listed) h =
      if-plain (visited? seen k) _ _ h (All-append IsPlain listed (plain k ∷ []) h (tt, tt))
  walk-plain (multiple k args) (seen, listed) h =
      if-plain (visited? seen k) _ _ h (walk_args-plain args (k ∷ seen, listed) h)

  walk_args-plain : (args : Args) (w : Walked) → Lists-plain w → Lists-plain (walk_args args w)
  walk_args-plain nil w h = h
  walk_args-plain (cons e args) w h = walk_args-plain args (walk e w) (walk-plain e w h)

-- What leaves the block is no MultipleExceptions.
abbrev pub IsSingle : Result Exc (Unit {0}) → Type 0
IsSingle (ok x) = Unit
IsSingle (err e) = IsPlain e

-- The raised exception with the handled ones behind it are the listed ones; nothing is raised, and
-- nothing handled, where none is listed.
abbrev pub IsAccounted : Result Exc (Unit {0}) → List Exc → List Exc → Type 0
IsAccounted (ok x) handled listed = (listed ≡ []) × (handled ≡ [])
IsAccounted (err e) handled listed = e ∷ handled ≡ listed

after_walk_lem :
    (listed : List Exc)
    → All IsPlain listed
    → (x : Result Exc (Unit {0})) × (handled : List Exc) × (after_walk (some listed)
        ≡ some (x, handled))
      × IsSingle x
      × IsAccounted x handled listed
unfolding after_walk
after_walk_lem [] h = (ok tt, [], refl, tt, (refl, refl))
after_walk_lem (e ∷ es) h = (err e, es, refl, h.0, refl)

-- For every MultipleExceptions that leaves the block, the manager ends and raises the first of the
-- plain exceptions in it, never a MultipleExceptions, and hands all the others to the handler, in
-- order; where there is none in it, it raises nothing and hands over nothing.
pub handle_multiple_exceptions_lem :
    (k : ℕ) (args : Args)
    → (x : Result Exc (Unit {0})) × (handled : List Exc) × (handle_multiple_exceptions
          (err (multiple k args))
        ≡ some (x, handled))
      × IsSingle x
      × IsAccounted x handled (walk (multiple k args) ([], [])).1
unfolding handle_multiple_exceptions
handle_multiple_exceptions_lem k args =
    rw (list_exc_infos_lem (multiple k args)) (
      after_walk_lem (walk (multiple k args) ([], [])).1 (walk-plain (multiple k args) ([], []) tt))
