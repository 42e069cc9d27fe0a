-- ===== src/Time/Bounds.antt =====
-- The smallest and the greatest of some times.
use Prim.Native.Nat.{min, max}
use tobiko.Prelude.{
  ℕ, ◌≤◌, ◌≡◌, ◌⊎◌, inl, inr, refl, String, Option, none, some, List, [], ◌∷◌, ok, arith, All,
}
use tobiko.Time.{
  ℤ, ToSecondsValue, Seconds, true_seconds, least, greatest, min_of, max_of, min_seconds,
  max_seconds,
}

-- `m` is one of the numbers.
abbrev pub OneOf : ℕ → List ℕ → Type 0
OneOf m [] = ⊥
OneOf m (n ∷ ns) = (m ≡ n) ⊎ OneOf m ns

-- The bound by the order `R` of some numbers is one of them, and there is none only of no numbers.
abbrev pub IsBound : (ℕ → ℕ → Type 0) → List ℕ → Seconds → Type 0
IsBound R ns none = ns ≡ []
IsBound R ns (some m) = OneOf m ns × All (λ n. R m n) ns

widen :
    (b n m k : ℕ) (ms : List ℕ)
    → (b ≡ k → (b ≡ n) ⊎ (b ≡ m))
    → OneOf b (k ∷ ms)
    → OneOf b (n ∷ m ∷ ms)
widen b n m k ms choose (inl e) = elim (choose e) [ inl p ↦ inl p | inr q ↦ inr (inl q) ]
widen b n m k ms choose (inr o) = inr (inr o)

least_lem : (n : ℕ) (ns : List ℕ) → OneOf (least n ns) (n ∷ ns) × All (λ k. least n ns ≤ k) (n ∷ ns)
unfolding least
least_lem n [] = (inl refl, (omega arith, tt))
least_lem n (m ∷ ms) =
    let (o, h) = least_lem (min n m) ms in
    (
      widen (least (min n m) ms) n m (min n m) ms (λ e. omega arith) o,
      (omega (arith, h.0), (omega (arith, h.0), h.1)),
    )

greatest_lem :
    (n : ℕ) (ns : List ℕ) → OneOf (greatest n ns) (n ∷ ns) × All (λ k. k ≤ greatest n ns) (n ∷ ns)
unfolding greatest
greatest_lem n [] = (inl refl, (omega arith, tt))
greatest_lem n (m ∷ ms) =
    let (o, h) = greatest_lem (max n m) ms in
    (
      widen (greatest (max n m) ms) n m (max n m) ms (λ e. omega arith) o,
      (omega (arith, h.0), (omega (arith, h.0), h.1)),
    )

min_of-IsBound : (ns : List ℕ) → IsBound (λ m n. m ≤ n) ns (min_of ns)
min_of-IsBound [] = refl
min_of-IsBound (n ∷ ns) = least_lem n ns

max_of-IsBound : (ns : List ℕ) → IsBound (λ m n. n ≤ m) ns (max_of ns)
max_of-IsBound [] = refl
max_of-IsBound (n ∷ ns) = greatest_lem n ns

-- Where every argument is None or a number, or a text that reads as one, the smallest and the
-- greatest of the times that are not None are found: each is one of them and bounds them all, and it
-- is None only where every argument is.
pub min-max_seconds :
    (float_of : String → Option ℤ) (vs : List ToSecondsValue) (ns : List ℕ)
    → true_seconds float_of vs ≡ ok ns
    → ((s : Seconds) × (min_seconds float_of vs ≡ ok s) × IsBound (λ m n. m ≤ n) ns s)
      × ((s : Seconds) × (max_seconds float_of vs ≡ ok s) × IsBound (λ m n. n ≤ m) ns s)
unfolding min_seconds max_seconds
min-max_seconds float_of vs ns read =
    ((min_of ns, rw read, min_of-IsBound ns), (max_of ns, rw read, max_of-IsBound ns))
