-- ===== src/Ping/Counting.antt =====
-- What `iter_statistics` counted when it ends.
use Prim.Native.Nat.{◌*◌}
use tobiko.Prelude.{
  ℕ, zero, suc, ◌+◌, ◌-◌, ◌≤◌, ◌≡◌, ◌≢◌, ◌⊎◌, inl, inr, refl, true, false, Option, none, some, List,
  [], ◌∷◌, ◌++◌, subst, Result, ok, err, arith, Bool-cases, Result-cases,
}
use tobiko.Time.{pos}
use tobiko.Retry.Loop.{Clock}
use tobiko.Ping.Statistics.{PingStatistics, AddError, empty, add, add_counters}
use tobiko.Ping.Rounds.{
  Parameters, Until, anything, transmitted', delivered', undelivered', received', unreceived',
  Execution, Reply, PingError, ping_failed, raised, Counters, counted, below, round, finish, rounds,
  prepend, iter_statistics, sum, start_counters, in_loop,
}

abbrev total : (PingStatistics → ℕ) → List PingStatistics → ℕ
total f [] = 0
total f (t ∷ ts) = f t + total f ts

total-append :
    (f : PingStatistics → ℕ) (xs ys : List PingStatistics)
    → total f (xs ++ ys) ≡ total f xs + total f ys
total-append f [] ys = omega arith
total-append f (x ∷ xs) ys = omega (arith, total-append f xs ys)

abbrev t_of : PingStatistics → ℕ
t_of s = s.transmitted

abbrev r_of : PingStatistics → ℕ
r_of s = s.received

abbrev u_of : PingStatistics → ℕ
u_of s = s.undelivered

-- The counters after some rounds: what the statistics tell, and an undelivered message for each
-- round that had no output.
record Follows (l : Counters) (ys : List PingStatistics) (l' : Counters) : Type 0 where
  received : l'.received ≡ l.received + total r_of ys
  missed :
      l'.transmitted + (l.undelivered + total u_of ys)
      ≡ l'.undelivered + (l.transmitted + total t_of ys)
  transmitted : l.transmitted + total t_of ys ≤ l'.transmitted

module _ (until : Until) where
  abbrev IsCounted : Counters → Type 0
  IsCounted l = l.count ≡ counted until l.transmitted l.received l.undelivered

-- How the generator ended is told by the count.
abbrev Fits : {E : Type 0} → Until → ℕ → Counters → Result (PingError E) (Unit {0}) → Type 0
Fits until n l (ok _) = (until ≡ anything) ⊎ (below l.count n ≡ false)
Fits until n l (err (ping_failed c m)) =
    (c ≡ l.count) × (m ≡ n) × (below c n ≡ true) × (until ≢ anything)
Fits until n l (err (raised e)) = Unit

finish-Fits :
    (E : Type 0) (until : Until) (n : ℕ) (l : Counters)
    → Fits {E = E} until n l (finish until n l.count)
unfolding finish
finish-Fits E anything n l = inl refl
finish-Fits E transmitted' n l = ground arith
finish-Fits E delivered' n l = ground arith
finish-Fits E undelivered' n l = ground arith
finish-Fits E received' n l = ground arith
finish-Fits E unreceived' n l = ground arith

module _ {S E : Type 0} (clock : Clock S) (second : ℕ)
    (execute : Execution → S → Result E (Option Reply) × S) (parameters : Parameters)
    (until : Until) where
  round-Follows :
      (l : Counters) (end_of_time : ℕ) (s : S) (ys : List PingStatistics) (l' : Counters)
      → (round clock second execute parameters until l end_of_time s).0 ≡ ok (ys, l')
      → Follows l ys l' × IsCounted until l'
  unfolding round
  round-Follows l end_of_time s ys l' h = ground arith

  -- What is known when a generator that started from `l` ends with `l'`.
  abbrev Good : Counters → List PingStatistics → Result (PingError E) (Unit {0}) → Counters → Type 0
  Good l ys x l' = Follows l ys l' × IsCounted until l' × Fits until parameters.count l' x

  abbrev OnYields :
      Counters
      → Option (List PingStatistics × Result (PingError E) (Unit {0}) × Counters × S)
      → Type 0
  OnYields l none = Unit
  OnYields l (some (ys, x, l', s)) = Good l ys x l'

  Follows-refl : (l : Counters) → Follows l [] l
  Follows-refl l = omega arith

  Follows-append :
      {l m n : Counters} (xs ys : List PingStatistics)
      → Follows l xs m
      → Follows m ys n
      → Follows l (xs ++ ys) n
  Follows-append xs ys f g =
      omega (arith, total-append t_of xs ys, total-append u_of xs ys, total-append r_of xs ys)

  OnYields-prepend :
      (l m : Counters) (xs : List PingStatistics)
      (y : Option (List PingStatistics × Result (PingError E) (Unit {0}) × Counters × S))
      → Follows l xs m
      → OnYields m y
      → OnYields l (prepend clock second execute parameters until xs y)
  unfolding prepend
  OnYields-prepend l m xs none f g = tt
  OnYields-prepend l m xs (some (ys, x, n, s)) f g = (Follows-append xs ys f g.0, g.1, g.2)

  rounds-Good :
      (fuel : ℕ) (l : Counters) (end_of_time : ℕ) (s : S)
      → IsCounted until l
      → OnYields l (rounds clock second execute parameters until fuel l end_of_time s)
  unfolding rounds
  rounds-Good zero l end_of_time s c = tt
  rounds-Good (suc fuel) l end_of_time s c =
      elim (Bool-cases (in_loop clock second execute parameters until l)) [
        | inl going ↦
            rw (going, rounds)
              (elim (Result-cases (round clock second execute parameters until l end_of_time s).0) [
                | inl (after, e) ↦
                    let (f, c') = round-Follows l end_of_time s after.0 after.1 e in
                    rw (e, rounds)
                      (OnYields-prepend l after.1 after.0 _ f
                        (rounds-Good fuel after.1 end_of_time _ c'))
                | inr (x, e) ↦ rw (e, rounds) (Follows-refl l, c, tt)
              ])
        | inr over ↦ rw (over, rounds) (Follows-refl l, c, finish-Fits E until parameters.count l)
      ]

sum-total :
    (ys : List PingStatistics) (s t : PingStatistics)
    → sum s ys ≡ ok t
    → (t.received ≡ s.received + total r_of ys)
      × (t.transmitted ≡ s.transmitted + total t_of ys)
      × (t.undelivered ≡ s.undelivered + total u_of ys)
unfolding sum
sum-total [] s t h = ground arith
sum-total (y ∷ ys) s t h = elim (Result-cases (add s y)) [
  | inl (u, e) ↦
      let rest : sum u ys ≡ ok t = rw (e, sum) at h in
      let (r, tr, un) = sum-total ys u t rest in
      let (tr', r', un') = add_counters s y u e in (omega arith, omega arith, omega arith)
  | inr (x, e) ↦ absurd (raises e)
]
  where
    raises : {x : AddError} → add s y ≡ err x → ⊥
    raises e = ground arith

-- The count of messages that was asked for was reached, where for `m` messages, transmitted and
-- undelivered, there was no output.
abbrev pub Reached : Until → ℕ → PingStatistics → ℕ → Type 0
Reached anything n s m = Unit
Reached transmitted' n s m = n ≤ s.transmitted + m
Reached delivered' n s m = n + s.undelivered ≤ s.transmitted
Reached undelivered' n s m = n ≤ s.undelivered + m
Reached received' n s m = n ≤ s.received
Reached unreceived' n s m = n + s.received ≤ s.transmitted + m

-- The loop counts `m` messages more than the statistics.
abbrev pub Missed : Counters → PingStatistics → ℕ → Type 0
Missed l t m =
    (l.transmitted ≡ t.transmitted + m)
    × (l.undelivered ≡ t.undelivered + m)
    × (l.received ≡ t.received)

abbrev pub Outcome :
    {E : Type 0} → Until → ℕ → PingStatistics → ℕ → Result (PingError E) (Unit {0}) → Type 0
Outcome until n t m (ok _) = Reached until n t m
Outcome until n t m (err (ping_failed c k)) = (k ≡ n) × ¬ Reached until n t m
Outcome until n t m (err (raised e)) = Unit

finish-Outcome :
    {E : Type 0} (until : Until) (n : ℕ) (l : Counters) (t : PingStatistics) (m : ℕ)
    (x : Result (PingError E) (Unit {0}))
    → Missed l t m
    → l.count ≡ counted until l.transmitted l.received l.undelivered
    → Fits until n l x
    → Outcome until n t m x
unfolding counted
finish-Outcome anything n l t m (ok x) d c f = tt
finish-Outcome transmitted' n l t m (ok x) d c f = ground arith
finish-Outcome delivered' n l t m (ok x) d c f = ground arith
finish-Outcome undelivered' n l t m (ok x) d c f = ground arith
finish-Outcome received' n l t m (ok x) d c f = ground arith
finish-Outcome unreceived' n l t m (ok x) d c f = ground arith
finish-Outcome anything n l t m (err (ping_failed k j)) d c f = absurd (f.3 refl)
finish-Outcome transmitted' n l t m (err (ping_failed k j)) d c f = (f.1, λ h. ground arith)
finish-Outcome delivered' n l t m (err (ping_failed k j)) d c f = (f.1, λ h. ground arith)
finish-Outcome undelivered' n l t m (err (ping_failed k j)) d c f = (f.1, λ h. ground arith)
finish-Outcome received' n l t m (err (ping_failed k j)) d c f = (f.1, λ h. ground arith)
finish-Outcome unreceived' n l t m (err (ping_failed k j)) d c f = (f.1, λ h. ground arith)
finish-Outcome _ n l t m (err (raised e)) d c f = tt

module _ {S E : Type 0} (clock : Clock S) (second : ℕ)
    (execute : Execution → S → Result E (Option Reply) × S) (parameters : Parameters)
    (until : Until) where
  -- Where the generator ends and the statistics that it yielded add up to `t`, there are `m` messages
  -- that it counted as transmitted and undelivered for want of output, so that: if it ended without
  -- an exception, the messages of the type that was asked for reach the count that was asked for;
  -- and if it raised PingFailed, the expected count is that one and they do not reach it.
  pub iter_statistics-Outcome :
      (fuel : ℕ) (s : S) (ys : List PingStatistics) (x : Result (PingError E) (Unit {0}))
      (l : Counters) (s' : S) (t : PingStatistics)
      → iter_statistics clock second execute parameters until fuel s ≡ some (ys, x, l, s')
      → sum empty ys ≡ ok t
      → (m : ℕ) × Missed l t m × Outcome until parameters.count t m x
  unfolding iter_statistics counted
  iter_statistics-Outcome fuel s ys x l s' t h e =
      let (now, s1) = clock.time s in
      let l0 = start_counters clock second execute parameters until now in
      let good : Good clock second execute parameters until l0 ys x l =
        subst (OnYields clock second execute parameters until l0) h (
          rounds-Good clock second execute parameters until fuel l0
            (now + parameters.timeout * second) s1 (start until)) in
      let (r, tr, un) = sum-total ys empty t e in
      let m = l.transmitted - t.transmitted in
      let missed : Missed l t m =
        (omega (arith, good.0), omega (arith, good.0), omega (arith, good.0)) in
      (m, missed, finish-Outcome until parameters.count l t m x missed good.1 good.2)
    where
      start : (u : Until) → pos 0 ≡ counted u 0 0 0
      start u = ground arith
