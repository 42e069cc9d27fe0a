-- ===== src/Ping/Ending.antt =====
-- `iter_statistics` ends, since a round never begins within a second of the round before.
use Prim.Native.Nat.{◌*◌, ◌/◌}
use tobiko.Prelude.{
  ℕ, zero, suc, ◌+◌, ◌-◌, ◌≤◌, ◌<◌, ◌≡◌, ◌≢◌, true, Option, none, some, List, Result, ok, arith,
  Bool-cases, Result-cases, inl, inr, subst,
}
use tobiko.Retry.Loop.{Clock}
use tobiko.Retry.Timing.{IsMonotone}
use tobiko.Ping.Statistics.{PingStatistics}
use tobiko.Ping.Rounds.{
  Parameters, Until, execution, stamp, Execution, Reply, PingError, Counters, wait, round, rounds,
  prepend, iter_statistics, start_counters, in_loop,
}

module _ {S E : Type 0} (clock : Clock S) (now : S → ℕ) (monotone : IsMonotone clock now)
    (second : ℕ) (ticks : 0 < second) (execute : Execution → S → Result E (Option Reply) × S)
    (no_return : (e : Execution) (s : S) → now s ≤ now (execute e s).1) (parameters : Parameters)
    (until : Until) where
  -- The last round began at `p`.
  record Began (p end_of_time : ℕ) (l : Counters) (s : S) : Type 0 where
    elapsed : l.elapsed ≡ some (l.now - p)
    before : p ≤ l.now
    read : l.now ≤ now s
    deadline : l.deadline ≤ (end_of_time - l.now) / second

  wait_grows : (l : Counters) (s : S) → now s ≤ now (wait clock second execute parameters until l s)
  unfolding wait
  wait_grows l s = grind (arith, monotone.sleeps)

  second-le : (d : ℕ) → 0 < d → second ≤ d * second
  second-le zero h = elim h [ ]
  second-le (suc d) h = omega arith

  wait_second :
      (p end_of_time : ℕ) (l : Counters) (s : S)
      → Began p end_of_time l s
      → 0 < l.deadline
      → p + second ≤ now (wait clock second execute parameters until l s)
  unfolding wait
  wait_second p end_of_time l s b d = ground (
    arith,
    b.elapsed,
    b.before,
    b.read,
    second-le l.deadline d,
    monotone.sleeps (l.deadline * second - (l.now - p)) s,
  )

  stamp_grows :
      (r : Option Reply) (s : S) → now s ≤ now (stamp clock second execute parameters until r s).1
  unfolding stamp
  stamp_grows none s = omega arith
  stamp_grows (some r) s = omega (arith, monotone.read_after s, monotone.read_before s)

  round-Began :
      (l : Counters) (end_of_time : ℕ) (s : S) (ys : List PingStatistics) (l' : Counters)
      → (round clock second execute parameters until l end_of_time s).0 ≡ ok (ys, l')
      → (p : ℕ) × Began p end_of_time l'
          (round clock second execute parameters until l end_of_time s).1
        × (now (wait clock second execute parameters until l s) ≤ p)
  unfolding round
  round-Began l end_of_time s ys l' h =
      let w = wait clock second execute parameters until l s in
      let (start, s1) = clock.time w in
      let (output, s2) =
        execute (execution clock second execute parameters until l end_of_time) s1 in
      elim (Result-cases output) [
        | inl (reply, e) ↦
            let (end', s3) = stamp clock second execute parameters until reply s2 in
            (
              start,
              ground (
                arith,
                monotone.read_before w,
                no_return (execution clock second execute parameters until l end_of_time) s1,
                stamp_grows reply s2,
                monotone.read_after s3,
                monotone.read_before s3,
              ),
              monotone.read_after w,
            )
        | inr (x, e) ↦ absurd (ground arith)
      ]

  -- The loop goes on only while a second is left.
  second_left : (end_of_time n : ℕ) → 0 < (end_of_time - n) / second → n + second ≤ end_of_time
  second_left end_of_time n h = grind arith

  Ended : Option (List PingStatistics × Result (PingError E) (Unit {0}) × Counters × S) → Type 0
  Ended none = ⊥
  Ended (some y) = Unit

  Ended-prepend :
      (xs : List PingStatistics)
      (y : Option (List PingStatistics × Result (PingError E) (Unit {0}) × Counters × S))
      → Ended y
      → Ended (prepend clock second execute parameters until xs y)
  unfolding prepend Ended
  Ended-prepend xs (some y) h = tt
  Ended-prepend xs none h = h

  round_of : Counters → ℕ → S → Result E (List PingStatistics × Counters) × S
  round_of = round clock second execute parameters until

  step-Ended :
      (fuel : ℕ) (l : Counters) (end_of_time : ℕ) (s : S)
      → ((ys : List PingStatistics) (l' : Counters)
          → in_loop clock second execute parameters until l ≡ true
          → (round_of l end_of_time s).0 ≡ ok (ys, l')
          → Ended (
              rounds clock second execute parameters until fuel l' end_of_time
                (round_of l end_of_time s).1))
      → Ended (rounds clock second execute parameters until (suc fuel) l end_of_time s)
  unfolding rounds Ended round_of
  step-Ended fuel l end_of_time s next =
      elim (Bool-cases (in_loop clock second execute parameters until l)) [
        | inl going ↦
            rw (going, rounds)
              (elim (Result-cases (round_of l end_of_time s).0) [
                | inl (after, e) ↦
                    rw (e, rounds) (Ended-prepend after.0 _ (next after.0 after.1 going e))
                | inr (x, e) ↦ rw (e, rounds) tt
              ])
        | inr over ↦ rw (over, rounds) tt
      ]

  rounds-Ended :
      (fuel : ℕ) (l : Counters) (end_of_time p : ℕ) (s : S)
      → Began p end_of_time l s
      → end_of_time < p + fuel * second
      → 0 < fuel
      → Ended (rounds clock second execute parameters until fuel l end_of_time s)
  unfolding round_of
  rounds-Ended zero l end_of_time p s b h some_fuel = absurd (omega arith)
  rounds-Ended (suc fuel) l end_of_time p s b h some_fuel =
      step-Ended fuel l end_of_time s λ ys l' going e.
        let (p', b', w) = round-Began l end_of_time s ys l' e in
        let late : 0 < l.deadline = ground arith in
        let later = wait_second p end_of_time l s b late in
        let left = second_left end_of_time l.now (omega (arith, b.deadline)) in
        rounds-Ended fuel l' end_of_time p' _ b' (omega arith) (more fuel (omega (arith, b.before)))
    where
      more : (n : ℕ) → p + second < p + suc n * second → 0 < n
      more zero q = absurd (omega arith)
      more (suc n) q = omega arith

  -- Where the clock does not go back and the ping command takes no time back, the generator ends
  -- within `timeout + 2` rounds of its loop, whatever the command answers: each round begins a second
  -- after the one before or later, and none begins when less than a second is left.
  pub iter_statistics_ends :
      (fuel : ℕ) (s : S)
      → parameters.timeout + 1 < fuel
      → iter_statistics clock second execute parameters until fuel s ≢ none
  unfolding iter_statistics round_of
  iter_statistics_ends zero s h none' = absurd (omega arith)
  iter_statistics_ends (suc fuel) s h none' =
      unfold Ended in
      subst Ended none' (
        step-Ended fuel l0 (start + parameters.timeout * second) s1 λ ys l' going e.
          let (p', b', w) = round-Began l0 _ s1 ys l' e in
          rounds-Ended fuel l' (start + parameters.timeout * second) p' _ b'
            (omega (arith, monotone.read_before s, wait_grows l0 s1, many, more-second))
            (omega arith))
    where
      start : ℕ
      start = (clock.time s).0

      s1 : S
      s1 = (clock.time s).1

      l0 : Counters
      l0 = start_counters clock second execute parameters until start

      many : suc parameters.timeout ≤ fuel
      many = omega arith

      more-second : parameters.timeout * second + second ≤ fuel * second
      more-second = grind (arith, many)
