-- ===== src/Retry/Rules.antt =====
-- Rules for code that runs in a retry loop: an invariant of the rounds, and the fuel that is enough.
use tobiko.Prelude.{
  ℕ, zero, suc, ◌+◌, ◌≤◌, ◌<◌, ◌≡◌, ◌≢◌, ◌⊎◌, inl, inr, refl, subst, sym, Option, none, some,
  Result, ok, err, arith, Result-cases, true,
}
use tobiko.Time.{pos}
use tobiko.Retry.{RetryAttempt, RetryError, raised, Retry, check_limits, is_last}
use tobiko.Retry.Loop.{
  Clock, Verdict, finish, again, throw, Body, retry_attempt, pause, rounds, for_attempts,
}
use tobiko.Retry.Timing.{IsMonotone, pause_elapsed}

-- What holds of an outcome, if there is one.
abbrev pub Partial : {S A : Type 0} → (A → S → Type 0) → Option (A × S) → Type 0
Partial Q none = Unit
Partial Q (some (x, s)) = Q x s

-- What a round has to show of the verdict of the body.
abbrev pub After :
    {S E R : Type 0}
    → (S → Type 0)
    → (Result (RetryError E) R → S → Type 0)
    → RetryAttempt
    → Verdict E R × S
    → Type 0
After P Q a (finish x, s) = Q (ok x) s
After P Q a (throw e, s) = Q (err e) s
After {E = E} P Q a (again, s) =
    P s × ((x : RetryError E) → check_limits {E = E} none a ≡ err x → Q (err x) s)

-- The loop goes on only after an attempt that is not the last.
pub limited :
    {E : Type 0} (a : RetryAttempt) (x : RetryError E) (handled : Option E)
    → check_limits none a ≡ err x
    → is_last handled a ≡ true
unfolding is_last check_limits
limited a x handled h = ground arith

Verdict-cases :
    {E R : Type 0} (v : Verdict E R)
    → ((x : R) × (v ≡ finish x)) ⊎ ((e : RetryError E) × (v ≡ throw e)) ⊎ (v ≡ again)
Verdict-cases (finish x) = inl (x, refl)
Verdict-cases (throw e) = inr (inl (e, refl))
Verdict-cases again = inr (inr refl)

module _ {S E R : Type 0} (clock : Clock S) (r : Retry) (body : Body S E R) where
  pub rounds-finish :
      (fuel : ℕ) (a : RetryAttempt) (s : S) (x : R)
      → (body a s).0 ≡ finish x
      → rounds clock r body (suc fuel) a s ≡ some (ok x, (body a s).1)
  unfolding rounds
  rounds-finish fuel a s x e = ground arith

  rounds-throw :
      (fuel : ℕ) (a : RetryAttempt) (s : S) (x : RetryError E)
      → (body a s).0 ≡ throw x
      → rounds clock r body (suc fuel) a s ≡ some (err x, (body a s).1)
  unfolding rounds
  rounds-throw fuel a s x e = ground arith

  rounds_limit :
      (fuel : ℕ) (a : RetryAttempt) (s : S) (x : RetryError E)
      → (body a s).0 ≡ again
      → check_limits {E = E} none a ≡ err x
      → rounds clock r body (suc fuel) a s ≡ some (err x, (body a s).1)
  unfolding rounds
  rounds_limit fuel a s x e l = ground arith

  pub rounds-again :
      (fuel : ℕ) (a : RetryAttempt) (s : S) (u : Unit {0})
      → (body a s).0 ≡ again
      → check_limits {E = E} none a ≡ ok u
      → rounds clock r body (suc fuel) a s
        ≡ rounds clock r body fuel
            (retry_attempt clock r (suc a.number) a.start_time (pause clock r a (body a s).1).0)
            (pause clock r a (body a s).1).1
  unfolding rounds
  rounds-again fuel a s u e l = ground arith

  module _ (P : S → Type 0) (Q : Result (RetryError E) R → S → Type 0)
      (step : (a : RetryAttempt) (s : S) → a.timeout ≡ r.timeout → P s → After P Q a (body a s))
      (paused : (a : RetryAttempt) (s : S) → P s → P (pause clock r a s).1) where
    rounds_rule :
        (fuel : ℕ) (a : RetryAttempt) (s : S)
        → a.timeout ≡ r.timeout
        → P s
        → Partial Q (rounds clock r body fuel a s)
    unfolding rounds
    rounds_rule zero a s i p = tt
    rounds_rule (suc fuel) a s i p =
        let s' = (body a s).1 in
        elim (Verdict-cases (body a s).0) [
          | inl (x, e) ↦
              subst (Partial Q) (sym (rounds-finish fuel a s x e))
                (subst (λ v. After P Q a (v, s')) e (step a s i p))
          | inr (inl (x, e)) ↦
              subst (Partial Q) (sym (rounds-throw fuel a s x e))
                (subst (λ v. After P Q a (v, s')) e (step a s i p))
          | inr (inr e) ↦
              let (q, limit) = subst (λ v. After P Q a (v, s')) e (step a s i p) in
              elim (Result-cases (check_limits {E = E} none a)) [
                | inr (x, l) ↦ subst (Partial Q) (sym (rounds_limit fuel a s x e l)) (limit x l)
                | inl (u, l) ↦ subst (Partial Q) (sym (rounds-again fuel a s u e l)) (
                    rounds_rule fuel
                      (retry_attempt clock r (suc a.number) a.start_time (pause clock r a s').0)
                      (pause clock r a s').1 refl (paused a s' q))
              ]
        ]

    -- An invariant that the body and the waits keep, and that its ends turn into `Q`.
    pub for_attempts_rule :
        (fuel : ℕ) (s : S) → P (clock.time s).1 → Partial Q (for_attempts clock r body fuel s)
    unfolding for_attempts
    for_attempts_rule fuel s p =
        rounds_rule fuel (retry_attempt clock r 1 (clock.time s).0 0) (clock.time s).1 refl p

  -- A count is fuel enough.
  module _ (c : ℕ) (counted : r.count ≡ some (pos c)) where
    rounds-counted :
        (fuel : ℕ) (a : RetryAttempt) (s : S)
        → a.count ≡ some (pos c)
        → c < fuel + a.number
        → 0 < fuel
        → rounds clock r body fuel a s ≢ none
    unfolding rounds check_limits
    rounds-counted zero a s e h p = absurd (omega arith)
    rounds-counted (suc fuel) a s e h p =
        let s' = (body a s).1 in
        ground (
          arith,
          rounds-counted fuel
              (retry_attempt clock r (suc a.number) a.start_time (pause clock r a s').0)
              (pause clock r a s').1,
        )

    pub for_attempts-counted :
        (fuel : ℕ) (s : S) → c < fuel → for_attempts clock r body fuel s ≢ none
    unfolding for_attempts
    for_attempts-counted fuel s h =
        ground
          (arith, rounds-counted fuel (retry_attempt clock r 1 (clock.time s).0 0) (clock.time s).1)

  -- A timeout is, where each round takes time, but for `spare` rounds that may take none.
  module _ (now spare : S → ℕ) (monotone : IsMonotone clock now)
      (passes : (a : RetryAttempt) (s : S) → a.timeout ≡ r.timeout → now s ≤ now (body a s).1)
      (advances : (a : RetryAttempt) (s : S)
        → a.timeout ≡ r.timeout
        → now s + spare (body a s).1 < now (body a s).1 + spare s)
      (kept : (a : RetryAttempt) (s : S) → spare (pause clock r a s).1 ≡ spare s) (t : ℕ)
      (timed : r.timeout ≡ some t) where
    rounds-timed :
        (fuel : ℕ) (a : RetryAttempt) (s : S)
        → a.timeout ≡ r.timeout
        → a.start_time + a.elapsed_time ≤ now s
        → t + spare s < fuel + a.elapsed_time
        → 0 < fuel
        → rounds clock r body fuel a s ≢ none
    unfolding rounds check_limits
    rounds-timed zero a s i l h p = absurd (omega arith)
    rounds-timed (suc fuel) a s i l h p =
        let s' = (body a s).1 in
        let next = pause clock r a s' in
        let el = pause_elapsed clock now monotone r a s' (omega (arith, passes a s i)) in
        let enough : t + spare next.1 < fuel + next.0 =
          omega (arith, advances a s i, kept a s', el.0) in
        ground (
          arith,
          i,
          timed,
          rounds-timed fuel (retry_attempt clock r (suc a.number) a.start_time next.0) next.1 refl
              el.1 enough,
        )

    pub for_attempts-timed :
        (fuel : ℕ) (s : S)
        → t + spare (clock.time s).1 < fuel
        → for_attempts clock r body fuel s ≢ none
    unfolding for_attempts
    for_attempts-timed fuel s h = ground (
      arith,
      monotone.read_before s,
      rounds-timed fuel (retry_attempt clock r 1 (clock.time s).0 0) (clock.time s).1,
    )

-- What reading the clock and sleeping leave as it was, the wait of the generator leaves so.
pub pause_keeps :
    {S A : Type 0} (clock : Clock S) (r : Retry) (f : S → A) (a : RetryAttempt) (s : S)
    → ((s : S) → f (clock.time s).1 ≡ f s)
    → ((d : ℕ) (s : S) → f (clock.sleep d s) ≡ f s)
    → f (pause clock r a s).1 ≡ f s
unfolding pause
pause_keeps clock r f a s reads sleeps = grind (arith, reads, sleeps)

-- A check of the limits raises an exception of the code only where it is the one that is handled.
pub check_limits-raised :
    {E : Type 0} (handled : Option E) (a : RetryAttempt) (e : E)
    → check_limits handled a ≡ err (raised e)
    → handled ≡ some e
unfolding check_limits
check_limits-raised none a e h = absurd (ground arith)
check_limits-raised (some x) a e h = ground arith
