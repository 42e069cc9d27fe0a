-- ===== src/Retry/Attempts.antt =====
-- How many times the body of a retry loop runs.
use Prim.Native.Nat.{max}
use tobiko.Prelude.{ℕ, zero, suc, ◌+◌, ◌≤◌, ◌<◌, ◌≡◌, Option, none, some, Result, err, arith}
use tobiko.Time.{pos}
use tobiko.Retry.{RetryAttempt, RetryError, count_limit, Retry, check_limits}
use tobiko.Retry.Loop.{Clock, again, Body, retry_attempt, pause, rounds, for_attempts}

-- The loop ended within its fuel, as `P` says.
abbrev pub Ends :
    {S E R : Type 0}
    → (Result (RetryError E) R → S → Type 0)
    → Option (Result (RetryError E) R × S)
    → Type 0
Ends P none = ⊥
Ends P (some (x, s)) = P x s

-- The error of an exhausted count, at the attempt `n`.
abbrev pub IsCountLimit : {E R : Type 0} → ℕ → Result (RetryError E) R → Type 0
IsCountLimit n (err (count_limit a)) = a.number ≡ n
IsCountLimit n _ = ⊥

-- A counter in the world that the body moves by one and the clock leaves alone.
pub record Counts {S E R : Type 0} (clock : Clock S) (body : Body S E R) (calls : S → ℕ)
    : Type 0 where
  pub by_body : (a : RetryAttempt) (s : S) → calls (body a s).1 ≡ suc (calls s)
  pub by_time : (s : S) → calls (clock.time s).1 ≡ calls s
  pub by_sleep : (d : ℕ) (s : S) → calls (clock.sleep d s) ≡ calls s

module _ {S E R : Type 0} (clock : Clock S) (r : Retry) (body : Body S E R) (calls : S → ℕ)
    (counts : Counts clock body calls) (c : ℕ) (counted : r.count ≡ some (pos c)) where
  calls-pause : (a : RetryAttempt) (s : S) → calls (pause clock r a s).1 ≡ calls s
  unfolding pause
  calls-pause a s = grind (arith, counts.by_time, counts.by_sleep)

  rounds_calls :
      (fuel : ℕ) (a : RetryAttempt) (s : S)
      → a.count ≡ some (pos c)
      → c < fuel + a.number
      → 0 < fuel
      → Ends
          (λ x s'. calls s' + a.number ≤ calls s + max a.number c + 1)
          (rounds clock r body fuel a s)
  unfolding rounds check_limits
  rounds_calls zero a s e h p = absurd (omega arith)
  rounds_calls (suc fuel) a s e h p = ground (
    arith,
    counts.by_body a s,
    calls-pause a (body a s).1,
    rounds_calls fuel
        (retry_attempt clock r (suc a.number) a.start_time (pause clock r a (body a s).1).0)
        (pause clock r a (body a s).1).1,
  )

  -- A loop with a count ends within a fuel above it, and its body runs `max 1 count` times at most,
  -- whatever the body does and whatever the other limits are: a count of 0 still makes one attempt.
  pub for_attempts-le-count :
      (fuel : ℕ) (s : S)
      → c < fuel
      → Ends (λ x s'. calls s' ≤ calls s + max 1 c) (for_attempts clock r body fuel s)
  unfolding for_attempts
  for_attempts-le-count fuel s h = ground (
    arith,
    counts.by_time s,
    rounds_calls fuel (retry_attempt clock r 1 (clock.time s).0 0) (clock.time s).1,
  )

  module _ (endless : (a : RetryAttempt) (s : S) → (body a s).0 ≡ again)
      (timeless : r.timeout ≡ none) where
    rounds_exhausted :
        (fuel : ℕ) (a : RetryAttempt) (s : S)
        → a.count ≡ some (pos c)
        → a.timeout ≡ none
        → c < fuel + a.number
        → 0 < fuel
        → Ends
            (λ x s'.
              IsCountLimit (max a.number c) x
              × (calls s' + a.number ≡ calls s + max a.number c + 1))
            (rounds clock r body fuel a s)
    unfolding rounds check_limits
    rounds_exhausted zero a s e t h p = absurd (omega arith)
    rounds_exhausted (suc fuel) a s e t h p = ground (
      arith,
      counts.by_body a s,
      calls-pause a (body a s).1,
      endless a s,
      rounds_exhausted fuel
          (retry_attempt clock r (suc a.number) a.start_time (pause clock r a (body a s).1).0)
          (pause clock r a (body a s).1).1,
    )

    -- Where the body always asks for another round and there is no timeout, the body runs exactly
    -- `max 1 count` times, and the loop raises RetryCountLimitError at the attempt of that number.
    pub for_attempts_exhausted :
        (fuel : ℕ) (s : S)
        → c < fuel
        → Ends
            (λ x s'. IsCountLimit (max 1 c) x × (calls s' ≡ calls s + max 1 c))
            (for_attempts clock r body fuel s)
    unfolding for_attempts
    for_attempts_exhausted fuel s h = ground (
      arith,
      counts.by_time s,
      rounds_exhausted fuel (retry_attempt clock r 1 (clock.time s).0 0) (clock.time s).1,
    )
