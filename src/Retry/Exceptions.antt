-- ===== src/Retry/Exceptions.antt =====
-- What `retry_on_exception` raises and returns.
use Prim.Native.Nat.{max}
use tobiko.Prelude.{
  ℕ, zero, suc, ◌+◌, ◌≤◌, ◌<◌, ◌≡◌, ◌⊎◌, Bool, true, Option, none, some, Result, ok, err, arith,
}
use tobiko.Time.{pos}
use tobiko.Retry.{RetryAttempt, RetryError, count_limit, time_limit, raised, Retry, check_limits}
use tobiko.Retry.Loop.{Clock, retry_attempt, pause, rounds, for_attempts, wrapper_body}
use tobiko.Retry.Attempts.{Ends}

-- A value, or an exception of the wrapped code: no error of the retry itself.
abbrev pub IsOwn : {E R : Type 0} → Result (RetryError E) R → Type 0
IsOwn (err (count_limit a)) = ⊥
IsOwn (err (time_limit a)) = ⊥
IsOwn _ = Unit

abbrev pub IsFailure : {E R : Type 0} → (E → Bool) → Result E R → Type 0
IsFailure caught (ok x) = ⊥
IsFailure caught (err e) = caught e ≡ true

abbrev pub raise : {E R : Type 0} → Result E R → Result (RetryError E) R
raise (ok x) = ok x
raise (err e) = err (raised e)

module _ {S E R : Type 0} (clock : Clock S) (r : Retry) (caught : E → Bool)
    (on_exception : Option (RetryAttempt → S → Result E (Unit {0}) × S)) (func : S → Result E R × S)
    (c : ℕ) (counted : r.count ≡ some (pos c)) where
  rounds-IsOwn :
      (fuel : ℕ) (a : RetryAttempt) (s : S)
      → a.count ≡ some (pos c)
      → c < fuel + a.number
      → 0 < fuel
      → Ends (λ x s'. IsOwn x) (rounds clock r (wrapper_body caught on_exception func) fuel a s)
  unfolding rounds wrapper_body check_limits
  rounds-IsOwn zero a s e h p = absurd (omega arith)
  rounds-IsOwn (suc fuel) a s e h p =
      let s' = (wrapper_body caught on_exception func a s).1 in
      ground (
        arith,
        rounds-IsOwn fuel (retry_attempt clock r (suc a.number) a.start_time (pause clock r a s').0)
            (pause clock r a s').1,
      )

  -- A function under `retry_on_exception` with a count ends within a fuel above it, and it ends with
  -- a value or with an exception of its own or of the callback: RetryCountLimitError and
  -- RetryTimeLimitError never leave it, whatever the timeout, the clock and the callback are.
  pub for_attempts-IsOwn :
      (fuel : ℕ) (s : S)
      → c < fuel
      → Ends (λ x s'. IsOwn x) (for_attempts clock r (wrapper_body caught on_exception func) fuel s)
  unfolding for_attempts
  for_attempts-IsOwn fuel s h =
      ground
        (arith, rounds-IsOwn fuel (retry_attempt clock r 1 (clock.time s).0 0) (clock.time s).1)

-- A function whose call number `i` answers `script i`.
pub record Follows {S E R : Type 0} (clock : Clock S) (func : S → Result E R × S)
    (script : ℕ → Result E R) (calls : S → ℕ) : Type 0 where
  pub answer : (s : S) → (func s).0 ≡ script (calls s)
  pub by_func : (s : S) → calls (func s).1 ≡ suc (calls s)
  pub by_time : (s : S) → calls (clock.time s).1 ≡ calls s
  pub by_sleep : (d : ℕ) (s : S) → calls (clock.sleep d s) ≡ calls s

module _ {S E R : Type 0} (clock : Clock S) (r : Retry) (caught : E → Bool)
    (func : S → Result E R × S) (script : ℕ → Result E R) (calls : S → ℕ)
    (follows : Follows clock func script calls) (c : ℕ) (counted : r.count ≡ some (pos c))
    (timeless : r.timeout ≡ none) where
  calls-pause : (a : RetryAttempt) (s : S) → calls (pause clock r a s).1 ≡ calls s
  unfolding pause
  calls-pause a s = grind (arith, follows.by_time, follows.by_sleep)

  module _ (last : ℕ) (below : last < max 1 c)
      (fails : (i : ℕ) → i < last → IsFailure caught (script i))
      (stops : (suc last ≡ max 1 c) ⊎ ¬ IsFailure caught (script last)) where
    rounds_follow :
        (fuel : ℕ) (a : RetryAttempt) (s : S)
        → a.count ≡ some (pos c)
        → a.timeout ≡ none
        → a.number ≡ suc (calls s)
        → c < fuel + a.number
        → 0 < fuel
        → calls s ≤ last
        → Ends
            (λ x s'. (x ≡ raise (script last)) × (calls s' ≡ suc last))
            (rounds clock r (wrapper_body caught none func) fuel a s)
    unfolding rounds wrapper_body check_limits
    rounds_follow zero a s e t n h p l = absurd (omega arith)
    rounds_follow (suc fuel) a s e t n h p l =
        let s' = (func s).1 in
        ground (
          arith,
          follows.answer s,
          follows.by_func s,
          fails (calls s),
          calls-pause a s',
          rounds_follow fuel
              (retry_attempt clock r (suc a.number) a.start_time (pause clock r a s').0)
              (pause clock r a s').1,
        )

    -- With a count, no timeout and no callback, `retry_on_exception` calls the function until its
    -- first answer that is not an exception of the listed types, `max 1 count` times at most, and
    -- returns that answer, or raises that exception: where every call fails with a listed
    -- exception, the one of the last call is raised again.
    pub for_attempts_follow :
        (fuel : ℕ) (s : S)
        → c < fuel
        → calls s ≡ 0
        → Ends
            (λ x s'. (x ≡ raise (script last)) × (calls s' ≡ suc last))
            (for_attempts clock r (wrapper_body caught none func) fuel s)
    unfolding for_attempts
    for_attempts_follow fuel s h z = ground (
      arith,
      follows.by_time s,
      rounds_follow fuel (retry_attempt clock r 1 (clock.time s).0 0) (clock.time s).1,
    )
