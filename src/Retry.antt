-- ===== src/Retry.antt =====
-- tobiko/common/_retry.py: attempts, the retry generator and the loops that consume it.
-- The clock is a parameter: `time` reads it and `sleep` waits, both on the state of the world `S`.
-- A difference of two readings stops at 0.
pub mod Loop
pub mod Attempts
pub mod Exceptions
pub mod Unset
pub mod Timing
pub mod Rules
mod Examples
use tobiko.Prelude.{
  ℕ, zero, suc, ◌+◌, ◌-◌, Bool, true, false, Option, none, some, Result, ok, err, ◌>>=◌, ◌>>◌, ltb,
  ◌==◌, if◌then◌else◌,
}
use tobiko.Time.{ℤ, pos, negsuc, clamp, Seconds}

pub record RetryAttempt : Type 0 where
  pub number : ℕ
  pub start_time : ℕ
  pub elapsed_time : ℕ
  pub count : Option ℤ
  pub timeout : Seconds
  pub sleep_time : Seconds
  pub interval : Seconds

-- What leaves a retry loop: one of its own errors, or an exception of the code that it runs.
pub data RetryError (E : Type 0) : Type 0 where
  count_limit : RetryAttempt → RetryError E
  time_limit : RetryAttempt → RetryError E
  raised : E → RetryError E

-- `max(0, self.count - self.number)`
abbrev count_minus : ℤ → ℕ → ℕ
count_minus (pos c) n = c - n
count_minus (negsuc c) n = 0

unfoldable pub count_left : RetryAttempt → Option ℕ
count_left a = elim a.count [ none ↦ none | some c ↦ some (count_minus c a.number) ]

unfoldable pub time_left : RetryAttempt → Seconds
time_left a = elim a.timeout [ none ↦ none | some t ↦ some (t - a.elapsed_time) ]

abbrev is_zero : Option ℕ → Bool
is_zero none = false
is_zero (some n) = n == 0

module _ {E : Type 0} where
  -- `exc_info().reraise()` raises the exception that is being handled, if there is one.
  abbrev reraise_or : Option E → RetryError E → RetryError E
  reraise_or none limit = limit
  reraise_or (some e) limit = raised e

  unfoldable pub check_count_left : Option E → RetryAttempt → Result (RetryError E) (Option ℕ)
  unfolding count_left
  check_count_left handled a =
      if is_zero (count_left a) then err (reraise_or handled (count_limit a)) else ok (count_left a)

  unfoldable pub check_time_left : Option E → RetryAttempt → Result (RetryError E) Seconds
  unfolding time_left
  check_time_left handled a =
      if is_zero (time_left a) then err (reraise_or handled (time_limit a)) else ok (time_left a)

  unfoldable pub check_limits : Option E → RetryAttempt → Result (RetryError E) (Unit {0})
  unfolding check_count_left check_time_left
  check_limits handled a = do check_count_left handled a; check_time_left handled a; ok tt

  unfoldable pub is_last : Option E → RetryAttempt → Bool
  unfolding check_limits
  is_last handled a = elim (check_limits handled a) [ ok _ ↦ false | err _ ↦ true ]

pub record Retry : Type 0 where
  pub count : Option ℤ
  pub timeout : Seconds
  pub sleep_time : Seconds
  pub interval : Seconds

-- `a or b` of two numbers that may be None: 0 is as good as None.
unfoldable pub or_else : Option ℤ → Option ℤ → Option ℤ
or_else none b = b
or_else (some (pos zero)) b = b
or_else (some (pos (suc n))) b = some (pos (suc n))
or_else (some (negsuc n)) b = some (negsuc n)

abbrev to_seconds : Option ℤ → Seconds
to_seconds none = none
to_seconds (some z) = some (clamp z)

abbrev from_seconds : Seconds → Option ℤ
from_seconds none = none
from_seconds (some n) = some (pos n)

-- The keyword arguments of `retry`, before `Retry.__init__` converts the times.
pub record Options : Type 0 where
  pub count : Option ℤ
  pub timeout : Option ℤ
  pub sleep_time : Option ℤ
  pub interval : Option ℤ

abbrev merge : Options → Options → Options
merge a b = record {
  count = or_else a.count b.count;
  timeout = or_else a.timeout b.timeout;
  sleep_time = or_else a.sleep_time b.sleep_time;
  interval = or_else a.interval b.interval;
}

abbrev pub options_of : Retry → Options
options_of r = record {
  count = r.count;
  timeout = from_seconds r.timeout;
  sleep_time = from_seconds r.sleep_time;
  interval = from_seconds r.interval;
}

init : Options → Retry
init o = record {
  count = o.count;
  timeout = to_seconds o.timeout;
  sleep_time = to_seconds o.sleep_time;
  interval = to_seconds o.interval;
}

unfoldable pub retry : Option Retry → (given defaults : Options) → Retry
unfolding or_else init
retry none given defaults = init (merge given defaults)
retry (some other) given defaults = init (merge (merge given (options_of other)) defaults)

-- The options of a loop without a count: a timeout, and an interval.
abbrev pub times : Seconds → Seconds → Options
times timeout interval = record {
  count = none;
  timeout = from_seconds timeout;
  sleep_time = none;
  interval = from_seconds interval;
}
