-- ===== src/Retry/Unset.antt =====
-- Options of a retry that are 0.
use tobiko.Prelude.{zero, suc, ◌≡◌, refl, Option, none, some}
use tobiko.Time.{ℤ, pos, negsuc}
use tobiko.Retry.{Retry, Options, retry, or_else}

abbrev zero_to_none : Option ℤ → Option ℤ
zero_to_none (some (pos zero)) = none
zero_to_none o = o

abbrev pub drop_zeros : Options → Options
drop_zeros o = record {
  count = zero_to_none o.count;
  timeout = zero_to_none o.timeout;
  sleep_time = zero_to_none o.sleep_time;
  interval = zero_to_none o.interval;
}

or_else-zero_to_none : (a b : Option ℤ) → or_else (zero_to_none a) b ≡ or_else a b
unfolding or_else
or_else-zero_to_none none b = refl
or_else-zero_to_none (some (pos zero)) b = refl
or_else-zero_to_none (some (pos (suc n))) b = refl
or_else-zero_to_none (some (negsuc n)) b = refl

-- Passing 0 for the count, the timeout, the sleep time or the interval is the same as not passing
-- it, with and without another retry to take defaults from: a limit of 0 is no limit.
pub retry-drop_zeros :
    (other : Option Retry) (given defaults : Options)
    → retry other (drop_zeros given) defaults ≡ retry other given defaults
unfolding retry
retry-drop_zeros none given defaults = simp or_else-zero_to_none
retry-drop_zeros (some other) given defaults = simp or_else-zero_to_none
