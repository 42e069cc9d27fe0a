-- ===== src/Time/Examples.antt =====
-- Times of which some are None, negative or empty.
use tobiko.Prelude.{◌≡◌, refl, String, Option, none, List, [], ◌∷◌, ok}
use tobiko.Time.{ℤ, pos, negsuc, ToSecondsValue, null, number, text, true_seconds}

abbrev no_text : String → Option ℤ
no_text t = none

abbrev times : List ToSecondsValue
times = number (pos 7) ∷ null ∷ number (negsuc 2) ∷ number (pos 4) ∷ text "" ∷ []

read_times : true_seconds no_text times ≡ ok (7 ∷ 0 ∷ 4 ∷ 0 ∷ [])
unfolding true_seconds
read_times = refl
