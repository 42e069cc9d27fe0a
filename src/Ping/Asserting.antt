-- ===== src/Ping/Asserting.antt =====
-- The assertions of `PingStatistics`: `tobiko.fail` raises the failure of the running test case, here
-- with the number of packages that its message shows.
use tobiko.Prelude.{ℕ, ◌≡◌, Result, ok, err, ◌==◌, arith, if◌then◌else◌}
use tobiko.Ping.Statistics.{PingStatistics, is_true}

unfoldable assert_transmitted : PingStatistics → Result ℕ (Unit {0})
assert_transmitted s = if s.transmitted == 0 then err s.transmitted else ok tt

unfoldable assert_not_transmitted : PingStatistics → Result ℕ (Unit {0})
assert_not_transmitted s = if s.transmitted == 0 then ok tt else err s.transmitted

unfoldable assert_replied : PingStatistics → Result ℕ (Unit {0})
assert_replied s = if s.received == 0 then err s.received else ok tt

unfoldable assert_not_replied : PingStatistics → Result ℕ (Unit {0})
assert_not_replied s = if s.received == 0 then ok tt else err s.received

-- Statistics count as true just where `assert_replied` passes and `assert_not_replied` fails.
replied-is_true :
    (s : PingStatistics)
    → (assert_replied s ≡ (if is_true s then ok tt else err 0))
      × (assert_not_replied s ≡ (if is_true s then err s.received else ok tt))
unfolding assert_replied assert_not_replied is_true
replied-is_true s = ground arith
