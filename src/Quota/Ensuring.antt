-- ===== src/Quota/Ensuring.antt =====
-- `ensure_nova_quota_limits` and `ensure_neutron_quota_limits`.
use Prim.Native.Nat.{◌/◌}
use tobiko.Prelude.{
  ℕ, ◌*◌, String, Bool, Option, none, some, List, [], ◌∷◌, Result, ok, err, if◌then◌else◌,
}
use tobiko.Time.{Seconds}
use tobiko.Retry.{RetryAttempt, RetryError, raised, count_limit, time_limit, is_last, times, retry}
use tobiko.Retry.Loop.{Verdict, finish, again, throw, Body, for_attempts}
use tobiko.Quota.{
  QuotaSet, Increase, QuotaError, quota_limits, service, broken_loop, out_of_fuel, nova_over,
  neutron_over, QuotaService, get_quota_limits_increase, expected_limits,
}

-- The result of the loop: its generator raises no error of its own where the body ends it before.
abbrev pub ended :
    {W E : Type 0}
    → W
    → Option (Result (RetryError (QuotaError E)) (Unit {0}) × W)
    → Result (QuotaError E) (Unit {0}) × W
ended w none = (err out_of_fuel, w)
ended w (some (ok _, w')) = (ok tt, w')
ended w (some (err (raised e), w')) = (err e, w')
ended w (some (err (count_limit a), w')) = (err broken_loop, w')
ended w (some (err (time_limit a), w')) = (err broken_loop, w')

module _ {W E : Type 0} (quotas : QuotaService W E) (needed : String → ℕ) where
  module _ (over : ℕ → ℕ → Bool) (user : Option String) (names : List String) where
    unfoldable pub updated :
        RetryAttempt → Result E (Unit {0}) × W → Verdict (QuotaError E) (Unit {0}) × W
    updated a (ok _, w) = (again, w)
    updated a (err e, w) =
        if is_last (some (service e)) a then (throw (raised (service e)), w) else (again, w)

    unfoldable pub increased :
        RetryAttempt → Result (QuotaError E) Increase → W → Verdict (QuotaError E) (Unit {0}) × W
    unfolding updated
    increased a (err e) w = (throw (raised e), w)
    increased a (ok []) w = (finish tt, w)
    increased a (ok (x ∷ xs)) w =
        if is_last {E = QuotaError E} none a
        then (throw (raised (quota_limits (x ∷ xs))), w)
        else updated a (quotas.set_quota_set user (expected_limits (x ∷ xs)) w)

    unfoldable pub found :
        RetryAttempt → Result E QuotaSet × W → Verdict (QuotaError E) (Unit {0}) × W
    unfolding increased
    found a (err e, w) = (throw (raised (service e)), w)
    found a (ok quota_set, w) =
        increased a (get_quota_limits_increase over needed (10 / a.number) quota_set names) w

    unfoldable pub ensure_body : Body W (QuotaError E) (Unit {0})
    unfolding found
    ensure_body a w = found a (quotas.get_quota_set user w)

    -- `second` is the number of ticks of one.
    unfoldable pub ensure_limits :
        (second fuel : ℕ) (timeout interval : Seconds) → W → Result (QuotaError E) (Unit {0}) × W
    unfolding ensure_body
    ensure_limits second fuel timeout interval w =
        let r =
          retry none (times timeout interval) (times (some (60 * second)) (some (3 * second))) in
        ended w (for_attempts quotas.clock r ensure_body fuel w)

  module _ (second fuel : ℕ) where
    unfoldable pub ensure_neutron_quota_limits :
        (retry_timeout retry_interval : Seconds) (names : List String)
        → W
        → Result (QuotaError E) (Unit {0}) × W
    unfolding ensure_limits
    ensure_neutron_quota_limits timeout interval [] w = (ok tt, w)
    ensure_neutron_quota_limits timeout interval (name ∷ names) w =
        ensure_limits neutron_over none (name ∷ names) second fuel timeout interval w

    abbrev pub and_then :
        (W → Result (QuotaError E) (Unit {0}) × W)
        → Result (QuotaError E) (Unit {0}) × W
        → Result (QuotaError E) (Unit {0}) × W
    and_then f (ok _, w) = f w
    and_then f (err e, w) = (err e, w)

    -- The limits of the project are raised before those of a user.
    unfoldable pub ensure_nova_quota_limits :
        (user : Option String) (retry_timeout retry_interval : Seconds) (names : List String)
        → W
        → Result (QuotaError E) (Unit {0}) × W
    unfolding ensure_limits
    ensure_nova_quota_limits user timeout interval [] w = (ok tt, w)
    ensure_nova_quota_limits none timeout interval (name ∷ names) w =
        ensure_limits nova_over none (name ∷ names) second fuel timeout interval w
    ensure_nova_quota_limits (some user) timeout interval (name ∷ names) w =
        and_then (ensure_limits nova_over (some user) (name ∷ names) second fuel timeout interval)
          (ensure_limits nova_over none (name ∷ names) second fuel none none w)
