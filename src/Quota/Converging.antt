-- ===== src/Quota/Converging.antt =====
-- Raising limits works: where the service does what it is told, the second round finds them high
-- enough.
use Prim.Native.Nat.{◌/◌}
use tobiko.Prelude.{
  ℕ, zero, suc, ◌*◌, ◌<◌, ◌≡◌, ◌≢◌, ◌∙◌, refl, sym, ap, subst, String, Bool, false, Option, none,
  some, List, [], ◌∷◌, Result, ok, err, All, All-map, arith,
}
use tobiko.Prelude.Dict.{Dict, lookup}
use tobiko.Time.{Seconds}
use tobiko.Retry.{RetryAttempt, Retry, check_limits, is_last, retry, times, or_else}
use tobiko.Retry.Loop.{
  Clock, Body, again, rounds, pause, wait_time, may_wait, retry_attempt, for_attempts,
}
use tobiko.Retry.Rules.{rounds-finish, rounds-again}
use tobiko.Quota.{
  Quota, QuotaSet, Increase, QuotaError, nova_over, neutron_over, QuotaService,
  get_quota_limits_increase, expected_limits,
}
use tobiko.Quota.Settling.{
  with_limit, Accepts, raises_of, get_quota_limits_increase-raises_of, raises_of-settled,
}
use tobiko.Quota.Ensuring.{
  ended, updated, increased, found, ensure_body, ensure_limits, ensure_neutron_quota_limits,
  ensure_nova_quota_limits,
}

-- What the service documents: a read gives the quota set, an update sets the limits that it names,
-- and neither a read nor a wait changes one.
pub record IsFaithful {W E : Type 0} (quotas : QuotaService W E) (user : Option String)
    (view : W → QuotaSet) : Type 0 where
  pub reads : (w : W) → (quotas.get_quota_set user w).0 ≡ ok (view w)
  pub keeps : (w : W) → view (quotas.get_quota_set user w).1 ≡ view w
  pub sets : (limits : Dict ℕ) (w : W) → (quotas.set_quota_set user limits w).0 ≡ ok tt
  pub updates :
      (limits : Dict ℕ) (w : W) (name : String)
      → view (quotas.set_quota_set user limits w).1 name
        ≡ with_limit (lookup name limits) (view w name)
  pub waits : (d : ℕ) (w : W) → view (quotas.clock.sleep d w) ≡ view w
  pub times : (w : W) → view (quotas.clock.time w).1 ≡ view w

module _ {W E : Type 0} (quotas : QuotaService W E) (needed : String → ℕ) (over : ℕ → ℕ → Bool)
    (user : Option String) (names : List String) (view : W → QuotaSet)
    (faithful : IsFaithful quotas user view) where
  found-ok :
      (a : RetryAttempt) (r : Result E QuotaSet × W) (quota_set : QuotaSet)
      → r.0 ≡ ok quota_set
      → found quotas needed over user names a r
        ≡ increased quotas needed over user names a
            (get_quota_limits_increase over needed (10 / a.number) quota_set names)
            r.1
  unfolding found
  found-ok a (err e, w) q h = absurd (ground (arith, h))
  found-ok a (ok q', w) q h =
      ap
        (λ s.
          increased quotas needed over user names a
            (get_quota_limits_increase over needed (10 / a.number) s names) w)
        (ap (λ x. elim x [ ok s ↦ s | err e ↦ q ]) h)

  updated-ok :
      (a : RetryAttempt) (r : Result E (Unit {0}) × W)
      → r.0 ≡ ok tt
      → updated quotas needed over user names a r ≡ (again, r.1)
  unfolding updated
  updated-ok a (err e, w) h = absurd (ground (arith, h))
  updated-ok a (ok _, w) h = refl

  -- A round, where the set has all the names.
  ensure_body-increased :
      (a : RetryAttempt) (w : W) (xs : Increase)
      → All (λ name. view w name ≢ none) names
      → raises_of over needed (10 / a.number) (view w) names ≡ xs
      → ensure_body quotas needed over user names a w
        ≡ increased quotas needed over user names a (ok xs) (quotas.get_quota_set user w).1
  unfolding ensure_body
  ensure_body-increased a w xs complete e =
      found-ok a (quotas.get_quota_set user w) (view w) (faithful.reads w)
      ∙ ap (λ r. increased quotas needed over user names a r (quotas.get_quota_set user w).1)
          (get_quota_limits_increase-raises_of over needed (10 / a.number) (view w) names complete
            ∙ ap ok e)

  increased-again :
      (a : RetryAttempt) (w : W) (x : String × (ℕ × ℕ)) (xs : Increase)
      → is_last {E = QuotaError E} none a ≡ false
      → increased quotas needed over user names a (ok (x ∷ xs)) w
        ≡ (again, (quotas.set_quota_set user (expected_limits (x ∷ xs)) w).1)
  unfolding increased
  increased-again a w x xs h = rw h (updated-ok a _ (faithful.sets (expected_limits (x ∷ xs)) w))

  pause-view : (r : Retry) (a : RetryAttempt) (w : W) → view (pause quotas.clock r a w).1 ≡ view w
  unfolding pause wait_time may_wait
  pause-view r a w = grind (arith, faithful.times, faithful.waits)

  first_limits :
      (r : Retry) (start t : ℕ)
      → r.count ≡ none
      → r.timeout ≡ some t
      → 0 < t
      → check_limits {E = QuotaError E} none (retry_attempt quotas.clock r 1 start 0) ≡ ok tt
  unfolding check_limits
  first_limits r start t c e h = ground (arith, c, e)

  first_is_last :
      (r : Retry) (start t : ℕ)
      → r.count ≡ none
      → r.timeout ≡ some t
      → 0 < t
      → is_last {E = QuotaError E} none (retry_attempt quotas.clock r 1 start 0) ≡ false
  unfolding is_last check_limits
  first_is_last r start t c e h = ground (arith, c, e)

  with_limit-some : (l : Option ℕ) (o : Option Quota) → o ≢ none → with_limit l o ≢ none
  with_limit-some none o h = h
  with_limit-some (some l) none h = absurd (h refl)
  with_limit-some (some l) (some quota) h = ground arith

  round_finishes :
      (r : Retry) (fuel : ℕ) (a : RetryAttempt) (w : W)
      → All (λ name. view w name ≢ none) names
      → raises_of over needed (10 / a.number) (view w) names ≡ []
      → (o : W) × (rounds quotas.clock r (ensure_body quotas needed over user names) (suc fuel) a w
          ≡ some (ok tt, o))
  unfolding increased
  round_finishes r fuel a w complete e =
      let body = ensure_body quotas needed over user names in
      (
        (body a w).1,
        rounds-finish quotas.clock r body fuel a w tt
            (ap (λ p. p.0) (ensure_body-increased a w [] complete e)),
      )

  -- What the update of a round leaves, after the pause.
  raised_view :
      (r : Retry) (a : RetryAttempt) (w : W) (x : String × (ℕ × ℕ)) (xs : Increase)
      → ensure_body quotas needed over user names a w ≡ (
        again,
        (quotas.set_quota_set user (expected_limits (x ∷ xs)) (quotas.get_quota_set user w).1).1,
      )
      → (name : String)
      → view (pause quotas.clock r a (ensure_body quotas needed over user names a w).1).1 name
        ≡ with_limit (lookup name (expected_limits (x ∷ xs))) (view w name)
  raised_view r a w x xs e name =
      let limits = expected_limits (x ∷ xs) in
      let w' = (quotas.get_quota_set user w).1 in
      ap (λ v. v name) (pause-view r a (ensure_body quotas needed over user names a w).1)
      ∙ ap (λ p. view p.1 name) e
      ∙ faithful.updates limits w' name
      ∙ ap (λ v. with_limit (lookup name limits) (v name)) (faithful.keeps w)

  -- The second round ends the loop, and the first one if there is nothing to raise.
  for_attempts_ok :
      (r : Retry) (t fuel : ℕ) (w : W)
      → r.count ≡ none
      → r.timeout ≡ some t
      → 0 < t
      → Accepts over 10
      → All (λ name. view w name ≢ none) names
      → (o : W) × (for_attempts quotas.clock r
            (ensure_body quotas needed over user names)
            (suc (suc fuel))
            w
          ≡ some (ok tt, o))
  unfolding for_attempts
  for_attempts_ok r t fuel w c e0 h accepts complete =
      go (raises_of over needed 10 (view w1) names) refl
    where
      clock : Clock W
      clock = quotas.clock

      body : Body W (QuotaError E) (Unit {0})
      body = ensure_body quotas needed over user names

      w1 : W
      w1 = (quotas.clock.time w).1

      a : RetryAttempt
      a = retry_attempt clock r 1 (clock.time w).0 0

      complete1 : All (λ name. view w1 name ≢ none) names
      complete1 = subst (λ v. All (λ name. v name ≢ none) names) (sym (faithful.times w)) complete

      go :
          (xs : Increase)
          → raises_of over needed 10 (view w1) names ≡ xs
          → (o : W) × (rounds clock r body (suc (suc fuel)) a w1 ≡ some (ok tt, o))
      go [] g = round_finishes r (suc fuel) a w1 complete1 g
      go (x ∷ xs) g =
          let e : body a w1 ≡ (
            again,
            (quotas.set_quota_set user (expected_limits (x ∷ xs))
                (quotas.get_quota_set user w1).1).1,
          ) =
            ensure_body-increased a w1 (x ∷ xs) complete1 g
            ∙ increased-again a (quotas.get_quota_set user w1).1 x xs
                (first_is_last r (clock.time w).0 t c e0 h) in
          let next = pause clock r a (body a w1).1 in
          let raised : (name : String)
              → view next.1 name
                ≡ with_limit (lookup name (expected_limits (x ∷ xs))) (view w1 name) =
            raised_view r a w1 x xs e in
          let (o, last) =
            round_finishes r fuel (retry_attempt clock r 2 (clock.time w).0 next.0) next.1
              (All-map (λ name. view w1 name ≢ none) (λ name. view next.1 name ≢ none)
                (λ name k.
                  subst (λ q. q ≢ none) (sym (raised name)) (with_limit-some _ (view w1 name) k))
                names complete1)
              (raises_of-settled over needed 10 5 (view w1) (view next.1) names names accepts
                (λ name.
                  raised name
                  ∙ ap (λ ys. with_limit (lookup name (expected_limits ys)) (view w1 name)) (sym g))
                (λ name k. k)) in
          (
            o,
            rounds-again clock r body (suc fuel) a w1 tt (ap (λ p. p.0) e)
                  (first_limits r (clock.time w).0 t c e0 h)
                ∙ last,
          )

  timeout_positive :
      (timeout interval : Seconds) (second pace : ℕ)
      → 0 < second
      → (t : ℕ) × ((retry none
            (times timeout interval)
            (times (some (60 * second)) (some pace))).timeout
          ≡ some t)
        × (0 < t)
  unfolding retry or_else
  timeout_positive none interval second pace h = (60 * second, refl, omega (arith, h))
  timeout_positive (some zero) interval second pace h = (60 * second, refl, omega (arith, h))
  timeout_positive (some (suc t)) interval second pace h = (suc t, refl, omega arith)

  ensure_limits-ok :
      (second fuel : ℕ) (timeout interval : Seconds) (w : W)
      → 0 < second
      → Accepts over 10
      → All (λ name. view w name ≢ none) names
      → (ensure_limits quotas needed over user names second (suc (suc fuel)) timeout interval w).0
        ≡ ok tt
  unfolding ensure_limits retry
  ensure_limits-ok second fuel timeout interval w h accepts complete =
      let (t, e, positive) = timeout_positive timeout interval second (3 * second) h in
      let (o, end) = for_attempts_ok _ t fuel w refl e positive accepts complete in
      ap (λ x. (ended w x).0) end

module _ {W E : Type 0} (quotas : QuotaService W E) (needed : String → ℕ) (view : W → QuotaSet)
    (faithful : IsFaithful quotas none view) where
  -- Where the service does what it is told, and has a quota for each required name,
  -- `ensure_neutron_quota_limits` and `ensure_nova_quota_limits` for a project raise no error: two
  -- rounds are enough, whatever the limits, the use and the timeout are.
  pub ensure_quota_limits_converge :
      (second fuel : ℕ) (timeout interval : Seconds) (names : List String) (w : W)
      → 0 < second
      → All (λ name. view w name ≢ none) names
      → ((ensure_neutron_quota_limits quotas needed second
            (suc (suc fuel))
            timeout
            interval
            names
            w).0
          ≡ ok tt)
        × ((ensure_nova_quota_limits quotas needed second
              (suc (suc fuel))
              none
              timeout
              interval
              names
              w).0
            ≡ ok tt)
  unfolding ensure_neutron_quota_limits ensure_nova_quota_limits
  ensure_quota_limits_converge second fuel timeout interval [] w h complete = (refl, refl)
  ensure_quota_limits_converge second fuel timeout interval (name ∷ names) w h complete = (
    ensure_limits-ok quotas needed neutron_over none (name ∷ names) view faithful second fuel
        timeout interval w h (λ required. ground arith) complete,
    ensure_limits-ok quotas needed nova_over none (name ∷ names) view faithful second fuel timeout
        interval w h (λ required. ground arith) complete,
  )
